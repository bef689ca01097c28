-- ===== src/HubDb/Clients.antt =====
-- db.ts: the clients with their reports and workspaces. A time is a number that grows with it.
use sman_server.Base.{
  ℕ, ◌+◌, String, Bool, not, ◌&&◌, ◌||◌, Option, none, some, List, [], ◌∷◌, ◌++◌, map, ◌==◌,
  string_eq, exists_where, find_where, select_where, update_where, delete_where, sort_desc, take,
  leb, if◌then◌else◌, or_default,
}
use sman_server.Base.Maps.{value_of, set_entry}
use sman_server.Scheduler.{ActiveWorkspace, Client}

pub record ClientRecord : Type 0 where
  pub client_id : String
  pub version : String
  pub username : String
  pub hostname : String
  pub ip : String
  pub first_seen : ℕ
  pub last_seen : ℕ
  pub active_sessions : ℕ

pub record ReportRow : Type 0 where
  pub id : ℕ
  pub client_id : String
  pub report_time : ℕ
  pub active_sessions : ℕ

pub record WorkspaceRow : Type 0 where
  pub client_id : String
  pub workspace : String
  pub updated_at : ℕ

-- `last_report` is the counter of AUTOINCREMENT.
pub record ClientDb : Type 0 where
  pub clients : List ClientRecord
  pub reports : List ReportRow
  pub last_report : ℕ
  pub client_workspaces : List WorkspaceRow

pub record UpsertClientParams : Type 0 where
  pub client_id : String
  pub version : String
  pub username : String
  pub hostname : String
  pub ip : String
  pub active_sessions : ℕ

abbrev pub client_with_id : String → ClientRecord → Bool
client_with_id id c = c.client_id == id

abbrev pub new_client : ℕ → UpsertClientParams → ClientRecord
new_client now p = record {
  client_id = p.client_id;
  version = p.version;
  username = p.username;
  hostname = p.hostname;
  ip = p.ip;
  first_seen = now;
  last_seen = now;
  active_sessions = p.active_sessions;
}

-- ON CONFLICT(client_id) DO UPDATE: `first_seen` is left as it was.
unfoldable pub upsert_client : ℕ → UpsertClientParams → ClientDb → ClientDb
upsert_client now p s = record s {
  clients =
      if exists_where (client_with_id p.client_id) s.clients
      then update_where (client_with_id p.client_id)
          (λ c. record (new_client now p) { client_id = c.client_id; first_seen = c.first_seen })
          s.clients
      else s.clients ++ new_client now p ∷ [];
}

unfoldable pub get_client : String → ClientDb → Option ClientRecord
get_client client_id s = find_where (client_with_id client_id) s.clients

unfoldable pub get_all_clients : ClientDb → List ClientRecord
get_all_clients s = sort_desc (λ (c : ClientRecord). c.last_seen) s.clients

-- The FOREIGN KEY, which better-sqlite3 enforces, throws: `none`.
unfoldable pub insert_report : String → ℕ → ℕ → ClientDb → Option ClientDb
insert_report client_id report_time active_sessions s =
    if not (exists_where (client_with_id client_id) s.clients)
    then none
    else some (record s {
      reports =
          s.reports
          ++ record {
            id = s.last_report + 1;
            client_id = client_id;
            report_time = report_time;
            active_sessions = active_sessions;
          }
            ∷ [];
      last_report = s.last_report + 1;
    })

unfoldable pub get_reports_by_client_id : String → ClientDb → List ReportRow
get_reports_by_client_id client_id s = take 100 (
    sort_desc (λ (r : ReportRow). r.report_time)
      (select_where (λ (r : ReportRow). r.client_id == client_id) s.reports))

-- ---- Workspaces ----

abbrev pub is_workspace_row : String → String → WorkspaceRow → Bool
is_workspace_row client_id workspace r = r.client_id == client_id && r.workspace == workspace

-- A workspace that is given twice throws on the PRIMARY KEY.
unfoldable pub insert_workspaces :
    ℕ → String → List String → List WorkspaceRow → Option (List WorkspaceRow)
insert_workspaces now client_id [] rows = some rows
insert_workspaces now client_id (w ∷ rest) rows =
    let inserted =
      insert_workspaces now client_id rest
        (rows ++ record { client_id = client_id; workspace = w; updated_at = now } ∷ []) in
    if exists_where (is_workspace_row client_id w) rows then none else inserted

abbrev with_workspaces : ClientDb → Option (List WorkspaceRow) → Option ClientDb
with_workspaces s none = none
with_workspaces s (some rows) = some (record s { client_workspaces = rows })

-- `none` where the transaction throws, and is rolled back.
unfoldable pub replace_workspaces : ℕ → String → List String → ClientDb → Option ClientDb
unfolding insert_workspaces
replace_workspaces now client_id workspaces s = with_workspaces s (
    insert_workspaces now client_id workspaces
      (delete_where (λ (r : WorkspaceRow). r.client_id == client_id) s.client_workspaces))

-- ORDER BY texts; `before` is the order of a row and another.
module _ {A : Type 0} (before : A → A → Bool) where
  insert_by : A → List A → List A
  insert_by a [] = a ∷ []
  insert_by a (x ∷ xs) = if before x a then x ∷ insert_by a xs else a ∷ x ∷ xs

  unfoldable pub sort_by : List A → List A
  unfolding insert_by
  sort_by [] = []
  sort_by (x ∷ xs) = insert_by x (sort_by xs)

-- `less` is the order of SQLite on texts.
module _ (less : String → String → Bool) where
  unfoldable pub get_client_workspaces : String → ClientDb → List String
  get_client_workspaces client_id s = sort_by less (
      map (λ (r : WorkspaceRow). r.workspace)
        (select_where (λ (r : WorkspaceRow). r.client_id == client_id) s.client_workspaces))

  -- A row of the join: the workspace, and the client with its host name.
  abbrev pub Joined : Type 0
  Joined = String × Client

  abbrev joined_before : Joined → Joined → Bool
  joined_before a b = less a.0 b.0 || (a.0 == b.0 && less a.1.hostname b.1.hostname)

  unfoldable pub join_clients : ℕ → List WorkspaceRow → ClientDb → List Joined
  join_clients cutoff [] s = []
  join_clients cutoff (r ∷ rows) s =
      let rest = join_clients cutoff rows s in
      elim (get_client r.client_id s) [
        | none ↦ rest
        | some c ↦
            if leb cutoff c.last_seen
            then (r.workspace, record { client_id = r.client_id; hostname = c.hostname }) ∷ rest
            else rest
      ]

  unfoldable pub group_by_workspace :
      List Joined → List (String × List Client) → List (String × List Client)
  group_by_workspace [] m = m
  group_by_workspace ((workspace, c) ∷ rows) m =
      group_by_workspace rows
        (set_entry workspace (or_default (value_of workspace m) [] ++ c ∷ []) m)

  unfoldable pub get_active_workspaces : ℕ → ClientDb → List ActiveWorkspace
  unfolding join_clients group_by_workspace
  get_active_workspaces cutoff s =
      map (λ (e : String × List Client). record { workspace = e.0; clients = e.1 })
        (group_by_workspace (sort_by joined_before (join_clients cutoff s.client_workspaces s)) [])
