-- ===== src/HubDb/Broadcasts.antt =====
-- db.ts: the broadcasts and what a client has read of them; routes/broadcast.ts over them. A time is
-- a number that grows with it, where the code compares texts in the format of toISOString.
use sman_server.Base.{
  ℕ, ◌-◌, ◌*◌, ◌+◌, String, Bool, not, ◌&&◌, Option, none, some, List, [], ◌∷◌, ◌++◌, map, ◌==◌,
  string_eq, nat_eq, nat_beq, exists_where, select_where, update_where, sort_desc, ltb,
  if◌then◌else◌,
}
use sman_server.Base.Sets.{has}

pub record BroadcastRow : Type 0 where
  pub id : String
  pub title : String
  pub body : String
  pub created_at : ℕ
  pub active : ℕ

pub record ReadRow : Type 0 where
  pub client_id : String
  pub broadcast_id : String
  pub read_at : ℕ

pub record BroadcastDb : Type 0 where
  pub broadcasts : List BroadcastRow
  pub read_log : List ReadRow

pub record BroadcastParams : Type 0 where
  pub id : String
  pub title : String
  pub body : String
  pub created_at : ℕ

abbrev pub broadcast_with_id : String → BroadcastRow → Bool
broadcast_with_id id b = b.id == id

-- The PRIMARY KEY throws: `none`.
unfoldable pub create_broadcast : BroadcastParams → BroadcastDb → Option BroadcastDb
create_broadcast p s =
    if exists_where (broadcast_with_id p.id) s.broadcasts
    then none
    else some (record s {
      broadcasts =
          s.broadcasts
          ++ record {
            id = p.id;
            title = p.title;
            body = p.body;
            created_at = p.created_at;
            active = 1;
          }
            ∷ [];
    })

unfoldable pub deactivate_broadcast : String → BroadcastDb → BroadcastDb
deactivate_broadcast id s = record s {
  broadcasts = update_where (broadcast_with_id id) (λ b. record b { active = 0 }) s.broadcasts;
}

abbrev pub newest_first : List BroadcastRow → List BroadcastRow
newest_first = sort_desc (λ (b : BroadcastRow). b.created_at)

unfoldable pub get_active_broadcasts : BroadcastDb → List BroadcastRow
get_active_broadcasts s =
    newest_first (select_where (λ (b : BroadcastRow). b.active == 1) s.broadcasts)

unfoldable pub get_all_broadcasts : BroadcastDb → List BroadcastRow
get_all_broadcasts s = newest_first s.broadcasts

unfoldable pub get_broadcasts_since : ℕ → BroadcastDb → List BroadcastRow
get_broadcasts_since since s =
    newest_first
      (select_where (λ (b : BroadcastRow). b.active == 1 && ltb since b.created_at) s.broadcasts)

abbrev pub is_read_row : String → String → ReadRow → Bool
is_read_row client_id broadcast_id r = r.client_id == client_id && r.broadcast_id == broadcast_id

-- INSERT OR IGNORE.
unfoldable pub mark_as_read : ℕ → String → String → BroadcastDb → BroadcastDb
mark_as_read now client_id broadcast_id s =
    if exists_where (is_read_row client_id broadcast_id) s.read_log then s else record s {
      read_log =
          s.read_log
          ++ record { client_id = client_id; broadcast_id = broadcast_id; read_at = now } ∷ [];
    }

unfoldable pub get_read_broadcast_ids : String → BroadcastDb → List String
get_read_broadcast_ids client_id s =
    map (λ (r : ReadRow). r.broadcast_id)
      (select_where (λ (r : ReadRow). r.client_id == client_id) s.read_log)

-- ---- The routes ----

-- A request with its payload decrypted, where `decrypt` does not throw.
pub record EncryptedRequest (B : Type 0) : Type 0 where
  pub psk_version : ℕ
  pub timestamp : ℕ
  pub payload : Option B

pub data Reply (A : Type 0) : Type 0 where
  bad_request : (error : String) → Reply A
  replied : A → Reply A

pub record BroadcastQueryPayload : Type 0 where
  pub client_id : String
  pub since : ℕ

pub record AckPayload : Type 0 where
  pub client_id : String
  pub broadcast_ids : List String

pub record BroadcastMessage : Type 0 where
  pub id : String
  pub title : String
  pub body : String
  pub created_at : ℕ

-- Five minutes of milliseconds; the timestamp is in seconds.
unfoldable pub validate_request : {B : Type 0} → ℕ → EncryptedRequest B → Option String
validate_request now body =
    if not (nat_beq body.psk_version 1)
    then some "Unsupported PSK version"
    else if ltb (5 * 60 * 1000) ((now - body.timestamp * 1000) + (body.timestamp * 1000 - now))
    then some "Timestamp out of range"
    else none

abbrev pub message_of : BroadcastRow → BroadcastMessage
message_of b = record { id = b.id; title = b.title; body = b.body; created_at = b.created_at }

abbrev pub unread : BroadcastQueryPayload → BroadcastDb → List BroadcastMessage
unread q s = map message_of (
    select_where (λ (b : BroadcastRow). not (has b.id (get_read_broadcast_ids q.client_id s)))
      (get_broadcasts_since q.since s))

abbrev pub query :
    Option String → Option BroadcastQueryPayload → BroadcastDb → Reply (List BroadcastMessage)
query (some error) payload s = bad_request error
query none none s = bad_request "Invalid request"
query none (some q) s = replied (unread q s)

unfoldable pub broadcasts_route :
    ℕ → EncryptedRequest BroadcastQueryPayload → BroadcastDb → Reply (List BroadcastMessage)
broadcasts_route now body s = query (validate_request now body) body.payload s

unfoldable pub mark_all : ℕ → String → List String → BroadcastDb → BroadcastDb
mark_all now client_id [] s = s
mark_all now client_id (bid ∷ rest) s =
    mark_all now client_id rest (mark_as_read now client_id bid s)

abbrev pub acknowledge :
    ℕ → Option String → Option AckPayload → BroadcastDb → Reply (Unit {0}) × BroadcastDb
acknowledge now (some error) payload s = (bad_request error, s)
acknowledge now none none s = (bad_request "Invalid request", s)
acknowledge now none (some a) s = (replied tt, mark_all now a.client_id a.broadcast_ids s)

unfoldable pub ack_route :
    ℕ → EncryptedRequest AckPayload → BroadcastDb → Reply (Unit {0}) × BroadcastDb
unfolding mark_all
ack_route now body s = acknowledge now (validate_request now body) body.payload s
