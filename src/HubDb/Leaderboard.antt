-- ===== src/HubDb/Leaderboard.antt =====
-- db.ts: the leaderboard of achievements with its log. Points and counts are natural numbers, and the
-- columns of JSON are texts as the client wrote them; `dimension_of` is what SQLite makes of
-- COALESCE(CAST(json_extract(scores, '$.' || dimension) AS INTEGER), 0).
use sman_server.Base.{
  ℕ, zero, suc, ◌+◌, ◌-◌, ◌*◌, String, Bool, not, ◌&&◌, Option, none, some, List, [], ◌∷◌, ◌++◌,
  ◌==◌, string_eq, nat_eq, exists_where, find_where, select_where, update_where, sort_desc,
  sort_asc, take, length, if◌then◌else◌, or_default,
}
use Prim.Native.String.{◌++◌ as str_append}
use sman_server.Base.Sets.{has}
use sman_server.Base.Texts.{is_empty}

pub record LeaderboardRow : Type 0 where
  pub agent_id : String
  pub agent_name : String
  pub total_points : ℕ
  pub total_unlocked : ℕ
  pub level : String
  pub tier_counts : String
  pub dimension_scores : String
  pub updated_at : ℕ

pub record LeaderboardLogRow : Type 0 where
  pub id : ℕ
  pub agent_id : String
  pub agent_name : String
  pub total_points : ℕ
  pub total_unlocked : ℕ
  pub level : String
  pub tier_counts : String
  pub dimension_scores : String
  pub changed_fields : List String
  pub created_at : ℕ

-- `last_log` is the counter of AUTOINCREMENT.
pub record LeaderboardDb : Type 0 where
  pub leaderboard : List LeaderboardRow
  pub log : List LeaderboardLogRow
  pub last_log : ℕ

pub record AchievementParams : Type 0 where
  pub agent_id : String
  pub agent_name : String
  pub total_points : ℕ
  pub total_unlocked : ℕ
  pub level : String
  pub tier_counts : String
  pub dimension_scores : String

abbrev pub row_with_agent : String → LeaderboardRow → Bool
row_with_agent agent_id r = r.agent_id == agent_id

abbrev push_unless : Bool → String → List String → List String
push_unless same field fields = if same then fields else fields ++ field ∷ []

unfoldable pub changed_fields : AchievementParams → LeaderboardRow → List String
changed_fields p r = push_unless (r.dimension_scores == p.dimension_scores) "dimension_scores" (
    push_unless (r.tier_counts == p.tier_counts) "tier_counts" (
      push_unless (r.level == p.level) "level" (
        push_unless (r.total_unlocked == p.total_unlocked) "total_unlocked" (
          push_unless (r.total_points == p.total_points) "total_points"
            (push_unless (r.agent_name == p.agent_name) "agent_name" [])))))

abbrev pub excluded_row : ℕ → AchievementParams → LeaderboardRow
excluded_row now p = record {
  agent_id = p.agent_id;
  agent_name = p.agent_name;
  total_points = p.total_points;
  total_unlocked = p.total_unlocked;
  level = p.level;
  tier_counts = p.tier_counts;
  dimension_scores = p.dimension_scores;
  updated_at = now;
}

abbrev write_row : ℕ → AchievementParams → LeaderboardDb → LeaderboardDb
write_row now p s = record s {
  leaderboard =
      if exists_where (row_with_agent p.agent_id) s.leaderboard
      then update_where (row_with_agent p.agent_id)
          (λ r. record (excluded_row now p) { agent_id = r.agent_id }) s.leaderboard
      else s.leaderboard ++ excluded_row now p ∷ [];
}

abbrev write_log : ℕ → AchievementParams → List String → LeaderboardDb → LeaderboardDb
write_log now p fields s = record s {
  log =
      s.log
      ++ record {
        id = s.last_log + 1;
        agent_id = p.agent_id;
        agent_name = p.agent_name;
        total_points = p.total_points;
        total_unlocked = p.total_unlocked;
        level = p.level;
        tier_counts = p.tier_counts;
        dimension_scores = p.dimension_scores;
        changed_fields = fields;
        created_at = now;
      }
        ∷ [];
  last_log = s.last_log + 1;
}

abbrev log_if_changed : ℕ → AchievementParams → List String → LeaderboardDb → LeaderboardDb
log_if_changed now p [] s = s
log_if_changed now p (field ∷ fields) s = write_log now p (field ∷ fields) s

abbrev logged : ℕ → AchievementParams → Option LeaderboardRow → LeaderboardDb → LeaderboardDb
logged now p none s = write_log now p [] s
logged now p (some current) s = log_if_changed now p (changed_fields p current) s

unfoldable pub upsert_achievement_entry : ℕ → AchievementParams → LeaderboardDb → LeaderboardDb
unfolding changed_fields
upsert_achievement_entry now p s =
    logged now p (find_where (row_with_agent p.agent_id) s.leaderboard) (write_row now p s)

-- ---- The lists ----

-- ORDER BY total_points DESC, total_unlocked DESC, updated_at ASC.
abbrev pub by_points : List LeaderboardRow → List LeaderboardRow
by_points rows =
    sort_desc (λ (r : LeaderboardRow). r.total_points)
      (sort_desc (λ (r : LeaderboardRow). r.total_unlocked)
        (sort_asc (λ (r : LeaderboardRow). r.updated_at) rows))

-- A row with its rank, the rows numbered from `first` on.
unfoldable pub ranked : ℕ → List LeaderboardRow → List (ℕ × LeaderboardRow)
ranked first [] = []
ranked first (r ∷ rows) = (first, r) ∷ ranked (first + 1) rows

unfoldable pub get_leaderboard : Option ℕ → LeaderboardDb → List (ℕ × LeaderboardRow)
unfolding ranked
get_leaderboard limit s = ranked 1 (take (or_default limit 100) (by_points s.leaderboard))

skip_rows : ℕ → List LeaderboardRow → List LeaderboardRow
skip_rows zero rows = rows
skip_rows (suc n) [] = []
skip_rows (suc n) (r ∷ rows) = skip_rows n rows

abbrev pub allowed_dimensions : List String
allowed_dimensions =
    "sessions" ∷ "messages" ∷ "tokens" ∷ "cron_jobs" ∷ "earth_path" ∷ "bot_sessions"
    ∷ "bot_messages" ∷ "bot_count" ∷ "streak" ∷ "total_sessions" ∷ "total_messages" ∷ "total_tokens"
    ∷ "total_cron_runs" ∷ "total_smartpath_runs" ∷ "bot_sessions_total" ∷ "bot_messages_total"
    ∷ "bot_count_total" ∷ "current_streak" ∷ []

pub record PageParams : Type 0 where
  pub page : ℕ
  pub page_size : ℕ
  pub sort_by : String
  pub search : Option String

-- `valid` is the test of a dimension by its pattern, `like` is SQLite's LIKE.
module _ (dimension_of : String → String → ℕ) (valid : String → Bool)
    (like : String → String → Bool) where
  -- ORDER BY dim_value DESC, total_points DESC, updated_at ASC.
  abbrev pub by_dimension : String → List LeaderboardRow → List LeaderboardRow
  by_dimension dimension rows =
      sort_desc (λ (r : LeaderboardRow). dimension_of dimension r.dimension_scores)
        (sort_desc (λ (r : LeaderboardRow). r.total_points)
          (sort_asc (λ (r : LeaderboardRow). r.updated_at) rows))

  -- `none` where the name of the dimension throws.
  unfoldable pub get_leaderboard_by_dimension :
      String → Option ℕ → LeaderboardDb → Option (List (ℕ × LeaderboardRow))
  unfolding ranked
  get_leaderboard_by_dimension dimension limit s =
      if not (valid dimension)
      then none
      else some (ranked 1 (take (or_default limit 100) (by_dimension dimension s.leaderboard)))

  abbrev pub in_order : String → List LeaderboardRow → List LeaderboardRow
  in_order sort_by rows =
      if not (sort_by == "total") && has sort_by allowed_dimensions
      then by_dimension sort_by rows
      else by_points rows

  -- An empty search is none.
  abbrev pub found_by : Option String → List LeaderboardRow → List LeaderboardRow
  found_by none rows = rows
  found_by (some text) rows =
      if is_empty text
      then rows
      else select_where
          (λ (r : LeaderboardRow). like (str_append "%" (str_append text "%")) r.agent_name) rows

  -- The page, with ranks in the list that is found, and how many rows were found. Pages are counted
  -- from 1 on.
  unfoldable pub get_leaderboard_page : PageParams → LeaderboardDb → List (ℕ × LeaderboardRow) × ℕ
  unfolding skip_rows ranked
  get_leaderboard_page p s =
      let offset = (p.page - 1) * p.page_size in
      let found = found_by p.search s.leaderboard in
      (
        ranked (offset + 1) (take p.page_size (skip_rows offset (in_order p.sort_by found))),
        length found,
      )

unfoldable pub get_achievement_logs : String → LeaderboardDb → List LeaderboardLogRow
get_achievement_logs agent_id s =
    sort_asc (λ (r : LeaderboardLogRow). r.id)
      (select_where (λ (r : LeaderboardLogRow). r.agent_id == agent_id) s.log)
