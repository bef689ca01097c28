-- ===== src/HubDb/Reports.antt =====
-- routes/report.ts: the reports of the clients, their errors, feedback and achievements. What throws
-- is answered by "Invalid request", and what was written before stays.
use sman_server.Base.{
  ℕ, ◌-◌, ◌*◌, String, Bool, false, not, ◌&&◌, ◌||◌, Option, none, some, List, ◌==◌, nat_eq,
  string_eq, ltb, delete_where, if◌then◌else◌, or_default,
}
use sman_server.Base.Maps.{value_of, set_entry}
use sman_server.Base.Texts.{is_empty, or_text, before_at}
use sman_server.Scheduler.{SkillScheduler, get_commands}
use sman_server.HubDb.Broadcasts.{EncryptedRequest, Reply, bad_request, replied, validate_request}
use sman_server.HubDb.Clients.{ClientDb, upsert_client, insert_report, replace_workspaces}
use sman_server.HubDb.Leaderboard.{
  AchievementParams, LeaderboardDb, upsert_achievement_entry, get_leaderboard,
  get_leaderboard_by_dimension, LeaderboardRow,
}
use sman_server.HubDb.Logs.{
  LogDb, ErrorReportParams, FeedbackParams, insert_error_report, insert_feedback,
}

pub record ReportPayload : Type 0 where
  pub client_id : String
  pub version : String
  pub username : String
  pub hostname : String
  pub ip : String
  pub active_sessions : ℕ
  pub report_time : ℕ
  pub workspaces : Option (List String)

-- A handler on a request whose envelope is tested first.
abbrev pub opened {ℓ} :
    {A : Type ℓ} {B : Type 0} → ℕ → EncryptedRequest B → (String → A) → (B → A) → A
opened now body refuse accept = elim (validate_request now body) [
  | some error ↦ refuse error
  | none ↦ elim body.payload [ none ↦ refuse "Invalid request" | some p ↦ accept p ]
]

-- ---- /report ----

-- The database and the commands that wait, which a reply takes away.
abbrev pub Reported : Type 0
Reported = Reply (List String) × (ClientDb × SkillScheduler)

abbrev with_commands : String → ClientDb → SkillScheduler → Reported
with_commands client_id s k =
    let (commands, k') = get_commands client_id k in (replied commands, (s, k'))

-- A missing list of workspaces leaves the stored ones.
abbrev store_workspaces :
    ℕ → ReportPayload → Option (List String) → ClientDb → SkillScheduler → Reported
store_workspaces now p none s k = with_commands p.client_id s k
store_workspaces now p (some workspaces) s k =
    elim (replace_workspaces now p.client_id workspaces s) [
      | none ↦ (bad_request "Invalid request", (s, k))
      | some s' ↦ with_commands p.client_id s' k
    ]

abbrev store_report : ℕ → ReportPayload → ClientDb → SkillScheduler → Reported
store_report now p s k =
    let s' =
      upsert_client now
        (record {
          client_id = p.client_id;
          version = p.version;
          username = or_text p.username (before_at p.client_id);
          hostname = p.hostname;
          ip = p.ip;
          active_sessions = p.active_sessions;
        })
        s in
    elim (insert_report p.client_id p.report_time p.active_sessions s') [
      | none ↦ (bad_request "Invalid request", (s', k))
      | some s'' ↦ store_workspaces now p p.workspaces s'' k
    ]

unfoldable pub report_route :
    ℕ → EncryptedRequest ReportPayload → ClientDb → SkillScheduler → Reported
report_route now body s k =
    opened now body (λ error. (bad_request error, (s, k))) (λ p. store_report now p s k)

-- ---- /error-report, /feedback ----

unfoldable pub error_report_route :
    ℕ → EncryptedRequest ErrorReportParams → LogDb → Reply (Unit {0}) × LogDb
error_report_route now body s =
    opened now body (λ error. (bad_request error, s))
      (λ p. (replied tt, insert_error_report now p s))

-- The time of the last feedback of each address.
abbrev pub Limiter : Type 0
Limiter = List (String × ℕ)

-- `lastTime && now - lastTime < FEEDBACK_RATE_LIMIT_MS`; the clock is not before the last time.
abbrev pub is_limited : ℕ → Option ℕ → Bool
is_limited now none = false
is_limited now (some last_time) = not (last_time == 0) && ltb (now - last_time) 30_000

pub data FeedbackReply : Type 0 where
  too_many_requests message_required accepted : FeedbackReply
  invalid : (error : String) → FeedbackReply

-- `trim` is JavaScript's; a message that is no text is empty.
module _ (trim : String → String) where
  abbrev store_feedback : ℕ → FeedbackParams → LogDb → FeedbackReply × LogDb
  store_feedback now p s =
      if is_empty (trim p.message)
      then (message_required, s)
      else (accepted, insert_feedback now (record p { message = trim p.message }) s)

  unfoldable pub feedback_route :
      ℕ
      → String
      → EncryptedRequest FeedbackParams
      → Limiter
      → LogDb
      → FeedbackReply × (Limiter × LogDb)
  feedback_route now ip body limiter s =
      if is_limited now (value_of ip limiter)
      then (too_many_requests, (limiter, s))
      else (let (r, s') =
            opened now body (λ error. (invalid error, s)) (λ p. store_feedback now p s) in
          (r, (set_entry ip now limiter, s')))

-- The timer that forgets old entries.
unfoldable pub clean_limiter : ℕ → Limiter → Limiter
clean_limiter now limiter = delete_where (λ (e : String × ℕ). ltb (30_000 * 2) (now - e.1)) limiter

-- ---- /achievement-report, /achievement-leaderboard ----

-- `total_points` is missing where the client sent no number.
pub record AchievementPayload : Type 0 where
  pub agent_id : String
  pub agent_name : String
  pub total_points : Option ℕ
  pub total_unlocked : Option ℕ
  pub level : String
  pub tier_counts : String
  pub dimension_scores : String

abbrev entry_of : AchievementPayload → ℕ → AchievementParams
entry_of p points = record {
  agent_id = p.agent_id;
  agent_name = p.agent_name;
  total_points = points;
  total_unlocked = or_default p.total_unlocked 0;
  level = or_text p.level "bronze";
  tier_counts = or_text p.tier_counts "{}";
  dimension_scores = or_text p.dimension_scores "{}";
}

abbrev store_achievement :
    ℕ → AchievementPayload → Option ℕ → LeaderboardDb → Reply (Unit {0}) × LeaderboardDb
store_achievement now p none s = (bad_request "Missing required fields", s)
store_achievement now p (some points) s =
    if is_empty p.agent_id || is_empty p.agent_name
    then (bad_request "Missing required fields", s)
    else (replied tt, upsert_achievement_entry now (entry_of p points) s)

unfoldable pub achievement_report_route :
    ℕ → EncryptedRequest AchievementPayload → LeaderboardDb → Reply (Unit {0}) × LeaderboardDb
achievement_report_route now body s =
    opened now body (λ error. (bad_request error, s))
      (λ p. store_achievement now p p.total_points s)

-- `none` is the status 500.
unfoldable pub achievement_leaderboard_route :
    (String → String → ℕ)
    → (String → Bool)
    → (String → String → Bool)
    → String
    → LeaderboardDb
    → Option (List (ℕ × LeaderboardRow))
achievement_leaderboard_route dimension_of valid like dimension s =
    if not (is_empty dimension) && not (dimension == "total")
    then get_leaderboard_by_dimension dimension_of valid like dimension (some 100) s
    else some (get_leaderboard (some 100) s)
