-- ===== src/HubDb/Logs.antt =====
-- db.ts: the settings, the error reports and the feedback.
use sman_server.Base.{
  ℕ, ◌+◌, String, Bool, Option, List, [], ◌∷◌, ◌++◌, ◌==◌, string_eq, nat_eq, exists_where,
  find_where, map_option, update_where, delete_where, sort_desc, take, or_default, if◌then◌else◌,
}

pub record SettingRow : Type 0 where
  pub key : String
  pub value : String
  pub updated_at : ℕ

pub record ErrorReportParams : Type 0 where
  pub client_id : Option String
  pub session_id : Option String
  pub error_code : Option String
  pub error_message : Option String
  pub raw_error : Option String
  pub workspace : Option String
  pub last_user_message : Option String
  pub llm_model : Option String
  pub llm_base_url : Option String
  pub os_info : Option String

pub record ErrorReportRow : Type 0 where
  pub id : ℕ
  pub report : ErrorReportParams
  pub created_at : ℕ

pub record FeedbackParams : Type 0 where
  pub client_id : Option String
  pub message : String
  pub workspace : Option String
  pub llm_model : Option String
  pub llm_base_url : Option String
  pub os_info : Option String

pub record FeedbackRow : Type 0 where
  pub id : ℕ
  pub entry : FeedbackParams
  pub created_at : ℕ

-- With the counters of AUTOINCREMENT.
pub record LogDb : Type 0 where
  pub hub_settings : List SettingRow
  pub error_reports : List ErrorReportRow
  pub last_error_report : ℕ
  pub feedback : List FeedbackRow
  pub last_feedback : ℕ

abbrev pub setting_with_key : String → SettingRow → Bool
setting_with_key key r = r.key == key

unfoldable pub get_setting : String → LogDb → Option String
get_setting key s =
    map_option (λ (r : SettingRow). r.value) (find_where (setting_with_key key) s.hub_settings)

unfoldable pub set_setting : ℕ → String → String → LogDb → LogDb
set_setting now key value s = record s {
  hub_settings =
      if exists_where (setting_with_key key) s.hub_settings
      then update_where (setting_with_key key) (λ r. record r { value = value; updated_at = now })
          s.hub_settings
      else s.hub_settings ++ record { key = key; value = value; updated_at = now } ∷ [];
}

unfoldable pub insert_error_report : ℕ → ErrorReportParams → LogDb → LogDb
insert_error_report now p s = record s {
  error_reports =
      s.error_reports ++ record { id = s.last_error_report + 1; report = p; created_at = now } ∷ [];
  last_error_report = s.last_error_report + 1;
}

unfoldable pub get_error_reports : Option ℕ → LogDb → List ErrorReportRow
get_error_reports limit s =
    take (or_default limit 100) (sort_desc (λ (r : ErrorReportRow). r.created_at) s.error_reports)

unfoldable pub delete_error_report : ℕ → LogDb → LogDb
delete_error_report id s = record s {
  error_reports = delete_where (λ (r : ErrorReportRow). r.id == id) s.error_reports;
}

unfoldable pub insert_feedback : ℕ → FeedbackParams → LogDb → LogDb
insert_feedback now p s = record s {
  feedback = s.feedback ++ record { id = s.last_feedback + 1; entry = p; created_at = now } ∷ [];
  last_feedback = s.last_feedback + 1;
}

unfoldable pub get_feedbacks : Option ℕ → LogDb → List FeedbackRow
get_feedbacks limit s =
    take (or_default limit 100) (sort_desc (λ (r : FeedbackRow). r.created_at) s.feedback)

unfoldable pub delete_feedback : ℕ → LogDb → LogDb
delete_feedback id s = record s {
  feedback = delete_where (λ (r : FeedbackRow). r.id == id) s.feedback;
}
