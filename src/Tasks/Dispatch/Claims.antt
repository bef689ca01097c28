-- ===== src/Tasks/Dispatch/Claims.antt =====
-- The automatic dispatch gives each subtask to the first report that claims it.
use sman_server.Base.{
  ◌≡◌, refl, sym, subst, ◌∙◌, String, Bool, true, false, Option, none, some, List, [], ◌∷◌, ◌==◌,
  ==_iff, ==_refl, string_eq, find_where, exists_where, or_else, Option-cases, Bool-cases, inl, inr,
  if◌then◌else◌,
}
use sman_server.Tasks.Types.{EvaluationReportRecord}
use sman_server.Base.Maps.{value_of, value_of-set_entry}
use sman_server.Tasks.Dispatch.{claims, claim_subtasks, note_claim}

module _ (reports : List EvaluationReportRecord) (subtask : String) where
  abbrev first_claim : Option EvaluationReportRecord
  first_claim = find_where (claims subtask) reports

  noted :
      (other : String) (m : List (String × EvaluationReportRecord))
      → value_of subtask (note_claim other (find_where (claims other) reports) m) ≡ (
          if other == subtask then or_else first_claim (value_of subtask m) else value_of subtask m)
  noted other m = elim (Bool-cases (other == subtask)) [
    | inl y ↦ rw y (
        subst
          (λ (o : String).
            value_of subtask (note_claim o (find_where (claims o) reports) m)
            ≡ or_else first_claim (value_of subtask m))
          (sym ((==_iff other subtask).0 y)) (mine first_claim))
    | inr n ↦ rw n (another n (find_where (claims other) reports))
  ]
    where
      mine :
          (o : Option EvaluationReportRecord)
          → value_of subtask (note_claim subtask o m) ≡ or_else o (value_of subtask m)
      mine none = refl
      mine (some r) = value_of-set_entry subtask subtask r m ∙ rw (==_refl subtask) refl

      another :
          (other == subtask) ≡ false
          → (o : Option EvaluationReportRecord)
          → value_of subtask (note_claim other o m) ≡ value_of subtask m
      another n none = refl
      another n (some r) = value_of-set_entry subtask other r m ∙ rw n refl

  -- Claiming twice is claiming once.
  twice :
      (o v : Option EvaluationReportRecord) (c e : Bool)
      → (if e then or_else o (if c then or_else o v else v) else if c then or_else o v else v)
        ≡ (if (if c then true else e) then or_else o v else v)
  twice none v true true = refl
  twice none v true false = refl
  twice (some r) v true true = refl
  twice (some r) v true false = refl
  twice o v false e = refl

  claim_subtasks-value_of :
      (ids : List String) (m : List (String × EvaluationReportRecord))
      → value_of subtask (claim_subtasks reports ids m) ≡ (
          if exists_where (λ (i : String). i == subtask) ids
          then or_else first_claim (value_of subtask m)
          else value_of subtask m)
  unfolding claim_subtasks exists_where
  claim_subtasks-value_of [] m = refl
  claim_subtasks-value_of (i ∷ ids) m =
      claim_subtasks-value_of ids (note_claim i (find_where (claims i) reports) m)
      ∙ rw (noted i m) (twice first_claim (value_of subtask m) (i == subtask) _)

  -- Each subtask of the task is in the map with the first report, in the order of the reports, that
  -- claims it, also where its id stands in the list twice; a subtask that no report claims, and an id
  -- that is not one of the task's, is not in the map.
  pub claim_subtasks-first :
      (ids : List String)
      → value_of subtask (claim_subtasks reports ids []) ≡ (
          if exists_where (λ (i : String). i == subtask) ids
          then find_where (claims subtask) reports
          else none)
  claim_subtasks-first ids =
      claim_subtasks-value_of ids [] ∙ elim (Option-cases (find_where (claims subtask) reports)) [
        | inl n ↦ rw n refl
        | inr (r, k) ↦ rw k refl
      ]
