-- ===== src/Accounts/Ledger/Outcomes.antt =====
-- recordEntry as a whole: each way in which it can end, and what that way leaves.
use sman_server.Base.{
  ℕ, ◌≡◌, refl, String, Bool, Option, none, some, arith, ◌==◌, string_eq, ◌⊎◌, Bool-cases, inl, inr,
}
use sman_server.Base.Int.{pos, ◌≤ℤ◌, leb_ℤ, ltb_ℤ}
use sman_server.Accounts.Types.{TransactionDetail}
use sman_server.Accounts.Faults.{Result, ok, err}
use sman_server.Accounts.Rejects.{RejectResult, reject, thrown}
use sman_server.Accounts.Store.Tables.{AccountDb, Env}
use sman_server.Accounts.Store.Monad.{Ensures}
use sman_server.Accounts.Store.Rows.{get_account}
use sman_server.Accounts.Store.Txns.{get_txn_by_event_id}
use sman_server.Accounts.Ledger.Params.{
  EntryParams, TransferResult, Outcome, duplicate, executed, refused, to_result, Ledger, max_amount,
  system_user,
}
use sman_server.Accounts.Ledger.Pipeline.{transaction_body}
use sman_server.Accounts.Ledger.Entry.{
  finish, execute_in_transaction, event_id_of, validate_and_execute, unless_blocked, record_entry,
}
use sman_server.Accounts.Ledger.Movement.{IsValid, Extends, Extends-refl}
use sman_server.Accounts.Ledger.Stages.{SameMoney}
use sman_server.Accounts.Ledger.Body.{Execution, BodyPost, transaction_body_lem}

abbrev pub is_system_source : EntryParams → Bool
is_system_source p = p.from_user_id == system_user

-- The event of an entry: the one given, or a drawn one.
abbrev pub IsEvent : EntryParams → String → Type 0
IsEvent p e = (p.event_id ≡ none) ⊎ (p.event_id ≡ some e)

abbrev pub InRange : EntryParams → Type 0
InRange p = (pos 1 ≤ℤ p.amount) × (p.amount ≤ℤ max_amount)

-- How an entry can end: refused, before or by a check or by an error; as a known event; executed.
pub data EntryPost (env : Env) (p : EntryParams) (s : AccountDb) (r : TransferResult)
    (s' : AccountDb) : Type 0 where
  refusal :
      (why : RejectResult)
      → r ≡ to_result (refused why)
      → Extends s s'
      → IsValid s'
      → EntryPost env p s r s'
  known :
      (e : String) (t : TransactionDetail)
      → IsEvent p e
      → InRange p
      → r ≡ to_result (duplicate t)
      → get_txn_by_event_id e s ≡ some t
      → SameMoney s s'
      → EntryPost env p s r s'
  done :
      (e : String) (t : TransactionDetail)
      → IsEvent p e
      → InRange p
      → r ≡ to_result (executed t)
      → get_txn_by_event_id e s ≡ none
      → Execution env e p (is_system_source p) s t s'
      → EntryPost env p s r s'

module _ (env : Env) (p : EntryParams) where
  finish_lem :
      (e : String) (l : Ledger) (b : Result (Outcome × AccountDb))
      → IsEvent p e
      → InRange p
      → IsValid l.db
      → Ensures (BodyPost env e p (is_system_source p) l.db) b
      → EntryPost env p l.db (finish env e l b).0 (finish env e l b).1.db
  unfolding finish get_account
  finish_lem e l (ok (duplicate t, db)) i n v h = EntryPost.known e t i n refl h.0 h.1
  finish_lem e l (ok (executed t, db)) i n v h = EntryPost.done e t i n refl h.0 h.1
  finish_lem e l (ok (refused r, db)) i n v h = EntryPost.refusal r refl h.2 h.3
  finish_lem e l (err f) i n v h =
      EntryPost.refusal (reject "E001" (some (thrown f))) refl
        (record { kept = λ j a g. g; fresh = λ j a g n. cc; same_txns = refl })
        (record { unique = v.unique; nonneg = v.nonneg })

  execute_lem :
      (e : String) (l : Ledger)
      → IsEvent p e
      → InRange p
      → IsValid l.db
      → let out = execute_in_transaction env e p (is_system_source p) l in
        EntryPost env p l.db out.0 out.1.db
  unfolding execute_in_transaction
  execute_lem e l i n v =
      finish_lem e l (transaction_body env e p (is_system_source p) l.db) i n v
        (transaction_body_lem env e p (is_system_source p) l.db v)

  -- A drawn id counts for nothing in what the entry leaves.
  undraw :
      (s : AccountDb) (d : ℕ) (r : TransferResult) (s' : AccountDb)
      → EntryPost env p (record s { draws = d }) r s'
      → EntryPost env p s r s'
  unfolding get_account get_txn_by_event_id
  undraw s d r s' (EntryPost.refusal why e x v) =
      EntryPost.refusal why e (record { kept = x.kept; fresh = x.fresh; same_txns = x.same_txns }) v
  undraw s d r s' (EntryPost.known e t i n q k m) =
      EntryPost.known e t i n q k (record { accounts = m.accounts; txns = m.txns })
  undraw s d r s' (EntryPost.done e t i n q k x) = EntryPost.done e t i n q k (record {
    from = x.from;
    to = x.to;
    opened = x.opened;
    extends = record {
      kept = x.extends.kept;
      fresh = x.extends.fresh;
      same_txns = x.extends.same_txns;
    };
    opened_valid = x.opened_valid;
    from_found = x.from_found;
    to_found = x.to_found;
    from_owner = x.from_owner;
    to_owner = x.to_owner;
    from_type = x.from_type;
    to_type = x.to_type;
    gates = x.gates;
    posted = x.posted;
  })

  abbrev execute_with : String × Ledger → TransferResult × Ledger
  execute_with (e, l) = execute_in_transaction env e p (is_system_source p) l

  in_range_lem :
      (o : Option String) (l : Ledger)
      → p.event_id ≡ o
      → InRange p
      → IsValid l.db
      → let out = execute_with (event_id_of env o l) in EntryPost env p l.db out.0 out.1.db
  unfolding event_id_of
  in_range_lem (some e) l h n v = execute_lem e l (inr h) n v
  in_range_lem none l h n v =
      undraw l.db _ _ _
        (execute_lem _ _ (inl h) n (record { unique = v.unique; nonneg = v.nonneg }))

  validate_and_execute_lem :
      (l : Ledger)
      → IsValid l.db
      → EntryPost env p l.db (validate_and_execute env p l).0 (validate_and_execute env p l).1.db
  unfolding validate_and_execute
  validate_and_execute_lem l v = elim (Bool-cases (leb_ℤ p.amount (pos 0))) [
    | inl o ↦ rw o (EntryPost.refusal _ refl (Extends-refl l.db) v)
    | inr low ↦ elim (Bool-cases (ltb_ℤ max_amount p.amount)) [
      | inl o ↦ rw (low, o) (EntryPost.refusal _ refl (Extends-refl l.db) v)
      | inr high ↦ rw (low, high) (in_range_lem p.event_id l refl (ground arith, ground arith) v)
    ]
  ]

  unless_blocked_lem :
      (o : Option RejectResult) (l : Ledger)
      → IsValid l.db
      → EntryPost env p l.db (unless_blocked env p o l).0 (unless_blocked env p o l).1.db
  unfolding unless_blocked get_account
  unless_blocked_lem none l v = validate_and_execute_lem l v
  unless_blocked_lem (some r) l v =
      EntryPost.refusal r refl
        (record { kept = λ j a g. g; fresh = λ j a g n. cc; same_txns = refl })
        (record { unique = v.unique; nonneg = v.nonneg })

  pub record_entry_lem :
      (l : Ledger)
      → IsValid l.db
      → EntryPost env p l.db (record_entry env p l).0 (record_entry env p l).1.db
  unfolding record_entry
  record_entry_lem l v = unless_blocked_lem _ _ v
