-- ===== src/Accounts/Ledger/Failures.antt =====
-- What an entry tells the breaker.
use sman_server.Base.{
  ◌≡◌, refl, subst, ◌∙◌, ap, String, true, false, Option, none, some, [], ◌∷◌, ◌++◌, arith, ◌⊎◌,
  inl, inr, Bool-cases, ℕ, string_eq,
}
use sman_server.Base.Int.{pos, leb_ℤ, ltb_ℤ}
use sman_server.Accounts.Types.{TransactionDetail}
use sman_server.Accounts.Faults.{Fault, Result, ok, err}
use sman_server.Accounts.Rejects.{
  RejectResult, reject, thrown, IsCheck, AllChecks, reject_plain-IsCheck, reject_for-IsCheck,
}
use sman_server.Accounts.Breaker.{CircuitBreaker, can_execute, record_success, record_failure}
use sman_server.Accounts.Store.Tables.{AccountDb, Env}
use sman_server.Accounts.Store.Monad.{Ensures}
use sman_server.Accounts.Store.Txns.{get_txn_by_event_id}
use sman_server.Accounts.Ledger.Params.{
  EntryParams, TransferResult, Outcome, duplicate, executed, refused, to_result, Ledger, max_amount,
}
use sman_server.Accounts.Ledger.Entry.{
  finish, execute_in_transaction, event_id_of, validate_and_execute, unless_blocked, record_entry,
}
use sman_server.Accounts.Ledger.Movement.{IsValid}
use sman_server.Accounts.Ledger.Body.{Execution, BodyPost, transaction_body_lem}
use sman_server.Accounts.Ledger.Outcomes.{is_system_source}

-- What a result, and what is stored, say of the breaker, from `b` to the ledger's.
pub data Tells (env : Env) (b : CircuitBreaker) (s : AccountDb) (r : TransferResult) (l : Ledger)
    : Type 0 where
  paid :
      (t : TransactionDetail)
      → (r.success ≡ true) × (r.transaction ≡ some t)
      → l.db.transaction_details ≡ s.transaction_details ++ t ∷ []
      → l.circuit_breaker ≡ record_success b
      → Tells env b s r l
  broken :
      (f : Fault) (why : RejectResult)
      → (r.success ≡ false) × (r.reject ≡ some why)
      → (why.code ≡ "E001") × (why.reason ≡ thrown f)
      → (l.db.accounts ≡ s.accounts) × (l.db.transaction_details ≡ s.transaction_details)
      → l.circuit_breaker ≡ record_failure env.now_ms b
      → Tells env b s r l
  known :
      (e : String) (t : TransactionDetail)
      → (r.success ≡ true) × (r.transaction ≡ some t)
      → get_txn_by_event_id e s ≡ some t
      → (l.db.accounts ≡ s.accounts) × (l.db.transaction_details ≡ s.transaction_details)
      → l.circuit_breaker ≡ b
      → Tells env b s r l
  checked :
      (why : RejectResult)
      → (r.success ≡ false) × (r.reject ≡ some why)
      → IsCheck why
      → l.db.transaction_details ≡ s.transaction_details
      → l.circuit_breaker ≡ b
      → Tells env b s r l

module _ (env : Env) (p : EntryParams) where
  appended :
      (e : String) (s s' : AccountDb) (t : TransactionDetail)
      → Execution env e p (is_system_source p) s t s'
      → s'.transaction_details ≡ s.transaction_details ++ t ∷ []
  appended e s s' t x =
      let same : x.posted.txn ≡ t = ground (arith, x.posted.outcome) in
      subst (λ u. s'.transaction_details ≡ s.transaction_details ++ u ∷ []) same
        (x.posted.txns ∙ ap (λ ts. ts ++ x.posted.txn ∷ []) x.extends.same_txns)

  finish-Tells :
      (e : String) (l : Ledger) (r : Result (Outcome × AccountDb))
      → Ensures (BodyPost env e p (is_system_source p) l.db) r
      → Tells env l.circuit_breaker l.db (finish env e l r).0 (finish env e l r).1
  unfolding finish to_result reject
  finish-Tells e l (ok (duplicate t, db)) h =
      Tells.known e t (refl, refl) h.0 (h.1.accounts, h.1.txns) refl
  finish-Tells e l (ok (executed t, db)) h =
      Tells.paid t (refl, refl) (appended e l.db db t h.1) refl
  finish-Tells e l (ok (refused why, db)) h = Tells.checked why (refl, refl) h.0 h.2.same_txns refl
  finish-Tells e l (err f) h = Tells.broken f _ (refl, refl) (refl, refl) (refl, refl) refl

  executed-Tells :
      (e : String) (l : Ledger)
      → IsValid l.db
      → let out = execute_in_transaction env e p (is_system_source p) l in
        Tells env l.circuit_breaker l.db out.0 out.1
  unfolding execute_in_transaction
  executed-Tells e l v =
      finish-Tells e l _ (transaction_body_lem env e p (is_system_source p) l.db v)

  -- A drawn id counts for nothing.
  undraw :
      (b : CircuitBreaker) (s : AccountDb) (d : ℕ) (r : TransferResult) (l : Ledger)
      → Tells env b (record s { draws = d }) r l
      → Tells env b s r l
  unfolding get_txn_by_event_id
  undraw b s d r l (Tells.paid t q x y) = Tells.paid t q x y
  undraw b s d r l (Tells.broken f why q x y z) = Tells.broken f why q x y z
  undraw b s d r l (Tells.known e t q x y z) = Tells.known e t q x y z
  undraw b s d r l (Tells.checked why q x y z) = Tells.checked why q x y z

  drawn-Tells :
      (o : Option String) (l : Ledger)
      → IsValid l.db
      → let (e, l1) = event_id_of env o l in
        let out = execute_in_transaction env e p (is_system_source p) l1 in
        Tells env l.circuit_breaker l.db out.0 out.1
  unfolding event_id_of
  drawn-Tells (some e) l v = executed-Tells e l v
  drawn-Tells none l v =
      undraw l.circuit_breaker l.db _ _ _
        (executed-Tells _ _ (record { unique = v.unique; nonneg = v.nonneg }))

  validate_and_execute-Tells :
      (l : Ledger)
      → IsValid l.db
      → let out = validate_and_execute env p l in Tells env l.circuit_breaker l.db out.0 out.1
  unfolding validate_and_execute to_result
  validate_and_execute-Tells l v = elim (Bool-cases (leb_ℤ p.amount (pos 0))) [
    | inl o ↦ rw o (Tells.checked _ (refl, refl) (reject_for-IsCheck _ _ (λ f e. cc (e))) refl refl)
    | inr low ↦ elim (Bool-cases (ltb_ℤ max_amount p.amount)) [
      | inl o ↦
          rw (low, o)
            (Tells.checked _ (refl, refl) (reject_for-IsCheck _ _ (λ f e. cc (e))) refl refl)
      | inr high ↦ rw (low, high) (drawn-Tells p.event_id l v)
    ]
  ]

  unless_blocked-Tells :
      (o : Option RejectResult) (l : Ledger)
      → AllChecks o
      → IsValid l.db
      → let out = unless_blocked env p o l in Tells env l.circuit_breaker l.db out.0 out.1
  unfolding unless_blocked to_result
  unless_blocked-Tells none l c v = validate_and_execute-Tells l v
  unless_blocked-Tells (some r) l c v = Tells.checked r (refl, refl) c refl refl

  can_execute-AllChecks : (now : ℕ) (b : CircuitBreaker) → AllChecks (can_execute now b).0
  can_execute-AllChecks now b = refusals (can_execute now b).0 (refuses now b)
    where
      refuses :
          (now : ℕ) (b : CircuitBreaker)
          → ((can_execute now b).0 ≡ none) ⊎ ((can_execute now b).0 ≡ some (reject "E002" none))
      refuses now b = unfold can_execute in ground arith

      refusals :
          (o : Option RejectResult) → (o ≡ none) ⊎ (o ≡ some (reject "E002" none)) → AllChecks o
      refusals o (inl e) = rw e tt
      refusals o (inr e) = rw e (reject_plain-IsCheck "E002")

  pub record_entry-Tells :
      (l : Ledger)
      → IsValid l.db
      → Tells env
          (can_execute env.now_ms l.circuit_breaker).1
          l.db
          (record_entry env p l).0
          (record_entry env p l).1
  unfolding record_entry
  record_entry-Tells l v =
      unless_blocked-Tells _ _ (can_execute-AllChecks env.now_ms l.circuit_breaker) v
