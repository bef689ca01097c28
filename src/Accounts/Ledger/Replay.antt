-- ===== src/Accounts/Ledger/Replay.antt =====
-- An event is executed once: a second call for it returns what the first one stored.
use sman_server.Base.{
  ℕ, ◌≡◌, ◌≢◌, refl, sym, subst, ◌∙◌, String, Bool, true, false, Option, none, some, some-injective,
  List, [], ◌∷◌, ◌++◌, arith, ==_iff, string_eq, ◌⊎◌, Bool-cases, inl, inr, find_where,
  find_where-append,
}
use sman_server.Base.Int.{pos, leb_ℤ, ltb_ℤ}
use sman_server.Accounts.Types.{TransactionDetail, TxnPhase, TxnAction}
use sman_server.Accounts.Faults.{Result, ok, err}
use sman_server.Accounts.Rejects.{RejectResult}
use sman_server.Accounts.Breaker.{CircuitBreaker, open_circuit, can_execute, record_success}
use sman_server.Accounts.Store.Tables.{AccountDb, Env, LogDetail}
use sman_server.Accounts.Store.Txns.{get_txn_by_event_id, of_event, add_log}
use sman_server.Accounts.Ledger.Params.{
  EntryParams, TransferResult, Outcome, duplicate, executed, refused, to_result, Ledger, max_amount,
}
use sman_server.Accounts.Ledger.Pipeline.{transaction_body}
use sman_server.Accounts.Ledger.Entry.{
  finish, execute_in_transaction, event_id_of, validate_and_execute, unless_blocked, record_entry,
}
use sman_server.Accounts.Ledger.Movement.{IsValid}
use sman_server.Accounts.Ledger.Outcomes.{EntryPost, InRange, record_entry_lem}
use sman_server.Accounts.Ledger.Failures.{Tells, record_entry-Tells}
use sman_server.Accounts.Ledger.Stages.{SameMoney}
use sman_server.Accounts.Ledger.Effects.{Execution-Transferred}

module _ (env : Env) (p : EntryParams) where
  known_event-transaction_body :
      (e : String) (t : TransactionDetail) (is_system : Bool) (s : AccountDb)
      → get_txn_by_event_id e s ≡ some t
      → transaction_body env e p is_system s
        ≡ ok (
          duplicate t,
          add_log env e TxnPhase.pre_check TxnAction.check_failed
              (some LogDetail.duplicate_event)
              s,
        )
  unfolding transaction_body
  known_event-transaction_body e t is_system s k = rw (k, transaction_body) refl

  known_event-finish :
      (e : String) (t : TransactionDetail) (l : Ledger) (r : Result (Outcome × AccountDb))
      → r
        ≡ ok (
          duplicate t,
          add_log env e TxnPhase.pre_check TxnAction.check_failed
              (some LogDetail.duplicate_event)
              l.db,
        )
      → ((finish env e l r).0 ≡ to_result (duplicate t)) × SameMoney l.db (finish env e l r).1.db
  unfolding finish
  known_event-finish e t l r h = rw h (refl, record { accounts = refl; txns = refl })

  known_event-execute :
      (e : String) (t : TransactionDetail) (is_system : Bool) (l : Ledger)
      → get_txn_by_event_id e l.db ≡ some t
      → ((execute_in_transaction env e p is_system l).0 ≡ to_result (duplicate t))
        × SameMoney l.db (execute_in_transaction env e p is_system l).1.db
  unfolding execute_in_transaction
  known_event-execute e t is_system l k =
      known_event-finish e t l _ (known_event-transaction_body e t is_system l.db k)

  known_event-event_id_of :
      (e : String) (o : Option String) (t : TransactionDetail) (is_system : Bool) (l : Ledger)
      → o ≡ some e
      → get_txn_by_event_id e l.db ≡ some t
      → let c = event_id_of env o l in
        ((execute_in_transaction env c.0 p is_system c.1).0 ≡ to_result (duplicate t))
        × SameMoney l.db (execute_in_transaction env c.0 p is_system c.1).1.db
  unfolding event_id_of
  known_event-event_id_of e none t is_system l i k = absurd (cc)
  known_event-event_id_of e (some d) t is_system l i k =
      known_event-execute d t is_system l (rw (some-injective _ _ i) k)

  -- A known event with a valid amount, when the breaker lets the call through, returns the stored
  -- transaction as a success, and changes no account and no transaction, whatever the other
  -- parameters of the call are.
  pub known_event-record_entry :
      (e : String) (t : TransactionDetail) (l : Ledger)
      → p.event_id ≡ some e
      → get_txn_by_event_id e l.db ≡ some t
      → InRange p
      → (can_execute env.now_ms l.circuit_breaker).0 ≡ none
      → ((record_entry env p l).0 ≡ to_result (duplicate t))
        × SameMoney l.db (record_entry env p l).1.db
  unfolding record_entry unless_blocked validate_and_execute
  known_event-record_entry e t l i k r b =
      let low : leb_ℤ p.amount (pos 0) ≡ false = ground (arith, r.0) in
      let high : ltb_ℤ max_amount p.amount ≡ false = ground (arith, r.1) in
      rw (b, low, high) (known_event-event_id_of e p.event_id t _ _ i k)

-- A breaker that is not open lets a call through, and a success leaves it so.
abbrev IsPassing : CircuitBreaker → Type 0
IsPassing b = b.state ≢ open_circuit

module _ (env : Env) (p : EntryParams) where
  finish-IsPassing :
      (e : String) (l : Ledger) (b : Result (Outcome × AccountDb))
      → IsPassing l.circuit_breaker
      → (finish env e l b).0.success ≡ true
      → IsPassing (finish env e l b).1.circuit_breaker
  unfolding finish to_result record_success
  finish-IsPassing e l (ok (duplicate t, db)) c f = c
  finish-IsPassing e l (ok (executed t, db)) c f = ground arith
  finish-IsPassing e l (ok (refused r, db)) c f = absurd (cc)
  finish-IsPassing e l (err x) c f = absurd (cc)

  event_id_of-breaker :
      (o : Option String) (l : Ledger) → (event_id_of env o l).1.circuit_breaker ≡ l.circuit_breaker
  unfolding event_id_of
  event_id_of-breaker none l = refl
  event_id_of-breaker (some e) l = refl

  validate-IsPassing :
      (l : Ledger)
      → IsPassing l.circuit_breaker
      → (validate_and_execute env p l).0.success ≡ true
      → IsPassing (validate_and_execute env p l).1.circuit_breaker
  unfolding validate_and_execute execute_in_transaction to_result
  validate-IsPassing l c f = elim (Bool-cases (leb_ℤ p.amount (pos 0))) [
    | inl o ↦ absurd (cc (rw o at f))
    | inr low ↦ elim (Bool-cases (ltb_ℤ max_amount p.amount)) [
      | inl o ↦ absurd (cc (rw (low, o) at f))
      | inr high ↦
          rw (low, high)
            (finish-IsPassing _ _ _ (rw (event_id_of-breaker p.event_id l) c) (rw (low, high) at f))
    ]
  ]

  unless_blocked-IsPassing :
      (o : Option RejectResult) (l : Ledger)
      → (o ≡ none → IsPassing l.circuit_breaker)
      → (unless_blocked env p o l).0.success ≡ true
      → IsPassing (unless_blocked env p o l).1.circuit_breaker
  unfolding unless_blocked to_result
  unless_blocked-IsPassing none l c f = validate-IsPassing l (c refl) f
  unless_blocked-IsPassing (some r) l c f = absurd (cc)

  success-IsPassing :
      (l : Ledger)
      → (record_entry env p l).0.success ≡ true
      → IsPassing (record_entry env p l).1.circuit_breaker
  unfolding record_entry
  success-IsPassing l f = unless_blocked-IsPassing _ _ (passed l.circuit_breaker) f
    where
      passed :
          (b : CircuitBreaker)
          → (can_execute env.now_ms b).0 ≡ none
          → IsPassing (can_execute env.now_ms b).1
      passed b = unfold can_execute in ground arith

  closed-can_execute : (now : ℕ) (b : CircuitBreaker) → IsPassing b → (can_execute now b).0 ≡ none
  unfolding can_execute
  closed-can_execute now b c = ground arith

-- Entries, one after the other.
abbrev pub entries : List (Env × EntryParams) → Ledger → Ledger
entries [] l = l
entries ((env, p) ∷ rest) l = entries rest (record_entry env p l).1

module _ (env : Env) (p : EntryParams) where
  record_entry-IsValid : (l : Ledger) → IsValid l.db → IsValid (record_entry env p l).1.db
  record_entry-IsValid l v = valid _ _ _ v (record_entry_lem env p l v)
    where
      valid :
          (s s' : AccountDb) (r : TransferResult) → IsValid s → EntryPost env p s r s' → IsValid s'
      valid s s' r v (EntryPost.refusal why q x w) = w
      valid s s' r v (EntryPost.known d t j m q k y) = record {
        unique = rw y.accounts v.unique;
        nonneg = rw y.accounts v.nonneg;
      }
      valid s s' r v (EntryPost.done d t j m q n x) = x.posted.valid

  -- No entry takes a stored transaction away.
  record_entry-keeps :
      (e : String) (t : TransactionDetail) (l : Ledger)
      → IsValid l.db
      → get_txn_by_event_id e l.db ≡ some t
      → get_txn_by_event_id e (record_entry env p l).1.db ≡ some t
  unfolding get_txn_by_event_id
  record_entry-keeps e t l v k = keeps _ _ _ k (record_entry-Tells env p l v)
    where
      keeps :
          (b : CircuitBreaker) (r : TransferResult) (l' : Ledger)
          → get_txn_by_event_id e l.db ≡ some t
          → Tells env b l.db r l'
          → get_txn_by_event_id e l'.db ≡ some t
      keeps b r l' k (Tells.paid u q x y) =
          rw x (find_where-append (of_event e) l.db.transaction_details (u ∷ []) ∙ rw k refl)
      keeps b r l' k (Tells.broken f why q x y z) = rw y.1 k
      keeps b r l' k (Tells.known d u q x y z) = rw y.1 k
      keeps b r l' k (Tells.checked why q x y z) = rw y k

entries-keep :
    (between : List (Env × EntryParams)) (e : String) (t : TransactionDetail) (l : Ledger)
    → IsValid l.db
    → get_txn_by_event_id e l.db ≡ some t
    → get_txn_by_event_id e (entries between l).db ≡ some t
entries-keep [] e t l v k = k
entries-keep ((env, p) ∷ rest) e t l v k =
    entries-keep rest e t (record_entry env p l).1 (record_entry-IsValid env p l v)
      (record_entry-keeps env p e t l v k)

module _ (env : Env) (p : EntryParams) (e : String) (given : p.event_id ≡ some e) where
  same_event : (d : String) → (p.event_id ≡ none) ⊎ (p.event_id ≡ some d) → d ≡ e
  same_event d (inl j) = absurd (cc)
  same_event d (inr j) = some-injective _ _ (sym j ∙ given)

  appended-get_txn :
      (ts : List TransactionDetail) (t : TransactionDetail)
      → find_where (of_event e) ts ≡ none
      → t.event_id ≡ e
      → find_where (of_event e) (ts ++ t ∷ []) ≡ some t
  unfolding find_where
  appended-get_txn ts t n h =
      find_where-append (of_event e) ts (t ∷ []) ∙ rw n (ground (arith, (==_iff t.event_id e).1 h))

  stored :
      (s s' : AccountDb) (r : TransferResult)
      → r.success ≡ true
      → EntryPost env p s r s'
      → (t : TransactionDetail) × (r ≡ to_result (duplicate t))
        × (get_txn_by_event_id e s' ≡ some t)
        × InRange p
  unfolding to_result get_txn_by_event_id
  stored s s' r f (EntryPost.refusal why q x v) = absurd (ground arith)
  stored s s' r f (EntryPost.known d t j m q k y) = (t, q, rw y.txns (rw (same_event d j) at k), m)
  stored s s' r f (EntryPost.done d t j m q n x) =
      let moved = Execution-Transferred env p d s s' t x m in
      let d_e = same_event d j in
      (
        t,
        q,
        rw moved.appended
            (appended-get_txn s.transaction_details t (rw d_e at n) (moved.event ∙ d_e)),
        m,
      )

  -- The breaker lets the repeat through: at once after the entry it does anyway.
  lets_through :
      (later : Env) (between : List (Env × EntryParams)) (l : Ledger)
      → (record_entry env p l).0.success ≡ true
      → (between ≡ [])
        ⊎ ((can_execute later.now_ms (entries between (record_entry env p l).1).circuit_breaker).0
            ≡ none)
      → (can_execute later.now_ms (entries between (record_entry env p l).1).circuit_breaker).0
        ≡ none
  lets_through later between l f (inr b) = b
  lets_through later between l f (inl n) =
      subst
        (λ (rest : List (Env × EntryParams)).
          (can_execute later.now_ms (entries rest (record_entry env p l).1).circuit_breaker).0
          ≡ none)
        (sym n) (closed-can_execute env p later.now_ms _ (success-IsPassing env p l f))

  -- An entry under a given event that has succeeded, made again later, after any other entries, whether
  -- they succeed or not, returns the same result as before, and changes no account and no
  -- transaction: at once in any case, and after other entries when the breaker lets it through.
  pub repeat-record_entry :
      (later : Env) (between : List (Env × EntryParams)) (l : Ledger)
      → IsValid l.db
      → (record_entry env p l).0.success ≡ true
      → (between ≡ [])
        ⊎ ((can_execute later.now_ms (entries between (record_entry env p l).1).circuit_breaker).0
            ≡ none)
      → let (r, l1) = record_entry env p l in
        let l2 = entries between l1 in
        ((record_entry later p l2).0 ≡ r) × SameMoney l2.db (record_entry later p l2).1.db
  unfolding to_result
  repeat-record_entry later between l v f b =
      let (t, q, k, m) = stored _ _ _ f (record_entry_lem env p l v) in
      let l1 = (record_entry env p l).1 in
      let kept = entries-keep between e t l1 (record_entry-IsValid env p l v) k in
      let again =
        known_event-record_entry later p e t (entries between l1) given kept m
          (lets_through later between l f b) in
      (again.0 ∙ sym q, again.1)
