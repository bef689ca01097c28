-- ===== src/Accounts/Ledger/Effects.antt =====
-- What a new entry that succeeds does to each balance, and what it took for it to succeed.
use sman_server.Base.{
  ◌≡◌, ◌≢◌, refl, sym, ◌∙◌, ap, subst, String, Bool, true, false, not, ◌&&◌, none, some,
  some-injective, [], ◌∷◌, ◌++◌, arith, ◌==◌, ==_iff, string_eq, ◌⊎◌, Option-cases, Bool-cases, inl,
  inr, if◌then◌else◌,
}
use sman_server.Base.Int.{ℤ, pos, neg, ◌+ℤ◌, ◌-ℤ◌, ◌≤ℤ◌, int_laws}
use sman_server.Accounts.Types.{Account, AccountStatus, TransactionDetail}
use sman_server.Accounts.Flags.{is_frozen, can_debit, can_credit}
use sman_server.Accounts.Store.Tables.{AccountDb, Env}
use sman_server.Accounts.Store.Rows.{get_account}
use sman_server.Accounts.Store.Txns.{get_txn_by_event_id}
use sman_server.Accounts.Ledger.Params.{EntryParams, TransferResult, executed, to_result, Ledger}
use sman_server.Accounts.Ledger.Pipeline.{balance_of}
use sman_server.Accounts.Ledger.Entry.{record_entry}
use sman_server.Accounts.Ledger.Movement.{IsValid, Extends}
use sman_server.Accounts.Ledger.Body.{Execution}
use sman_server.Accounts.Ledger.Posting.{posted}
use sman_server.Accounts.Ledger.Shares.{row_facts, credit_of-txn, debit_of-txn}
use sman_server.Accounts.Ledger.Soundness.{credit_of, debit_of}
use sman_server.Accounts.Ledger.Outcomes.{EntryPost, is_system_source, InRange, record_entry_lem}

-- The balance of an account; one that does not exist has nothing.
abbrev pub balance_at : String → AccountDb → ℤ
balance_at j s = balance_of (get_account j s)

abbrev pub debit_taken : Bool → String → TransactionDetail → ℤ
debit_taken is_system j t = if is_system then pos 0 else debit_of j t

module _ (env : Env) (p : EntryParams) where
  -- A transfer of the amount under the event `e`, from `s` to `s'`.
  pub record Transferred (e : String) (s : AccountDb) (t : TransactionDetail) (s' : AccountDb)
      : Type 0 where
    pub appended : s'.transaction_details ≡ s.transaction_details ++ t ∷ []
    pub event : t.event_id ≡ e
    pub amount : t.amount ≡ p.amount
    pub distinct : t.debit_account_id ≢ t.credit_account_id
    pub balances :
        (j : String)
        → balance_at j s' ≡ balance_at j s +ℤ credit_of j t -ℤ debit_taken (is_system_source p) j t
    -- The payer, unless it is the system, had an open account with enough on it.
    pub payer :
        is_system_source p ≡ false
        → (a : Account) × (get_account t.debit_account_id s ≡ some a)
          × (a.user_id ≡ p.from_user_id)
          × (a.status ≡ AccountStatus.active)
          × (is_frozen a.control_flags ≡ false)
          × (can_debit a.control_flags ≡ true)
          × (p.amount ≤ℤ a.balance)
    -- The payee's account, where it existed before, was active and open to credits.
    pub payee :
        (a : Account)
        → get_account t.credit_account_id s ≡ some a
        → (a.user_id ≡ p.to_user_id)
          × (a.status ≡ AccountStatus.active)
          × (is_frozen a.control_flags ≡ false)
          × (can_credit a.control_flags ≡ true)

  opened_balance :
      (s s' : AccountDb) → Extends s s' → (j : String) → balance_at j s' ≡ balance_at j s
  opened_balance s s' e j = elim (Option-cases (get_account j s)) [
    | inr (a, k) ↦ rw (e.kept j a k, k) refl
    | inl n ↦ elim (Option-cases (get_account j s')) [
      | inl n' ↦ rw (n, n') refl
      | inr (a, k) ↦ rw (n, k) (e.fresh j a k n)
    ]
  ]

  posted_balance :
      (m : ℤ) (a : Account) (c is_system d : Bool)
      → (posted env c m (posted env (not is_system && d) (neg m) a)).balance
        ≡ a.balance
          +ℤ (if c then m else pos 0)
          -ℤ (if is_system then pos 0 else if d then m else pos 0)
  posted_balance m a true true d = omega int_laws
  posted_balance m a true false true = omega int_laws
  posted_balance m a true false false = omega int_laws
  posted_balance m a false true d = omega int_laws
  posted_balance m a false false true = omega int_laws
  posted_balance m a false false false = omega int_laws

  covers : (b m : ℤ) → pos 0 ≤ℤ b +ℤ neg m → m ≤ℤ b
  covers b m h = omega int_laws

  elsewhere :
      (i j : String) (s : AccountDb) {a : Account}
      → get_account i s ≡ some a
      → get_account j s ≡ none
      → (j == i) ≡ false
  elsewhere i j s f n = elim (Bool-cases (j == i)) [
    | inr d ↦ d
    | inl d ↦ absurd (cc (f, n, (==_iff j i).0 d))
  ]

  module _ (e : String) (s s' : AccountDb) (t : TransactionDetail)
      (x : Execution env e p (is_system_source p) s t s') where
    abbrev is_system : Bool
    is_system = is_system_source p

    abbrev txn : TransactionDetail
    txn = x.posted.txn

    abbrev facts :
        (txn.credit_account_id ≡ x.to.id)
        × (txn.debit_account_id ≡ x.from.id)
        × (txn.amount ≡ p.amount)
        × (txn.event_id ≡ e)
    facts = row_facts env e p is_system x.from x.to x.opened s' t x.posted

    moved_balance :
        (j : String)
        → balance_at j s' ≡ balance_at j x.opened +ℤ credit_of j txn -ℤ debit_taken is_system j txn
    moved_balance j =
        rw
          (
            credit_of-txn env e p is_system x.from x.to x.opened s' t x.posted j,
            debit_of-txn env e p is_system x.from x.to x.opened s' t x.posted j,
            x.posted.at j,
          )
          (elim (Option-cases (get_account j x.opened)) [
            | inr (a, k) ↦
                rw k (posted_balance p.amount a (j == x.to.id) is_system (j == x.from.id))
            | inl n ↦
                rw
                  (
                    n,
                    elsewhere x.to.id j x.opened x.to_found n,
                    elsewhere x.from.id j x.opened x.from_found n,
                  )
                  (elim (Bool-cases is_system) [
                    | inl y ↦ rw y (omega int_laws)
                    | inr y ↦ rw y (omega int_laws)
                  ])
          ])

    same_txn : txn ≡ t
    same_txn = ground (arith, x.posted.outcome)

    -- The payer's account was there before, since a new one has nothing to pay with.
    payer_before : InRange p → is_system ≡ false → get_account x.from.id s ≡ some x.from
    payer_before r f = elim (Option-cases (get_account x.from.id s)) [
      | inr (a, k) ↦ cc (k, x.extends.kept x.from.id a k, x.from_found)
      | inl n ↦ absurd (
          unpaid x.from.balance (x.extends.fresh x.from.id x.from x.from_found n)
            (covers x.from.balance p.amount (x.posted.covered f x.from x.from_found).0))
    ]
      where
        unpaid : (b : ℤ) → b ≡ pos 0 → p.amount ≤ℤ b → ⊥
        unpaid b z c = let d : p.amount ≤ℤ pos 0 = (rw z at c) in ground (arith, r.0)

    pub Execution-Transferred : InRange p → Transferred e s t s'
    Execution-Transferred r =
        subst (λ u. Transferred e s u s') same_txn
          (record {
            appended = x.posted.txns ∙ ap (λ ts. ts ++ txn ∷ []) x.extends.same_txns;
            event = facts.3;
            amount = facts.2;
            distinct = λ d. x.gates.distinct (sym (facts.1) ∙ d ∙ facts.0);
            balances = λ j.
                moved_balance j
                ∙ ap (λ b. b +ℤ credit_of j txn -ℤ debit_taken is_system j txn)
                    (opened_balance s x.opened x.extends j);
            payer = λ f. (
              x.from,
              rw facts.1 (payer_before r f),
              x.from_owner,
              (x.posted.covered f x.from x.from_found).1,
              (x.gates.from_open f).0,
              (x.gates.from_open f).1,
              covers x.from.balance p.amount (x.posted.covered f x.from x.from_found).0,
            );
            payee = λ a g.
                let same : x.to ≡ a =
                  some-injective _ _
                    (sym x.to_found ∙ x.extends.kept x.to.id a (rw facts.0 at g)) in
                rw (← same) (
                  x.to_owner,
                  x.posted.payee_active x.to x.to_found,
                  x.gates.to_open.0,
                  x.gates.to_open.1,
                );
          })

  done_Transferred :
      (e : String) (s s' : AccountDb) (r : TransferResult)
      → p.event_id ≡ some e
      → get_txn_by_event_id e s ≡ none
      → r.success ≡ true
      → EntryPost env p s r s'
      → (t : TransactionDetail) × (r ≡ to_result (executed t)) × Transferred e s t s'
  unfolding to_result
  done_Transferred e s s' r i n f (EntryPost.refusal why q x v) = absurd (ground arith)
  done_Transferred e s s' r i n f (EntryPost.known d t j m q k y) = absurd (same_event d j k)
    where
      same_event :
          (d : String)
          → (p.event_id ≡ none) ⊎ (p.event_id ≡ some d)
          → get_txn_by_event_id d s ≡ some t
          → ⊥
      same_event d (inl j) k = absurd (cc)
      same_event d (inr j) k =
          absurd (
            cc
              (k, n, ap (λ (c : String). get_txn_by_event_id c s) (some-injective _ _ (sym i ∙ j))))
  done_Transferred e s s' r i n f (EntryPost.done d t j m q k x) = (
    t,
    q,
    subst (λ (c : String). Transferred c s t s') (same_event d j)
        (Execution-Transferred d s s' t x m),
  )
    where
      same_event : (d : String) → (p.event_id ≡ none) ⊎ (p.event_id ≡ some d) → d ≡ e
      same_event d (inl j) = absurd (cc)
      same_event d (inr j) = some-injective _ _ (sym j ∙ i)

  -- A new event that succeeds returns its transaction and moves the amount: the transaction is
  -- appended to the stored ones, it joins two different accounts, each account's balance grows by its
  -- credit and shrinks by its debit, where the system's source pays nothing, and every other balance
  -- is as before. The payer, unless it is the system, already had an active account of its own,
  -- neither frozen nor closed to debits, with at least the amount on it, whatever the account's type;
  -- and where the payee's account existed, it was its own, active, and neither frozen nor closed to
  -- credits.
  pub new_event-Transferred :
      (e : String) (l : Ledger)
      → IsValid l.db
      → p.event_id ≡ some e
      → get_txn_by_event_id e l.db ≡ none
      → (record_entry env p l).0.success ≡ true
      → (t : TransactionDetail) × ((record_entry env p l).0 ≡ to_result (executed t))
        × Transferred e l.db t (record_entry env p l).1.db
  new_event-Transferred e l v i n f = done_Transferred e _ _ _ i n f (record_entry_lem env p l v)
