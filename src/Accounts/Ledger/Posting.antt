-- ===== src/Accounts/Ledger/Posting.antt =====
-- The double entry: what the last stage of the body does, where it does not throw.
use sman_server.Base.{
  ◌≡◌, refl, sym, ◌∙◌, ap, String, Bool, true, false, not, ◌&&◌, Option, none, some, [], ◌∷◌, ◌++◌,
  arith, ◌==◌, string_eq, map_option, Bool-cases, inl, inr, if◌then◌else◌, exists_where,
}
use sman_server.Base.Int.{ℤ, pos, neg, ◌+ℤ◌, ◌≤ℤ◌, ltb_ℤ, leb_ℤ}
use sman_server.Accounts.Types.{Account, AccountStatus, TransactionDetail, TxnPhase, TxnAction}
use sman_server.Accounts.Faults.{would_go_negative}
use sman_server.Accounts.Store.Tables.{AccountDb, Env}
use sman_server.Accounts.Store.Monad.{M, pure, throw_if, Ensures, Ensures-bind}
use sman_server.Accounts.Store.Rows.{gen_id, add_balance, get_account, update_balance}
use sman_server.Accounts.Store.Txns.{
  TxnParams, new_txn, add_log, create_txn_detail, insert_txn, of_event,
}
use sman_server.Accounts.Ledger.Params.{EntryParams, Outcome, executed}
use sman_server.Accounts.Ledger.Pipeline.{refuse_negative, debit_account, execute_entry, txn_params}
use sman_server.Accounts.Ledger.Movement.{IsValid, Moved, update_balance_lem}

abbrev pub posted : Env → Bool → ℤ → Account → Account
posted env b delta a = if b then add_balance env delta a else a

module _ (P : Unit {0} → AccountDb → Type 0) (s : AccountDb) (h : P tt s) where
  throw_if-Ensures : (b : Bool) → Ensures P (throw_if b would_go_negative s)
  throw_if-Ensures true = tt
  throw_if-Ensures false = h

  refuse_negative-Ensures : (o : Option Account) → Ensures P (refuse_negative o s)
  refuse_negative-Ensures none = h
  refuse_negative-Ensures (some a) = throw_if-Ensures (ltb_ℤ a.balance (pos 0))

module _ (env : Env) (event_id : String) (p : EntryParams) (from : Account) (s : AccountDb) where
  -- The debit, which an entry from the system does not make.
  pub record Debited (is_system : Bool) (u : Unit {0}) (s' : AccountDb) : Type 0 where
    pub valid : IsValid s'
    pub at :
        (j : String)
        → get_account j s'
          ≡ map_option (posted env (not is_system && j == from.id) (neg p.amount)) (get_account j s)
    pub same_txns : s'.transaction_details ≡ s.transaction_details
    pub covered :
        is_system ≡ false
        → (a : Account) → get_account from.id s ≡ some a
        → (pos 0 ≤ℤ a.balance +ℤ neg p.amount) × (a.status ≡ AccountStatus.active)

  map_option_same : (o : Option Account) → o ≡ map_option (λ a. a) o
  map_option_same none = refl
  map_option_same (some a) = refl

  debited :
      (u : Unit {0}) (s' : AccountDb) → Moved env from.id (neg p.amount) s u s' → Debited false u s'
  debited u s' m = record {
    valid = m.valid;
    at = λ j. ground (arith, m.at j, map_option_same (get_account j s));
    same_txns = m.same_txns;
    covered = λ _. m.covered;
  }

  abbrev pub debit_step : Bool → M (Unit {0})
  debit_step is_system =
      if is_system then pure tt else debit_account env event_id p is_system from.id

  pub debit_step_lem :
      IsValid s → (is_system : Bool) → Ensures (Debited is_system) (debit_step is_system s)
  unfolding debit_account
  debit_step_lem v true = record {
    valid = v;
    at = λ j. map_option_same (get_account j s);
    same_txns = refl;
    covered = λ e. cc;
  }
  debit_step_lem v false =
      Ensures-bind (Moved env from.id (neg p.amount) s) (Debited false)
        (λ _ s'. refuse_negative (get_account from.id s') s') _
        (λ u s' m.
          refuse_negative-Ensures (Debited false) s' (debited u s' m) (get_account from.id s'))
        (update_balance_lem env from.id (neg p.amount) s v)

module _ (env : Env) (q : TxnParams) (s : AccountDb) where
  -- The row that createTxnDetail adds, where it does not throw.
  pub record Recorded (t : TransactionDetail) (s' : AccountDb) : Type 0 where
    pub row : t ≡ new_txn env t.id q
    pub txns : s'.transaction_details ≡ s.transaction_details ++ t ∷ []
    pub accounts : s'.accounts ≡ s.accounts
    pub positive : pos 1 ≤ℤ q.amount
    pub new_event : exists_where (of_event q.event_id) s.transaction_details ≡ false

  pub create_txn_detail_lem : Ensures Recorded (create_txn_detail env q s)
  unfolding create_txn_detail insert_txn
  create_txn_detail_lem =
      let id = gen_id env "txn" s in
      elim (Bool-cases (leb_ℤ q.amount (pos 0))) [
        | inl o ↦ rw (o, Ensures) tt
        | inr positive ↦
            elim (Bool-cases
              (exists_where (λ (u : TransactionDetail). u.id == id) s.transaction_details)) [
                | inl o ↦ rw (positive, o, Ensures) tt
                | inr unused ↦
                    elim (Bool-cases (exists_where (of_event q.event_id) s.transaction_details)) [
                      | inl o ↦ rw (positive, unused, o, Ensures) tt
                      | inr new_event ↦
                          rw (positive, unused, new_event, Ensures)
                            (record {
                              row = refl;
                              txns = refl;
                              accounts = refl;
                              positive = ground arith;
                              new_event = new_event;
                            })
                    ]
              ]
      ]

module _ (env : Env) (event_id : String) (p : EntryParams) (is_system : Bool) (from to : Account)
    (s : AccountDb) where
  -- What the entry leaves: one more transaction, and the amount taken from the one account and given
  -- to the other.
  pub record Posted (o : Outcome) (s' : AccountDb) : Type 0 where
    pub txn : TransactionDetail
    pub outcome : o ≡ executed txn
    pub row : txn ≡ new_txn env txn.id (txn_params env event_id p is_system from to)
    pub txns : s'.transaction_details ≡ s.transaction_details ++ txn ∷ []
    pub valid : IsValid s'
    pub new_event : exists_where (of_event event_id) s.transaction_details ≡ false
    pub at :
        (j : String)
        → get_account j s'
          ≡ map_option
              (λ a.
                posted env
                  (j == to.id)
                  p.amount
                  (posted env (not is_system && j == from.id) (neg p.amount) a))
              (get_account j s)
    pub covered :
        is_system ≡ false
        → (a : Account) → get_account from.id s ≡ some a
        → (pos 0 ≤ℤ a.balance +ℤ neg p.amount) × (a.status ≡ AccountStatus.active)
    pub payee_active :
        (a : Account) → get_account to.id s ≡ some a → a.status ≡ AccountStatus.active

  posted_status : (b : Bool) (delta : ℤ) (a : Account) → (posted env b delta a).status ≡ a.status
  posted_status true delta a = refl
  posted_status false delta a = refl

  posted_of :
      (s1 s2 s3 : AccountDb) (t : TransactionDetail) (u v : Unit {0})
      → Debited env event_id p from s is_system u s1
      → Moved env to.id p.amount s1 v s2
      → Recorded env (txn_params env event_id p is_system from to) s2 t s3
      → Posted (executed t) (add_log env event_id TxnPhase.execute TxnAction.success none s3)
  unfolding get_account
  posted_of s1 s2 s3 t u v d m r = record {
    txn = t;
    outcome = refl;
    row = r.row;
    txns = r.txns ∙ ap (λ ts. ts ++ t ∷ []) (m.same_txns ∙ d.same_txns);
    valid = record { unique = rw r.accounts m.valid.unique; nonneg = rw r.accounts m.valid.nonneg };
    new_event = rw (m.same_txns ∙ d.same_txns) at r.new_event;
    at = λ j. rw r.accounts (ground (arith, m.at j, d.at j));
    covered = d.covered;
    payee_active = λ a k.
        let debit = not is_system && to.id == from.id in
        let now : get_account to.id s1 ≡ some (posted env debit (neg p.amount) a) =
          d.at to.id ∙ rw k refl in
        sym (posted_status debit (neg p.amount) a)
        ∙ (m.covered (posted env debit (neg p.amount) a) now).1;
  }

  pub execute_entry_lem :
      IsValid s → Ensures Posted (execute_entry env event_id p is_system from to s)
  unfolding execute_entry
  execute_entry_lem v =
      Ensures-bind (Debited env event_id p from s is_system) Posted _
        (debit_step env event_id p from s is_system s)
        (λ u s1 d.
          Ensures-bind (Moved env to.id p.amount s1) Posted _ (update_balance env to.id p.amount s1)
            (λ w s2 m.
              Ensures-bind (Recorded env (txn_params env event_id p is_system from to) s2) Posted _
                _ (λ t s3 r. posted_of s1 s2 s3 t u w d m r)
                (create_txn_detail_lem env (txn_params env event_id p is_system from to) s2))
            (update_balance_lem env to.id p.amount s1 d.valid))
        (debit_step_lem env event_id p from s v is_system)
