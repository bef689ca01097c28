-- ===== src/Accounts/Routes/Escrow.antt =====
-- What the confirmation of an escrow moves, in routes/accounts.ts over ledger-engine.ts.
use sman_server.Base.{
  ◌≡◌, ◌≢◌, refl, sym, ◌∙◌, subst, String, true, false, some, arith, ==_iff, string_eq, ◌==◌,
  Bool-cases, inl, inr,
}
use sman_server.Base.Int.{ℤ, pos, ◌-ℤ◌, ltb_ℤ, int_laws}
use sman_server.Accounts.Types.{Account, AccountType, escrow, TransactionDetail}
use sman_server.Accounts.Store.Tables.{AccountDb, Env}
use sman_server.Accounts.Store.Rows.{get_account}
use sman_server.Accounts.Ledger.Params.{EntryParams, TransferResult, Ledger, system_user}
use sman_server.Accounts.Ledger.Entry.{record_entry}
use sman_server.Accounts.Ledger.Movement.{IsValid}
use sman_server.Accounts.Ledger.Effects.{balance_at}
use sman_server.Accounts.Ledger.Outcomes.{is_system_source}
use sman_server.Accounts.Ledger.Moves.{IsNewTxn, Moved, record_entry-Moved}
use sman_server.Accounts.Routes.{confirm, release_params, fee_params}

not_system : (user : String) → user ≢ system_user → (user == system_user) ≡ false
not_system user n = elim (Bool-cases (user == system_user)) [
  | inl y ↦ absurd (n ((==_iff user system_user).0 y))
  | inr z ↦ z
]

-- What an entry of the amount `m` does to the account that it debits, and to one that it leaves.
module _ (env : Env) (p : EntryParams) (s : AccountDb) (t : TransactionDetail) (s' : AccountDb)
    (x : Moved env p s t s') (user : is_system_source p ≡ false) where
  payer_balance : balance_at t.debit_account_id s' ≡ balance_at t.debit_account_id s -ℤ p.amount
  payer_balance =
      let apart : (t.credit_account_id == t.debit_account_id) ≡ false =
        ground (arith, ==_iff t.credit_account_id t.debit_account_id, x.transferred.distinct) in
      x.transferred.balances t.debit_account_id
      ∙ rw
          (apart, (==_iff t.debit_account_id t.debit_account_id).1 refl, user, x.transferred.amount)
          (omega int_laws)

  other_balance :
      (j : String)
      → (t.credit_account_id == j) ≡ false
      → (t.debit_account_id == j) ≡ false
      → balance_at j s' ≡ balance_at j s
  other_balance j c d = x.transferred.balances j ∙ rw (c, d, user) (omega int_laws)

  -- An account of neither type is neither of the entry's two.
  outside :
      (j : String) (a : Account)
      → get_account j s ≡ some a
      → ((get_account t.debit_account_id s ≡ some a) → ⊥)
      → ((get_account t.credit_account_id s ≡ some a) → ⊥)
      → balance_at j s' ≡ balance_at j s
  outside j a k nd nc =
      other_balance j (differs t.credit_account_id nc) (differs t.debit_account_id nd)
    where
      differs : (i : String) → ((get_account i s ≡ some a) → ⊥) → (i == j) ≡ false
      differs i n = elim (Bool-cases (i == j)) [
        | inl y ↦ absurd (n (subst (λ h. get_account h s ≡ some a) (sym ((==_iff i j).0 y)) k))
        | inr z ↦ z
      ]

module _ (env : Env) (fee_of : ℤ → ℤ) (payer payee : String) (a : ℤ) (l : Ledger) where
  -- The two calls of recordEntry that `confirm` makes.
  abbrev pub release : TransferResult × Ledger
  release = record_entry env (release_params payer payee (a -ℤ fee_of a)) l

  abbrev pub fee_entry : TransferResult × Ledger
  fee_entry = record_entry env (fee_params payee (fee_of a)) release.1

  pub record Confirmed (end : Ledger) : Type 0 where
    pub paid : TransactionDetail
    pub fee : TransactionDetail
    pub amounts : (paid.amount ≡ a -ℤ fee_of a) × (fee.amount ≡ fee_of a)
    -- The payer's escrow account pays what is released, and nothing more.
    pub from_escrow :
        (x : Account) × (get_account paid.debit_account_id l.db ≡ some x)
        × (x.user_id ≡ payer)
        × (x.type ≡ escrow)
        × (balance_at paid.debit_account_id end.db
            ≡ balance_at paid.debit_account_id l.db -ℤ (a -ℤ fee_of a))
    -- The fee comes from the payee's revenue account.
    pub from_payee :
        (x : Account) × (get_account fee.debit_account_id release.1.db ≡ some x)
        × (x.user_id ≡ payee)
        × (x.type ≡ AccountType.revenue)
        × (balance_at fee.debit_account_id end.db
            ≡ balance_at fee.debit_account_id release.1.db -ℤ fee_of a)

  -- Confirming an escrow of `a`, where the fee is positive, neither name is the system's, and both
  -- entries succeed with transactions that are new: the payer's escrow account is debited by `a` less
  -- the fee and by nothing else, so the fee stays in it, and the fee is debited from the payee's
  -- revenue account. The reply is the result of the release.
  pub confirm-Confirmed :
      IsValid l.db
      → payer ≢ system_user
      → payee ≢ system_user
      → ltb_ℤ (pos 0) (fee_of a) ≡ true
      → release.0.success ≡ true
      → IsNewTxn release.0 l.db
      → fee_entry.0.success ≡ true
      → IsNewTxn fee_entry.0 release.1.db
      → ((confirm env fee_of payer payee a l).0 ≡ release.0)
        × Confirmed (confirm env fee_of payer payee a l).1
  unfolding confirm
  confirm-Confirmed v np nq positive done new fee_done fee_new =
      let (t, rt, x) =
        record_entry-Moved env (release_params payer payee (a -ℤ fee_of a)) l v done new in
      let (u, ru, y) =
        record_entry-Moved env (fee_params payee (fee_of a)) release.1 x.valid fee_done fee_new in
      let (b, kb, ub, _, _, _, _) = x.transferred.payer (not_system payer np) in
      let (c, kc, uc, _, _, _, _) = y.transferred.payer (not_system payee nq) in
      let (d, kd, td) = x.same_type t.debit_account_id b kb in
      let escrow_type : d.type ≡ escrow = td ∙ x.from_type b kb in
      rw (positive, done)
        (
          refl,
          record {
            paid = t;
            fee = u;
            amounts = (x.transferred.amount, y.transferred.amount);
            from_escrow = (
              b,
              kb,
              ub,
              x.from_type b kb,
              outside env (fee_params payee (fee_of a)) _ u _ y (not_system payee nq)
                    t.debit_account_id d kd (λ k. cc (escrow_type, y.from_type d k))
                    (λ k. cc (escrow_type, y.to_type d k))
                  ∙ payer_balance env (release_params payer payee (a -ℤ fee_of a)) l.db t _ x
                      (not_system payer np),
            );
            from_payee = (
              c,
              kc,
              uc,
              y.from_type c kc,
              payer_balance env (fee_params payee (fee_of a)) _ u _ y (not_system payee nq),
            );
          },
        )
