-- ===== src/Accounts/Ledger/Soundness.antt =====
-- The books balance: every stored balance is what the stored transactions say it is.
use sman_server.Base.{
  ◌≡◌, sym, ◌∙◌, ap, subst, String, true, none, some, some-injective, List, arith, ◌==◌, ==_iff,
  string_eq, All, All-weaken, IsUnique, sum_by, sum_by_zero, is_some, Option-cases, Bool-cases, inl,
  inr, if◌then◌else◌,
}
use sman_server.Base.Int.{ℤ, pos, ◌-ℤ◌, int_laws}
use sman_server.Accounts.Types.{Account, TransactionDetail}
use sman_server.Accounts.Store.Tables.{AccountDb}
use sman_server.Accounts.Store.Rows.{get_account}
use sman_server.Accounts.Ledger.Params.{system_user}
use sman_server.Accounts.Ledger.Movement.{IsValid, Extends}

-- The part of one transaction in the account `j`.
abbrev pub credit_of : String → TransactionDetail → ℤ
credit_of j t = if t.credit_account_id == j then t.amount else pos 0

abbrev pub debit_of : String → TransactionDetail → ℤ
debit_of j t = if t.debit_account_id == j then t.amount else pos 0

-- What the transactions credit to an account, less what they debit from it. The accounts of the
-- system's own user are never debited: what they pay out is new money.
abbrev pub book_balance : String → String → List TransactionDetail → ℤ
book_balance user j ts =
    sum_by (credit_of j) ts -ℤ (if user == system_user then pos 0 else sum_by (debit_of j) ts)

-- Both accounts of a transaction exist.
abbrev pub IsLinked : AccountDb → TransactionDetail → Type 0
IsLinked s t =
    (is_some (get_account t.debit_account_id s) ≡ true)
    × (is_some (get_account t.credit_account_id s) ≡ true)

abbrev pub event_of : TransactionDetail → String
event_of t = t.event_id

pub record IsSound (s : AccountDb) : Type 0 where
  pub valid : IsValid s
  pub linked : All (IsLinked s) s.transaction_details
  pub events : IsUnique event_of s.transaction_details
  pub reconciled :
      (j : String) (a : Account)
      → get_account j s ≡ some a
      → a.balance ≡ book_balance a.user_id j s.transaction_details

module _ (s : AccountDb) (j : String) (free : get_account j s ≡ none) where
  -- No transaction names an account that does not exist.
  unlinked_credit : (t : TransactionDetail) → IsLinked s t → credit_of j t ≡ pos 0
  unlinked_credit t h = elim (Bool-cases (t.credit_account_id == j)) [
    | inl e ↦ absurd (ground (arith, ap (λ (i : String). get_account i s) ((==_iff _ j).0 e)))
    | inr n ↦ rw n
  ]

  unlinked_debit : (t : TransactionDetail) → IsLinked s t → debit_of j t ≡ pos 0
  unlinked_debit t h = elim (Bool-cases (t.debit_account_id == j)) [
    | inl e ↦ absurd (ground (arith, ap (λ (i : String). get_account i s) ((==_iff _ j).0 e)))
    | inr n ↦ rw n
  ]

  book_balance_zero :
      (user : String) (ts : List TransactionDetail)
      → All (IsLinked s) ts
      → book_balance user j ts ≡ pos 0
  book_balance_zero user ts h =
      let c = sum_by_zero (credit_of j) ts (All-weaken _ _ ts unlinked_credit h) in
      let d = sum_by_zero (debit_of j) ts (All-weaken _ _ ts unlinked_debit h) in
      elim (Bool-cases (user == system_user)) [
        | inl t ↦ rw (t, c) (omega int_laws)
        | inr f ↦ rw (f, c, d) (omega int_laws)
      ]

-- Opening accounts keeps the books.
module _ (s s' : AccountDb) (e : Extends s s') where
  kept_IsLinked : (t : TransactionDetail) → IsLinked s t → IsLinked s' t
  kept_IsLinked t h = (there t.debit_account_id h.0, there t.credit_account_id h.1)
    where
      there : (i : String) → is_some (get_account i s) ≡ true → is_some (get_account i s') ≡ true
      there i g = elim (Option-cases (get_account i s)) [
        | inl n ↦ absurd (ground arith)
        | inr (b, k) ↦ rw (e.kept i b k)
      ]

  pub Extends-IsSound : IsSound s → IsValid s' → IsSound s'
  unfolding get_account
  Extends-IsSound h v = record {
    valid = v;
    linked = rw e.same_txns (All-weaken _ _ _ kept_IsLinked h.linked);
    events = rw e.same_txns h.events;
    reconciled = λ j a g. rw e.same_txns (elim (Option-cases (get_account j s)) [
      | inl n ↦
          e.fresh j a g n ∙ sym (book_balance_zero s j n a.user_id s.transaction_details h.linked)
      | inr (b, k) ↦
          subst (λ (x : Account). x.balance ≡ book_balance x.user_id j s.transaction_details)
            (some-injective _ _ (sym (e.kept j b k) ∙ g)) (h.reconciled j b k)
    ]);
  }
