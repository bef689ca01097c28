-- ===== src/Accounts/Ledger/Books.antt =====
-- An entry keeps the books, and so does a run of entries.
use sman_server.Base.{
  ◌≡◌, ◌≢◌, sym, ◌∙◌, ap, subst, String, Bool, true, false, not, ◌&&◌, some, some-injective, List,
  [], ◌∷◌, ◌++◌, arith, ◌==◌, ==_iff, string_eq, All, All-append, All-weaken, IsUnique,
  IsUnique-snoc, exists_where-false, sum_by, sum_by-append, is_some, Option-cases, Bool-cases, inl,
  inr, if◌then◌else◌,
}
use sman_server.Base.Int.{ℤ, pos, neg, ◌+ℤ◌, ◌-ℤ◌, int_laws}
use sman_server.Accounts.Types.{Account, TransactionDetail}
use sman_server.Accounts.Store.Tables.{AccountDb, Env}
use sman_server.Accounts.Store.Rows.{get_account}
use sman_server.Accounts.Store.Txns.{of_event}
use sman_server.Accounts.Ledger.Params.{EntryParams, executed, system_user}
use sman_server.Accounts.Ledger.Posting.{Posted, posted}
use sman_server.Accounts.Ledger.Shares.{row_facts, credit_of-txn, debit_of-txn}
use sman_server.Accounts.Ledger.Soundness.{
  credit_of, debit_of, book_balance, IsLinked, event_of, IsSound,
}

-- One more transaction in the books of an account.
book_balance-snoc :
    (user j : String) (ts : List TransactionDetail) (t : TransactionDetail)
    → book_balance user j (ts ++ t ∷ [])
      ≡ sum_by (credit_of j) ts
        +ℤ credit_of j t
        -ℤ (if user == system_user then pos 0 else sum_by (debit_of j) ts +ℤ debit_of j t)
unfolding sum_by
book_balance-snoc user j ts t =
    rw (sum_by-append (credit_of j) ts (t ∷ []), sum_by-append (debit_of j) ts (t ∷ []))
      (elim (Bool-cases (user == system_user)) [
        | inl s ↦ rw s (omega int_laws)
        | inr n ↦ rw n (omega int_laws)
      ])

module _ (env : Env) (event_id : String) (p : EntryParams) (is_system : Bool) (from to : Account)
    (s s' : AccountDb) (t : TransactionDetail) (h : IsSound s)
    (from_found : get_account from.id s ≡ some from) (to_found : get_account to.id s ≡ some to)
    (apart : from.id ≢ to.id) (source : (from.user_id == system_user) ≡ is_system)
    (q : Posted env event_id p is_system from to s (executed t) s') where
  abbrev effect : String → Account → Account
  effect j a =
      posted env (j == to.id) p.amount (posted env (not is_system && j == from.id) (neg p.amount) a)

  abbrev credited : (j : String) → credit_of j q.txn ≡ (if j == to.id then p.amount else pos 0)
  credited = credit_of-txn env event_id p is_system from to s s' t q

  abbrev debited : (j : String) → debit_of j q.txn ≡ (if j == from.id then p.amount else pos 0)
  debited = debit_of-txn env event_id p is_system from to s s' t q

  -- The account debited is the entry's source, so it is the system's exactly where the entry is.
  debited_owner :
      (j : String) (a : Account)
      → get_account j s ≡ some a
      → (j == from.id) ≡ true
      → (a.user_id == system_user) ≡ is_system
  debited_owner j a g e =
      let same : from ≡ a =
        some-injective _ _ (sym from_found ∙ (rw ((==_iff j from.id).0 e) at g)) in
      rw (← same) source

  effect_balance :
      (j : String) (a : Account)
      → get_account j s ≡ some a
      → (effect j a).balance ≡ book_balance a.user_id j (s.transaction_details ++ q.txn ∷ [])
  effect_balance j a g =
      let before = h.reconciled j a g in
      rw (book_balance-snoc a.user_id j s.transaction_details q.txn, credited j, debited j)
        (elim (Bool-cases (j == from.id)) [
          | inl f ↦
              let n : (j == to.id) ≡ false = ground (arith, ==_iff j from.id, ==_iff j to.id) in
              let o = debited_owner j a g f in
              elim (Bool-cases is_system) [
                | inl y ↦ rw (f, n, y, o ∙ y) ((rw (o ∙ y) at before) ∙ omega int_laws)
                | inr y ↦
                    rw (f, n, y, o ∙ y)
                      (ap (λ (b : ℤ). b +ℤ neg p.amount) (rw (o ∙ y) at before) ∙ omega int_laws)
              ]
          | inr f ↦
              let k : (not is_system && false) ≡ false = ground arith in
              elim (Bool-cases (a.user_id == system_user)) [
                | inl u ↦ elim (Bool-cases (j == to.id)) [
                  | inl n ↦
                      rw (f, n, k, u)
                        (ap (λ (b : ℤ). b +ℤ p.amount) (rw u at before) ∙ omega int_laws)
                  | inr n ↦ rw (f, n, k, u) ((rw u at before) ∙ omega int_laws)
                ]
                | inr u ↦ elim (Bool-cases (j == to.id)) [
                  | inl n ↦
                      rw (f, n, k, u)
                        (ap (λ (b : ℤ). b +ℤ p.amount) (rw u at before) ∙ omega int_laws)
                  | inr n ↦ rw (f, n, k, u) ((rw u at before) ∙ omega int_laws)
                ]
              ]
        ])

  effect_user : (j : String) (a : Account) → (effect j a).user_id ≡ a.user_id
  effect_user j a = ground arith

  still_there : (i : String) → is_some (get_account i s) ≡ true → is_some (get_account i s') ≡ true
  still_there i g = elim (Option-cases (get_account i s)) [
    | inl n ↦ absurd (ground arith)
    | inr (b, k) ↦ rw (q.at i) (rw k)
  ]

  pub Posted-IsSound : IsSound s'
  Posted-IsSound = record {
    valid = q.valid;
    linked = subst (All (IsLinked s')) (sym q.txns) (
        All-append (IsLinked s') s.transaction_details (q.txn ∷ [])
          (All-weaken _ _ _ (λ x l. (still_there _ l.0, still_there _ l.1)) h.linked)
          (
            (
              still_there _
                  (rw ((row_facts env event_id p is_system from to s s' t q).1) (rw from_found)),
              still_there _
                  (rw ((row_facts env event_id p is_system from to s s' t q).0) (rw to_found)),
            ),
            tt,
          ));
    events = subst (IsUnique event_of) (sym q.txns) (
        IsUnique-snoc event_of s.transaction_details q.txn h.events (
          All-weaken _ _ _
            (λ x n e. cc (
              (==_iff x.event_id event_id).1
                (e ∙ (row_facts env event_id p is_system from to s s' t q).3)))
            (exists_where-false (of_event event_id) s.transaction_details q.new_event)));
    reconciled = λ j a' g.
        subst (λ ts. a'.balance ≡ book_balance a'.user_id j ts) (sym q.txns)
          (elim (Option-cases (get_account j s)) [
            | inl n ↦ absurd (ground (arith, q.at j))
            | inr (a, k) ↦
                let same : effect j a ≡ a' = some-injective _ _ (sym (rw k at (q.at j)) ∙ g) in
                subst
                  (λ (x : Account).
                    x.balance ≡ book_balance x.user_id j (s.transaction_details ++ q.txn ∷ []))
                  same (rw (effect_user j a) (effect_balance j a k))
          ]);
  }
