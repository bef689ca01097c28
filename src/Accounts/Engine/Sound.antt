-- ===== src/Accounts/Engine/Sound.antt =====
-- The methods of the account engine keep the books sound.
use sman_server.Base.{
  ◌≡◌, refl, sym, ◌∙◌, subst, String, Bool, true, false, Option, some-injective, List, arith, ◌==◌,
  string_eq, All-weaken, is_some, Option-cases, Bool-cases, inl, inr, if◌then◌else◌,
}
use sman_server.Base.Int.{pos, ltb_ℤ}
use sman_server.Accounts.Types.{
  Account, AccountType, AccountStatus, TransactionDetail, status_eq, Flags,
}
use sman_server.Accounts.Faults.{Result}
use sman_server.Accounts.Store.Tables.{AccountDb, Env}
use sman_server.Accounts.Store.Monad.{Ensures, Ensures-bind, Ensures-weaken}
use sman_server.Accounts.Store.Rows.{get_account, get_or_create_account, log_account_action}
use sman_server.Accounts.Ledger.Movement.{Found, get_or_create_account_lem}
use sman_server.Accounts.Ledger.Soundness.{IsSound, IsLinked, book_balance, Extends-IsSound}
use sman_server.Accounts.Ledger.Guarantees.{SameMoney-IsSound}
use sman_server.Accounts.Engine.{open_account, freeze, unfreeze, close, update_control_flags}
use sman_server.Accounts.Engine.Rewrites.{
  IsTame, Rewritten, Rewrites, freeze-Rewrites, unfreeze-Rewrites, close-Rewrites,
  update_control_flags-Rewrites,
}

module _ (id : String) (f : Account → Account) (tame : IsTame f) (s s' : AccountDb)
    (w : Rewritten id f s s') where
  still_there : (j : String) → is_some (get_account j s) ≡ true → is_some (get_account j s') ≡ true
  still_there j h = elim (Option-cases (get_account j s)) [
    | inl n ↦ absurd (ground arith)
    | inr (a, k) ↦ rw (w.at j) (rw k)
  ]

  same_books :
      (b : Bool) (a : Account) (j : String) (ts : List TransactionDetail)
      → a.balance ≡ book_balance a.user_id j ts
      → let c = if b then f a else a in c.balance ≡ book_balance c.user_id j ts
  same_books true a j ts h = rw ((tame a).1, (tame a).2) h
  same_books false a j ts h = h

  pub Rewritten-IsSound : IsSound s → IsSound s'
  unfolding get_account
  Rewritten-IsSound h = record {
    valid = w.valid h.valid;
    linked = rw w.same_txns (
        All-weaken (IsLinked s) (IsLinked s') s.transaction_details
          (λ t l. (still_there t.debit_account_id l.0, still_there t.credit_account_id l.1))
          h.linked);
    events = rw w.same_txns h.events;
    reconciled = λ j a g.
        subst (λ ts. a.balance ≡ book_balance a.user_id j ts) (sym w.same_txns)
          (elim (Option-cases (get_account j s)) [
            | inl n ↦ absurd (ground (arith, w.at j))
            | inr (b, k) ↦
                subst (λ (x : Account). x.balance ≡ book_balance x.user_id j s.transaction_details)
                  (some-injective _ _ (sym (rw k at (w.at j)) ∙ g))
                  (same_books (j == id) b j s.transaction_details (h.reconciled j b k))
          ]);
  }

module _ {A : Type 0} where
  -- The books that a call leaves, where it returns, are sound.
  abbrev pub SoundAfter : Result (A × AccountDb) → Type 0
  SoundAfter r = Ensures (λ _ s'. IsSound s') r

module _ (env : Env) (id reason : String) (operator_id : Option String) (s : AccountDb)
    (h : IsSound s) where
  Rewrites-SoundAfter :
      (f : Account → Account) (r : Result (Option Account × AccountDb))
      → IsTame f
      → Rewrites id f s r
      → SoundAfter r
  Rewrites-SoundAfter f r tame (s', e, w) =
      subst SoundAfter (sym e) (Rewritten-IsSound id f tame s s' w h)

  pub freeze-SoundAfter : SoundAfter (freeze env id reason operator_id s)
  unfolding freeze
  freeze-SoundAfter = elim (Option-cases (get_account id s)) [
    | inl n ↦ rw n tt
    | inr (a, k) ↦ elim (Bool-cases (a.status == AccountStatus.closed)) [
      | inl c ↦ rw (k, c) tt
      | inr c ↦
          Rewrites-SoundAfter _ _ (λ a. (refl, refl, refl))
            (freeze-Rewrites env id reason operator_id s a k (ground arith))
    ]
  ]

  pub unfreeze-SoundAfter : SoundAfter (unfreeze env id reason operator_id s)
  unfolding unfreeze
  unfreeze-SoundAfter = elim (Option-cases (get_account id s)) [
    | inl n ↦ rw n tt
    | inr (a, k) ↦
        Rewrites-SoundAfter _ _ (λ a. (refl, refl, refl))
          (unfreeze-Rewrites env id reason operator_id s a k)
  ]

  pub close-SoundAfter : SoundAfter (close env id reason operator_id s)
  unfolding close
  close-SoundAfter = elim (Option-cases (get_account id s)) [
    | inl n ↦ rw n tt
    | inr (a, k) ↦ elim (Bool-cases (ltb_ℤ (pos 0) a.balance)) [
      | inl c ↦ rw (k, c) tt
      | inr c ↦
          Rewrites-SoundAfter _ _ (λ a. (refl, refl, refl))
            (close-Rewrites env id reason operator_id s a k (ground arith))
    ]
  ]

  pub update_control_flags-SoundAfter :
      (flags : Flags) → SoundAfter (update_control_flags env id reason operator_id flags s)
  unfolding update_control_flags
  update_control_flags-SoundAfter flags = elim (Option-cases (get_account id s)) [
    | inl n ↦ rw n tt
    | inr (a, k) ↦
        Rewrites-SoundAfter _ _ (λ a. (refl, refl, refl))
          (update_control_flags-Rewrites env id reason operator_id s a k flags)
  ]

module _ (env : Env) (user : String) (type : AccountType) (s : AccountDb) (h : IsSound s) where
  pub get_or_create_account-SoundAfter : SoundAfter (get_or_create_account env user type s)
  get_or_create_account-SoundAfter =
      Ensures-weaken (Found env user type s) (λ _ s'. IsSound s') _
        (λ a s' f. Extends-IsSound s s' f.extends h f.valid)
        (get_or_create_account_lem env user type s h.valid)

  pub open_account-SoundAfter :
      (operator_id : Option String) → SoundAfter (open_account env user type operator_id s)
  unfolding open_account log_account_action get_account
  open_account-SoundAfter operator_id =
      Ensures-bind (λ _ s'. IsSound s') (λ _ s'. IsSound s') _ _
        (λ a s' k. SameMoney-IsSound _ _ (record { accounts = refl; txns = refl }) k)
        get_or_create_account-SoundAfter
