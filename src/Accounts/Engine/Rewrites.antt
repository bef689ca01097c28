-- ===== src/Accounts/Engine/Rewrites.antt =====
-- A method of the engine rewrites one account, and leaves the rest of the books alone.
use sman_server.Base.{
  ◌≡◌, ◌≢◌, refl, ◌∙◌, ap, String, Bool, true, false, Option, none, some, List, arith, ◌==◌, ==_iff,
  string_eq, All, All-weaken, All-update_where, IsUnique, IsUnique-update_where, update_where,
  find_where, find_where-true, find_where-update_where, map_option, Option-cases, inl, inr,
  if◌then◌else◌,
}
use sman_server.Base.Int.{pos, ◌≤ℤ◌, ltb_ℤ}
use sman_server.Accounts.Types.{Account, AccountAction, AccountStatus, status_eq, Flags}
use sman_server.Accounts.Faults.{Result, ok}
use sman_server.Accounts.Flags.{set_flag}
use sman_server.Accounts.Store.Tables.{AccountDb, Env}
use sman_server.Accounts.Store.Rows.{
  get_account, with_id, update_account_status, update_control_flags as write_control_flags,
  log_account_action,
}
use sman_server.Accounts.Ledger.Movement.{IsValid, IsNonneg, account_id}
use sman_server.Accounts.Engine.{
  write_flags_and_status, write_flags, close_found, freeze, unfreeze, close, update_control_flags,
}

-- The accounts under an UPDATE of the row `id`.
abbrev pub changed : String → (Account → Account) → List Account → List Account
changed id f = update_where (with_id id) f

-- What an UPDATE leaves alone: the key, and the balance.
abbrev pub IsTame : (Account → Account) → Type 0
IsTame f =
    (a : Account) → ((f a).id ≡ a.id) × ((f a).balance ≡ a.balance) × ((f a).user_id ≡ a.user_id)

module _ (id : String) (f : Account → Account) (tame : IsTame f) where
  find-changed :
      (j : String) (rows : List Account)
      → find_where (with_id j) (changed id f rows)
        ≡ map_option (λ a. if j == id then f a else a) (find_where (with_id j) rows)
  find-changed j rows =
      find_where-update_where (with_id j) (with_id id) f rows
        (λ a. ap (λ (k : String). k == j) (tame a).0)
      ∙ elim (Option-cases (find_where (with_id j) rows)) [
        | inl n ↦ rw n refl
        | inr (a, k) ↦ rw (k, (==_iff a.id j).0 (find_where-true (with_id j) rows k)) refl
      ]

  changed-IsUnique :
      (rows : List Account) → IsUnique account_id rows → IsUnique account_id (changed id f rows)
  changed-IsUnique rows u = IsUnique-update_where account_id (with_id id) f rows (λ a. (tame a).0) u

  changed-IsNonneg : (rows : List Account) → All IsNonneg rows → All IsNonneg (changed id f rows)
  changed-IsNonneg rows h =
      All-update_where IsNonneg (with_id id) f rows
        (All-weaken IsNonneg (λ x. with_id id x ≡ true → IsNonneg (f x)) rows
          (λ a n _. rw (tame a).1 n) h)
        h

-- A call that rewrites one account and nothing else of the books.
pub record Rewritten (id : String) (f : Account → Account) (s s' : AccountDb) : Type 0 where
  pub at :
      (j : String)
      → get_account j s' ≡ map_option (λ a. if j == id then f a else a) (get_account j s)
  pub same_txns : s'.transaction_details ≡ s.transaction_details
  pub valid : IsValid s → IsValid s'

-- A call that returns the account as it then stands, and rewrites only it.
abbrev pub Rewrites :
    String → (Account → Account) → AccountDb → Result (Option Account × AccountDb) → Type 0
Rewrites id f s r = (s' : AccountDb) × (r ≡ ok (get_account id s', s')) × Rewritten id f s s'

abbrev pub set_both : Env → Flags → AccountStatus → Account → Account
set_both env flags status a = record a {
  control_flags = flags;
  status = status;
  updated_at = env.now;
}

abbrev pub set_status : Env → AccountStatus → Account → Account
set_status env status a = record a { status = status; updated_at = env.now }

abbrev pub set_flags : Env → Flags → Account → Account
set_flags env flags a = record a { control_flags = flags; updated_at = env.now }

module _ (env : Env) (id reason : String) (operator_id : Option String) (s : AccountDb) where
  twice :
      (flags : Flags) (status : AccountStatus) (b : Bool) (o : Option Account)
      → map_option
          (λ a. if b then set_status env status a else a)
          (map_option (λ a. if b then set_flags env flags a else a) o)
        ≡ map_option (λ a. if b then set_both env flags status a else a) o
  twice flags status true none = refl
  twice flags status true (some a) = refl
  twice flags status false none = refl
  twice flags status false (some a) = refl

  pub write_flags_and_status-Rewrites :
      (action : AccountAction) (flags : Flags) (status : AccountStatus) (a : Account)
      → Rewrites id
          (set_both env flags status)
          s
          (write_flags_and_status env id reason operator_id action flags status a s)
  unfolding get_account write_control_flags update_account_status log_account_action
  write_flags_and_status-Rewrites action flags status a = (
    _,
    refl,
    record {
      at = λ j.
          find-changed id (set_status env status) (λ a. (refl, refl, refl)) j
            (changed id (set_flags env flags) s.accounts)
          ∙ ap (map_option (λ a. if j == id then set_status env status a else a))
              (find-changed id (set_flags env flags) (λ a. (refl, refl, refl)) j s.accounts)
          ∙ twice flags status (j == id) (get_account j s);
      same_txns = refl;
      valid = λ v. record {
        unique =
            changed-IsUnique id (set_status env status) (λ a. (refl, refl, refl)) _
              (changed-IsUnique id (set_flags env flags) (λ a. (refl, refl, refl)) _ v.unique);
        nonneg =
            changed-IsNonneg id (set_status env status) (λ a. (refl, refl, refl)) _
              (changed-IsNonneg id (set_flags env flags) (λ a. (refl, refl, refl)) _ v.nonneg);
      };
    },
  )

  close_found-Rewrites :
      (a : Account)
      → ltb_ℤ (pos 0) a.balance ≡ false
      → Rewrites id
          (set_status env AccountStatus.closed)
          s
          (close_found env id reason operator_id a s)
  unfolding get_account update_account_status log_account_action
  close_found-Rewrites a n = rw n (
    _,
    refl,
    record {
      at = λ j.
          find-changed id (set_status env AccountStatus.closed) (λ a. (refl, refl, refl)) j
            s.accounts;
      same_txns = refl;
      valid = λ v. record {
        unique =
            changed-IsUnique id (set_status env AccountStatus.closed) (λ a. (refl, refl, refl)) _
              v.unique;
        nonneg =
            changed-IsNonneg id (set_status env AccountStatus.closed) (λ a. (refl, refl, refl)) _
              v.nonneg;
      };
    },
  )

  write_flags-Rewrites :
      (flags : Flags) (a : Account)
      → Rewrites id (set_flags env flags) s (write_flags env id reason operator_id flags a s)
  unfolding get_account write_control_flags log_account_action
  write_flags-Rewrites flags a = (
    _,
    refl,
    record {
      at = λ j. find-changed id (set_flags env flags) (λ a. (refl, refl, refl)) j s.accounts;
      same_txns = refl;
      valid = λ v. record {
        unique = changed-IsUnique id (set_flags env flags) (λ a. (refl, refl, refl)) _ v.unique;
        nonneg = changed-IsNonneg id (set_flags env flags) (λ a. (refl, refl, refl)) _ v.nonneg;
      };
    },
  )

  module _ (a : Account) (k : get_account id s ≡ some a) where
    pub freeze-Rewrites :
        a.status ≢ AccountStatus.closed
        → Rewrites id
            (set_both env (set_flag a.control_flags 4 b'1') AccountStatus.frozen)
            s
            (freeze env id reason operator_id s)
    unfolding freeze
    freeze-Rewrites n =
        let alive : (a.status == AccountStatus.closed) ≡ false = ground arith in
        rw (k, alive) (write_flags_and_status-Rewrites _ _ _ a)

    pub unfreeze-Rewrites :
        Rewrites id
          (set_both env (set_flag a.control_flags 4 b'0') AccountStatus.active)
          s
          (unfreeze env id reason operator_id s)
    unfolding unfreeze
    unfreeze-Rewrites = rw k (write_flags_and_status-Rewrites _ _ _ a)

    pub close-Rewrites :
        a.balance ≤ℤ pos 0
        → Rewrites id (set_status env AccountStatus.closed) s (close env id reason operator_id s)
    unfolding close
    close-Rewrites n = rw k (close_found-Rewrites a (ground arith))

    pub update_control_flags-Rewrites :
        (flags : Flags)
        → Rewrites id
            (set_flags env flags)
            s
            (update_control_flags env id reason operator_id flags s)
    unfolding update_control_flags
    update_control_flags-Rewrites flags = rw k (write_flags-Rewrites flags a)
