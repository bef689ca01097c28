-- ===== src/Accounts/Ledger/Movement.antt =====
-- What the statements of an entry do to the accounts, as the later SELECTs see it.
use sman_server.Base.{
  ℕ, ◌+◌, subst, some-injective, &&_iff, ◌≡◌, refl, sym, ◌∙◌, String, Bool, true, false, ◌&&◌, none,
  some, [], ◌∷◌, ◌++◌, arith, ◌==◌, ==_iff, string_eq, All, All-append, IsUnique, IsUnique-snoc,
  IsUnique-update_where, find_where, find_where-true, find_where-All, find_where-none,
  find_where-append, find_where_unique, find_where-update_where, exists_where, exists_where-false,
  exists_where_unique, exists_where-eq-is_some, update_where, All-update_where, All-weaken,
  map_option, Bool-cases, Option-cases, inl, inr, if◌then◌else◌,
}
use sman_server.Base.Int.{ℤ, pos, ◌+ℤ◌, ◌≤ℤ◌, ltb_ℤ}
use sman_server.Accounts.Types.{Account, AccountType, AccountStatus, status_eq, account_type_eq}
use sman_server.Accounts.Store.Tables.{AccountDb, Env}
use sman_server.Accounts.Store.Monad.{Ensures}
use sman_server.Accounts.Store.Rows.{
  with_id, of_user, active_with_id, new_account, add_balance, gen_id, insert_account, get_account,
  get_or_create_account, update_balance,
}

abbrev pub account_id : Account → String
account_id a = a.id

abbrev pub IsNonneg : Account → Type 0
IsNonneg a = pos 0 ≤ℤ a.balance

-- Balances are not negative, and no two accounts share an id.
pub record IsValid (s : AccountDb) : Type 0 where
  pub unique : IsUnique account_id s.accounts
  pub nonneg : All IsNonneg s.accounts

-- A database that has got new, empty accounts.
pub record Extends (s s' : AccountDb) : Type 0 where
  pub kept : (j : String) (a : Account) → get_account j s ≡ some a → get_account j s' ≡ some a
  pub fresh :
      (j : String) (a : Account)
      → get_account j s' ≡ some a
      → get_account j s ≡ none
      → a.balance ≡ pos 0
  pub same_txns : s'.transaction_details ≡ s.transaction_details

pub Extends-refl : (s : AccountDb) → Extends s s
Extends-refl s = record { kept = λ j a h. h; fresh = λ j a h n. cc; same_txns = refl }

module _ (env : Env) (user : String) (type : AccountType) (s : AccountDb) where
  -- What get_or_create_account returns and leaves: the row is the one that a SELECT by its id
  -- returns, it belongs to the user and is of the type asked for, and at most that one account is new.
  pub record Found (a : Account) (s' : AccountDb) : Type 0 where
    pub valid : IsValid s'
    pub extends : Extends s s'
    pub found : get_account a.id s' ≡ some a
    pub owner : a.user_id ≡ user
    pub typed : a.type ≡ type

  Found-existing :
      (b : Account) → IsValid s → find_where (of_user user type) s.accounts ≡ some b → Found b s
  unfolding get_account
  Found-existing b v h =
      let t = (&&_iff _ _).0 (find_where-true _ s.accounts h) in
      record {
        valid = v;
        extends = Extends-refl s;
        found = find_where_unique account_id _ s.accounts v.unique h;
        owner = (==_iff _ _).0 t.0;
        typed = (==_iff _ _).0 t.1;
      }

  Found-new :
      (id : String)
      → IsValid s
      → find_where (with_id id) s.accounts ≡ none
      → (d : ℕ)
      → let a = new_account env id user type in
        Found a (record s { accounts = s.accounts ++ a ∷ []; draws = d })
  unfolding get_account find_where
  Found-new id v free d =
      let a = new_account env id user type in
      let at = λ (j : String). find_where-append (with_id j) s.accounts (a ∷ []) in
      record {
        valid = record {
          unique = IsUnique-snoc account_id s.accounts a v.unique (
              All-weaken _ _ s.accounts (λ x f q. cc ((==_iff x.id id).1 q))
                (find_where-none (with_id id) s.accounts free));
          nonneg = All-append IsNonneg s.accounts (a ∷ []) v.nonneg (omega arith, tt);
        };
        extends = record {
          kept = λ j b h. ground (arith, at j);
          fresh = λ j b h n. ground (arith, at j);
          same_txns = refl;
        };
        found = ground (arith, at id, ==_iff id id);
        owner = refl;
        typed = refl;
      }

  pub get_or_create_account_lem : IsValid s → Ensures Found (get_or_create_account env user type s)
  unfolding get_or_create_account insert_account
  get_or_create_account_lem v = elim (Option-cases (find_where (of_user user type) s.accounts)) [
    | inr (b, h) ↦ rw (h, get_or_create_account, Ensures) (Found-existing b v h)
    | inl free ↦
        rw (free, get_or_create_account, Ensures)
          (elim (Option-cases (find_where (with_id (gen_id env "acc" s)) s.accounts)) [
            | inr (b, h) ↦ rw (exists_where-eq-is_some, h) tt
            | inl unused ↦
                rw (exists_where-eq-is_some, unused)
                  (rw (exists_where-eq-is_some, free)
                    (Found-new (gen_id env "acc" s) v unused (s.draws + 1)))
          ])
  ]

module _ (env : Env) (id : String) (delta : ℤ) (s : AccountDb) where
  -- What updateBalance does where it does not throw: it adds the amount to the one account of that
  -- id, which is active, and does not let its balance go below zero.
  pub record Moved (u : Unit {0}) (s' : AccountDb) : Type 0 where
    pub valid : IsValid s'
    pub at :
        (j : String)
        → get_account j s' ≡ (
            if j == id
            then map_option (add_balance env delta) (get_account j s)
            else get_account j s)
    pub same_txns : s'.transaction_details ≡ s.transaction_details
    pub covered :
        (a : Account)
        → get_account id s ≡ some a
        → (pos 0 ≤ℤ a.balance +ℤ delta) × (a.status ≡ AccountStatus.active)

  abbrev overdrawn : Account → Bool
  overdrawn a = active_with_id id a && ltb_ℤ (a.balance +ℤ delta) (pos 0)

  abbrev moved : AccountDb
  moved = record s {
    accounts = update_where (active_with_id id) (add_balance env delta) s.accounts;
  }

  module _ (v : IsValid s) (room : exists_where overdrawn s.accounts ≡ false)
      (there : exists_where (active_with_id id) s.accounts ≡ true) where
    moved-IsValid : IsValid moved
    moved-IsValid = record {
      unique = IsUnique-update_where account_id _ _ s.accounts (λ x. refl) v.unique;
      nonneg =
          All-update_where IsNonneg _ _ s.accounts
            (All-weaken _ _ s.accounts (λ x f q. ground arith)
              (exists_where-false overdrawn s.accounts room))
            v.nonneg;
    }

    -- The account that a SELECT returns is the one that the UPDATE changes.
    moved_status :
        (a : Account) → get_account id s ≡ some a → (a.status == AccountStatus.active) ≡ true
    unfolding get_account
    moved_status a h =
        exists_where_unique account_id id (λ (x : Account). x.status == AccountStatus.active)
          s.accounts v.unique h there

    moved_covered :
        (a : Account)
        → get_account id s ≡ some a
        → (pos 0 ≤ℤ a.balance +ℤ delta) × (a.status ≡ AccountStatus.active)
    unfolding get_account
    moved_covered a h =
        let f = find_where-All _ _ s.accounts (exists_where-false overdrawn s.accounts room) h in
        let i = find_where-true (with_id id) s.accounts h in
        (ground (arith, moved_status a h), (==_iff _ _).0 (moved_status a h))

    moved_at :
        (j : String)
        → get_account j moved ≡ (
            if j == id
            then map_option (add_balance env delta) (get_account j s)
            else get_account j s)
    unfolding get_account
    moved_at j =
        find_where-update_where (with_id j) _ _ s.accounts (λ x. refl)
        ∙ elim (Option-cases (find_where (with_id j) s.accounts)) [
          | inl n ↦ rw n (ground arith)
          | inr (a, h) ↦
              let i = find_where-true (with_id j) s.accounts h in
              let r = (==_iff a.id j).0 i in
              elim (Bool-cases (j == id)) [
                | inl t ↦
                    let st = moved_status a (rw ((==_iff j id).0 t) at h) in
                    rw (h, t) (rw (r, t, st))
                | inr n ↦ rw (h, n) (rw (r, n))
              ]
        ]

  pub update_balance_lem : IsValid s → Ensures Moved (update_balance env id delta s)
  unfolding update_balance
  update_balance_lem v = elim (Bool-cases (exists_where overdrawn s.accounts)) [
    | inl o ↦ rw (o, update_balance, Ensures) tt
    | inr room ↦ elim (Bool-cases (exists_where (active_with_id id) s.accounts)) [
      | inr n ↦ rw (room, n, update_balance, Ensures) tt
      | inl there ↦
          rw (room, there, update_balance, Ensures)
            (record {
              valid = moved-IsValid v room there;
              at = moved_at v room there;
              same_txns = refl;
              covered = moved_covered v room there;
            })
    ]
  ]

pub Extends-trans : (s t u : AccountDb) → Extends s t → Extends t u → Extends s u
Extends-trans s t u e f = record {
  kept = λ j a h. f.kept j a (e.kept j a h);
  fresh = λ j a h n. elim (Option-cases (get_account j t)) [
    | inl m ↦ f.fresh j a h m
    | inr (b, m) ↦
        subst (λ (x : Account). x.balance ≡ pos 0) (some-injective _ _ (sym (f.kept j b m) ∙ h))
          (e.fresh j b m n)
  ];
  same_txns = f.same_txns ∙ e.same_txns;
}
