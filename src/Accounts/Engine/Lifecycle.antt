-- ===== src/Accounts/Engine/Lifecycle.antt =====
-- The life of an account under the methods of the engine.
use sman_server.Base.{
  ◌≡◌, ◌≢◌, refl, ◌∙◌, ap, String, true, false, Option, none, some, arith, ◌==◌, ==_iff, ==_refl,
  string_eq, map_option, if◌then◌else◌,
}
use sman_server.Base.Int.{pos, ◌≤ℤ◌, ltb_ℤ}
use sman_server.Accounts.Types.{Account, AccountStatus, status_eq}
use sman_server.Accounts.Faults.{ok, err, freeze_closed, close_positive}
use sman_server.Accounts.Flags.{
  ParsedFlags, parse_flags, set_flag, is_frozen, can_debit, can_credit,
}
use sman_server.Accounts.Flags.Bits.{tests-parse_flags, set_flag-parse_flags}
use sman_server.Accounts.Store.Tables.{AccountDb, Env}
use sman_server.Accounts.Store.Rows.{get_account}
use sman_server.Accounts.Engine.{freeze, unfreeze, close}
use sman_server.Accounts.Engine.Rewrites.{
  Rewritten, set_both, set_status, freeze-Rewrites, unfreeze-Rewrites, close-Rewrites,
}

-- The account `id` became `b`, and every other account and every transaction is as it was.
pub record Became (id : String) (s s' : AccountDb) (b : Account) : Type 0 where
  pub now_b : get_account id s' ≡ some b
  pub others : (j : String) → j ≢ id → get_account j s' ≡ get_account j s
  pub same_txns : s'.transaction_details ≡ s.transaction_details

module _ (id : String) (f : Account → Account) (s s' : AccountDb) (r : Rewritten id f s s') where
  pub Rewritten-Became : (a : Account) → get_account id s ≡ some a → Became id s s' (f a)
  Rewritten-Became a k = record {
    now_b = r.at id ∙ rw (k, ==_refl id) refl;
    others = λ j n. other j n (get_account j s) (r.at j);
    same_txns = r.same_txns;
  }
    where
      other :
          (j : String)
          → j ≢ id
          → (o : Option Account) → get_account j s' ≡ map_option (λ a. if j == id then f a else a) o
          → get_account j s' ≡ o
      other j n none h = h
      other j n (some b) h =
          let apart : (j == id) ≡ false = ground (arith, ==_iff j id) in h ∙ rw apart refl

module _ (env : Env) (id reason : String) (operator_id : Option String) (s : AccountDb)
    (a : Account) where
  -- Freezing an account that is not closed succeeds and returns it with the frozen status, the same
  -- balance and the freeze flag: it then refuses debits and credits, while its four other flags read
  -- as before, and no other account and no transaction changes. Freezing a closed account throws.
  pub freeze_lem :
      get_account id s ≡ some a
      → (a.status ≢ AccountStatus.closed
          → (s' : AccountDb) × (b : Account) × (freeze env id reason operator_id s
              ≡ ok (some b, s'))
            × Became id s s' b
            × (b.status ≡ AccountStatus.frozen)
            × (b.balance ≡ a.balance)
            × (is_frozen b.control_flags ≡ true)
            × (can_debit b.control_flags ≡ false)
            × (can_credit b.control_flags ≡ false)
            × (parse_flags b.control_flags
                ≡ record (parse_flags a.control_flags) { is_frozen = true }))
        × (a.status ≡ AccountStatus.closed → freeze env id reason operator_id s ≡ err freeze_closed)
  unfolding freeze
  freeze_lem k = (
    λ n.
        let (s', r, w) = freeze-Rewrites env id reason operator_id s a k n in
        let became = Rewritten-Became id _ s s' w a k in
        let flags = (set_flag-parse_flags a.control_flags).0 in
        let tests = tests-parse_flags (set_flag a.control_flags 4 b'1') in
        let on = ap (λ (p : ParsedFlags). p.is_frozen) flags in
        (
          s',
          _,
          r ∙ ap (λ o. ok (o, s')) became.now_b,
          became,
          refl,
          refl,
          ground (arith, on, tests),
          ground (arith, on, tests),
          ground (arith, on, tests),
          flags,
        ),
    λ c. let gone : (a.status == AccountStatus.closed) ≡ true = ground arith in rw (k, gone) refl,
  )

  -- Freezing an account that is not closed and then unfreezing it, at whatever times and by whomever,
  -- both succeed, and return the account active, with its balance, with the freeze flag off and each
  -- other flag as it read at first; no other account and no transaction changes.
  pub freeze-unfreeze :
      (later : Env) (reason2 : String) (operator2 : Option String)
      → get_account id s ≡ some a
      → a.status ≢ AccountStatus.closed
      → (s1 s2 : AccountDb) × (b c : Account) × (freeze env id reason operator_id s
          ≡ ok (some b, s1))
        × (unfreeze later id reason2 operator2 s1 ≡ ok (some c, s2))
        × Became id s s2 c
        × (c.status ≡ AccountStatus.active)
        × (c.balance ≡ a.balance)
        × (parse_flags c.control_flags ≡ record (parse_flags a.control_flags) { is_frozen = false })
  freeze-unfreeze later reason2 operator2 k n =
      let (s1, r1, w1) = freeze-Rewrites env id reason operator_id s a k n in
      let b1 = Rewritten-Became id _ s s1 w1 a k in
      let b = set_both env (set_flag a.control_flags 4 b'1') AccountStatus.frozen a in
      let (s2, r2, w2) = unfreeze-Rewrites later id reason2 operator2 s1 b b1.now_b in
      let b2 = Rewritten-Became id _ s1 s2 w2 b b1.now_b in
      (
        s1,
        s2,
        b,
        _,
        r1 ∙ ap (λ o. ok (o, s1)) b1.now_b,
        r2 ∙ ap (λ o. ok (o, s2)) b2.now_b,
        record {
          now_b = b2.now_b;
          others = λ j m. b2.others j m ∙ b1.others j m;
          same_txns = b2.same_txns ∙ b1.same_txns;
        },
        refl,
        refl,
        (set_flag-parse_flags (set_flag a.control_flags 4 b'1')).1
            ∙ ap (λ (p : ParsedFlags). record p { is_frozen = false })
                (set_flag-parse_flags a.control_flags).0,
      )

  -- Closing an account with no positive balance succeeds, and closing one with a positive balance
  -- throws. A closed account cannot be frozen, but unfreezing it makes it active again.
  pub close-unfreeze :
      (later : Env) (reason2 : String) (operator2 : Option String)
      → get_account id s ≡ some a
      → (pos 1 ≤ℤ a.balance → close env id reason operator_id s ≡ err (close_positive a.balance))
        × (a.balance ≤ℤ pos 0
            → (s1 s2 : AccountDb) × (b c : Account) × (close env id reason operator_id s
                ≡ ok (some b, s1))
              × (b.status ≡ AccountStatus.closed)
              × (freeze later id reason2 operator2 s1 ≡ err freeze_closed)
              × (unfreeze later id reason2 operator2 s1 ≡ ok (some c, s2))
              × Became id s s2 c
              × (c.status ≡ AccountStatus.active)
              × (c.balance ≡ a.balance))
  unfolding close freeze
  close-unfreeze later reason2 operator2 k = (
    λ m. let full : ltb_ℤ (pos 0) a.balance ≡ true = ground arith in rw (k, full) refl,
    λ m.
        let (s1, r1, w1) = close-Rewrites env id reason operator_id s a k m in
        let b1 = Rewritten-Became id _ s s1 w1 a k in
        let b = set_status env AccountStatus.closed a in
        let (s2, r2, w2) = unfreeze-Rewrites later id reason2 operator2 s1 b b1.now_b in
        let b2 = Rewritten-Became id _ s1 s2 w2 b b1.now_b in
        (
          s1,
          s2,
          b,
          _,
          r1 ∙ ap (λ o. ok (o, s1)) b1.now_b,
          refl,
          rw b1.now_b refl,
          r2 ∙ ap (λ o. ok (o, s2)) b2.now_b,
          record {
            now_b = b2.now_b;
            others = λ j n. b2.others j n ∙ b1.others j n;
            same_txns = b2.same_txns ∙ b1.same_txns;
          },
          refl,
          refl,
        ),
  )
