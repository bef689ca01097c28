-- ===== src/Accounts/Ledger/Body.antt =====
-- The body of the transaction as a whole: where it returns, with what tests passed and what changed.
use sman_server.Base.{
  ◌≡◌, ◌≢◌, refl, sym, ◌∙◌, subst, String, Bool, true, false, none, some, or_default, Option-cases,
  inl, inr,
}
use sman_server.Base.Int.{◌≤ℤ◌}
use sman_server.Accounts.Types.{Account, TransactionDetail, main, escrow}
use sman_server.Accounts.Rejects.{RejectResult, IsCheck}
use sman_server.Accounts.Flags.{parse_flags, is_frozen, can_debit, can_credit}
use sman_server.Accounts.Store.Tables.{AccountDb, Env}
use sman_server.Accounts.Store.Monad.{Ensures, Ensures-bind, Ensures-weaken}
use sman_server.Accounts.Store.Rows.{get_account}
use sman_server.Accounts.Store.Txns.{get_txn_by_event_id}
use sman_server.Accounts.Control
use sman_server.Accounts.LimitCheck
use sman_server.Accounts.Ledger.Params.{
  EntryParams, Outcome, duplicate, executed, refused, map_action_type,
}
use sman_server.Accounts.Ledger.Pipeline.{check_accounts, transaction_body}
use sman_server.Accounts.Ledger.Movement.{
  IsValid, Extends, Extends-trans, Found, get_or_create_account_lem,
}
use sman_server.Accounts.Ledger.Posting.{Posted, execute_entry_lem}
use sman_server.Accounts.Ledger.Stages.{
  SameMoney, check_control_flags_lem, check_balance_rule, check_limit_rule, check_config_rule,
  check_accounts_rule,
}

module _ (env : Env) (event_id : String) (p : EntryParams) (is_system : Bool) where
  -- What the checks have found where an entry is executed.
  pub record Gates (from to : Account) (s : AccountDb) : Type 0 where
    pub distinct : from.id ≢ to.id
    pub from_open :
        is_system ≡ false
        → (is_frozen from.control_flags ≡ false) × (can_debit from.control_flags ≡ true)
    pub to_open : (is_frozen to.control_flags ≡ false) × (can_credit to.control_flags ≡ true)
    pub config_allows :
        is_system ≡ false
        → (parse_flags from.control_flags).config_controlled ≡ true
        → Control.check env from (map_action_type p.type) p.scene s ≡ (none, s)
    pub limits_allow :
        is_system ≡ false
        → (parse_flags from.control_flags).limit_controlled ≡ true
        → LimitCheck.check env from (map_action_type p.type) to.id p.scene s ≡ none
    pub funded :
        is_system ≡ false
        → p.from_account_type ≢ some escrow
        → (a : Account) → get_account from.id s ≡ some a
        → p.amount ≤ℤ a.balance

  module _ (from to : Account) (s : AccountDb) where
    abbrev Settled : Outcome → AccountDb → Type 0
    Settled (refused r) s' = IsCheck r × SameMoney s s'
    Settled (executed t) s' =
        Gates from to s × Posted env event_id p is_system from to s (executed t) s'
    Settled (duplicate t) s' = ⊥

    settled :
        Gates from to s
        → (o : Outcome) (s' : AccountDb) → Posted env event_id p is_system from to s o s'
        → Settled o s'
    settled g o s' h =
        subst (λ x. Settled x s') (sym h.outcome)
          (g, subst (λ x. Posted env event_id p is_system from to s x s') h.outcome h)

    check_accounts_lem :
        IsValid s → Ensures Settled (check_accounts env event_id p is_system from to s)
    check_accounts_lem v =
        check_accounts_rule env event_id p is_system from to s Settled deny λ apart flags.
          check_config_rule env event_id p is_system from to s Settled deny λ config.
            check_limit_rule env event_id p is_system from to s Settled deny λ limits.
              check_balance_rule env event_id p is_system from to s Settled deny λ funds.
                let f =
                  check_control_flags_lem from.control_flags to.control_flags is_system flags in
                Ensures-weaken (Posted env event_id p is_system from to s) Settled _
                  (settled (record {
                    distinct = apart;
                    from_open = f.0;
                    to_open = (f.1, f.2);
                    config_allows = config;
                    limits_allow = limits;
                    funded = funds;
                  }))
                  (execute_entry_lem env event_id p is_system from to s v)
      where
        deny :
            (r : RejectResult) (s' : AccountDb)
            → IsCheck r
            → SameMoney s s'
            → IsCheck r × SameMoney s s'
        deny r s' c h = (c, h)

  module _ (s : AccountDb) where
    -- An executed entry, with the accounts as they stood after the body had found or opened them.
    pub record Execution (t : TransactionDetail) (s' : AccountDb) : Type 0 where
      pub from : Account
      pub to : Account
      pub opened : AccountDb
      pub extends : Extends s opened
      pub opened_valid : IsValid opened
      pub from_found : get_account from.id opened ≡ some from
      pub to_found : get_account to.id opened ≡ some to
      pub from_owner : from.user_id ≡ p.from_user_id
      pub to_owner : to.user_id ≡ p.to_user_id
      pub from_type : from.type ≡ or_default p.from_account_type main
      pub to_type : to.type ≡ or_default p.to_account_type main
      pub gates : Gates from to opened
      pub posted : Posted env event_id p is_system from to opened (executed t) s'

    abbrev pub BodyPost : Outcome → AccountDb → Type 0
    BodyPost (duplicate t) s' = (get_txn_by_event_id event_id s ≡ some t) × SameMoney s s'
    BodyPost (refused r) s' =
        IsCheck r × (get_txn_by_event_id event_id s ≡ none) × Extends s s' × IsValid s'
    BodyPost (executed t) s' = (get_txn_by_event_id event_id s ≡ none) × Execution t s'

    same_Extends :
        (t u : AccountDb) → Extends s t → IsValid t → SameMoney t u → Extends s u × IsValid u
    unfolding get_account
    same_Extends t u e v m = (
      record {
        kept = λ j a h. rw m.accounts (e.kept j a h);
        fresh = λ j a h n. e.fresh j a (rw m.accounts at h) n;
        same_txns = m.txns ∙ e.same_txns;
      },
      record { unique = rw m.accounts v.unique; nonneg = rw m.accounts v.nonneg },
    )

    body_post :
        get_txn_by_event_id event_id s ≡ none
        → (from to : Account) (s1 s2 : AccountDb)
        → Found env p.from_user_id (or_default p.from_account_type main) s from s1
        → Found env p.to_user_id (or_default p.to_account_type main) s1 to s2
        → (o : Outcome) (s' : AccountDb) → Settled from to s2 o s'
        → BodyPost o s'
    body_post new from to s1 s2 f t (duplicate d) s' h = absurd h
    body_post new from to s1 s2 f t (refused r) s' h =
        let (e, v) = same_Extends s2 s' (Extends-trans s s1 s2 f.extends t.extends) t.valid h.1 in
        (h.0, new, e, v)
    body_post new from to s1 s2 f t (executed d) s' h = (
      new,
      record {
        from = from;
        to = to;
        opened = s2;
        extends = Extends-trans s s1 s2 f.extends t.extends;
        opened_valid = t.valid;
        from_found = t.extends.kept from.id from f.found;
        to_found = t.found;
        from_owner = f.owner;
        to_owner = t.owner;
        from_type = f.typed;
        to_type = t.typed;
        gates = h.0;
        posted = h.1;
      },
    )

    pub transaction_body_lem :
        IsValid s → Ensures BodyPost (transaction_body env event_id p is_system s)
    unfolding transaction_body
    transaction_body_lem v = elim (Option-cases (get_txn_by_event_id event_id s)) [
      | inr (t, known) ↦ rw (known, Ensures) (known, record { accounts = refl; txns = refl })
      | inl new ↦
          rw (new, Ensures)
            (Ensures-bind (Found env p.from_user_id (or_default p.from_account_type main) s)
              BodyPost _ _
              (λ from s1 f.
                Ensures-bind (Found env p.to_user_id (or_default p.to_account_type main) s1)
                  BodyPost _ _
                  (λ to s2 t.
                    Ensures-weaken (Settled from to s2) BodyPost _ (body_post new from to s1 s2 f t)
                      (check_accounts_lem from to s2 t.valid))
                  (get_or_create_account_lem env p.to_user_id (or_default p.to_account_type main) s1
                    f.valid))
              (get_or_create_account_lem env p.from_user_id (or_default p.from_account_type main) s
                v))
    ]
