-- ===== src/Accounts/Ledger/Moves.antt =====
-- An entry that returns a transaction which was not stored before, whether its event was given or
-- drawn: what it moves, and between accounts of which types.
use sman_server.Base.{
  ◌≡◌, refl, sym, ◌∙◌, ap, subst, String, Bool, true, false, none, some, some-injective, arith,
  ==_iff, string_eq, ◌==◌, or_default, find_where-true, not, ◌&&◌,
}
use sman_server.Base.Int.{ℤ, neg}
use sman_server.Accounts.Types.{Account, main, TransactionDetail}
use sman_server.Accounts.Store.Tables.{AccountDb, Env}
use sman_server.Accounts.Store.Rows.{get_account}
use sman_server.Accounts.Store.Txns.{get_txn_by_event_id, of_event}
use sman_server.Accounts.Ledger.Params.{EntryParams, TransferResult, executed, to_result, Ledger}
use sman_server.Accounts.Ledger.Entry.{record_entry}
use sman_server.Accounts.Ledger.Movement.{IsValid}
use sman_server.Accounts.Ledger.Body.{Execution}
use sman_server.Accounts.Ledger.Posting.{posted}
use sman_server.Accounts.Ledger.Effects.{Transferred, Execution-Transferred}
use sman_server.Accounts.Ledger.Outcomes.{EntryPost, is_system_source, record_entry_lem}
use sman_server.Accounts.Ledger.Shares.{row_facts}

-- The transaction that is returned, if one is, has an event that was not stored.
abbrev pub IsNewTxn : TransferResult → AccountDb → Type 0
IsNewTxn r s =
    (t : TransactionDetail) → r.transaction ≡ some t → get_txn_by_event_id t.event_id s ≡ none

module _ (env : Env) (p : EntryParams) where
  pub record Moved (s : AccountDb) (t : TransactionDetail) (s' : AccountDb) : Type 0 where
    pub transferred : Transferred env p t.event_id s t s'
    pub from_type :
        (a : Account)
        → get_account t.debit_account_id s ≡ some a
        → a.type ≡ or_default p.from_account_type main
    pub to_type :
        (a : Account)
        → get_account t.credit_account_id s ≡ some a
        → a.type ≡ or_default p.to_account_type main
    -- Each account is still there, with its type.
    pub same_type :
        (j : String) (a : Account)
        → get_account j s ≡ some a
        → (b : Account) × (get_account j s' ≡ some b) × (b.type ≡ a.type)
    pub valid : IsValid s'

  posted_type : (b : Bool) (m : ℤ) (a : Account) → (posted env b m a).type ≡ a.type
  posted_type true m a = refl
  posted_type false m a = refl

  module _ (e : String) (s s' : AccountDb) (t : TransactionDetail)
      (x : Execution env e p (is_system_source p) s t s') where
    same_txn : x.posted.txn ≡ t
    same_txn = ground (arith, x.posted.outcome)

    facts : (t.credit_account_id ≡ x.to.id) × (t.debit_account_id ≡ x.from.id) × (t.event_id ≡ e)
    facts =
        let (c, d, m, v) =
          row_facts env e p (is_system_source p) x.from x.to x.opened s' t x.posted in
        (
          ap (λ (u : TransactionDetail). u.credit_account_id) (sym same_txn) ∙ c,
          ap (λ (u : TransactionDetail). u.debit_account_id) (sym same_txn) ∙ d,
          ap (λ (u : TransactionDetail). u.event_id) (sym same_txn) ∙ v,
        )

    still_there :
        (j : String) (a : Account)
        → get_account j s ≡ some a
        → (b : Account) × (get_account j s' ≡ some b) × (b.type ≡ a.type)
    still_there j a k = (
      posted env (j == x.to.id) p.amount
          (posted env (not (is_system_source p) && j == x.from.id) (neg p.amount) a),
      x.posted.at j ∙ rw (x.extends.kept j a k) refl,
      posted_type (j == x.to.id) p.amount _
          ∙ posted_type (not (is_system_source p) && j == x.from.id) (neg p.amount) a,
    )

    pub Execution-Moved : Transferred env p e s t s' → Moved s t s'
    Execution-Moved m = record {
      transferred = subst (λ (c : String). Transferred env p c s t s') (sym facts.2) m;
      from_type = λ a k.
          let same : x.from ≡ a =
            some-injective _ _ (sym x.from_found ∙ x.extends.kept x.from.id a (rw facts.1 at k)) in
          ap (λ (b : Account). b.type) (sym same) ∙ x.from_type;
      to_type = λ a k.
          let same : x.to ≡ a =
            some-injective _ _ (sym x.to_found ∙ x.extends.kept x.to.id a (rw facts.0 at k)) in
          ap (λ (b : Account). b.type) (sym same) ∙ x.to_type;
      same_type = still_there;
      valid = x.posted.valid;
    }

  abbrev MovedBy : AccountDb → TransferResult → AccountDb → Type 0
  MovedBy s r s' = (t : TransactionDetail) × (r ≡ to_result (executed t)) × Moved s t s'

  new_txn-Moved :
      (s s' : AccountDb) (r : TransferResult)
      → r.success ≡ true
      → IsNewTxn r s
      → EntryPost env p s r s'
      → MovedBy s r s'
  unfolding to_result get_txn_by_event_id
  new_txn-Moved s s' r f n (EntryPost.refusal why q x v) = absurd (ground arith)
  new_txn-Moved s s' r f n (EntryPost.known e t i m q k y) =
      let ev : t.event_id ≡ e =
        (==_iff t.event_id e).0 (find_where-true (of_event e) s.transaction_details k) in
      let gone : get_txn_by_event_id e s ≡ none =
        subst (λ c. get_txn_by_event_id c s ≡ none) ev
          (n t (ap (λ (o : TransferResult). o.transaction) q)) in
      absurd (cc (gone, k))
  new_txn-Moved s s' r f n (EntryPost.done e t i m q k x) =
      (t, q, Execution-Moved e s s' t x (Execution-Transferred env p e s s' t x m))

  pub record_entry-Moved :
      (l : Ledger)
      → IsValid l.db
      → (record_entry env p l).0.success ≡ true
      → IsNewTxn (record_entry env p l).0 l.db
      → (t : TransactionDetail) × ((record_entry env p l).0 ≡ to_result (executed t))
        × Moved l.db t (record_entry env p l).1.db
  record_entry-Moved l v f n =
      new_txn-Moved l.db (record_entry env p l).1.db (record_entry env p l).0 f n
        (record_entry_lem env p l v)
