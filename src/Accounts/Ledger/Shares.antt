-- ===== src/Accounts/Ledger/Shares.antt =====
-- The transaction that an entry stores, read from the side of one account.
use sman_server.Base.{◌≡◌, ap, String, Bool, ◌==◌, string_eq, ==_comm, if◌then◌else◌}
use sman_server.Base.Int.{ℤ, pos}
use sman_server.Accounts.Types.{Account, TransactionDetail}
use sman_server.Accounts.Store.Tables.{AccountDb, Env}
use sman_server.Accounts.Ledger.Params.{EntryParams, executed}
use sman_server.Accounts.Ledger.Posting.{Posted}
use sman_server.Accounts.Ledger.Soundness.{credit_of, debit_of}

module _ (env : Env) (event_id : String) (p : EntryParams) (is_system : Bool) (from to : Account)
    (s s' : AccountDb) (t : TransactionDetail)
    (q : Posted env event_id p is_system from to s (executed t) s') where
  -- The stored transaction has the accounts and the amount of the entry.
  pub row_facts :
      (q.txn.credit_account_id ≡ to.id)
      × (q.txn.debit_account_id ≡ from.id)
      × (q.txn.amount ≡ p.amount)
      × (q.txn.event_id ≡ event_id)
  row_facts = (
    ap (λ (x : TransactionDetail). x.credit_account_id) q.row,
    ap (λ (x : TransactionDetail). x.debit_account_id) q.row,
    ap (λ (x : TransactionDetail). x.amount) q.row,
    ap (λ (x : TransactionDetail). x.event_id) q.row,
  )

  pub credit_of-txn : (j : String) → credit_of j q.txn ≡ (if j == to.id then p.amount else pos 0)
  credit_of-txn j =
      let (c, _, m, _) = row_facts in
      rw c (rw (==_comm to.id j) (ap (λ (n : ℤ). if j == to.id then n else pos 0) m))

  pub debit_of-txn : (j : String) → debit_of j q.txn ≡ (if j == from.id then p.amount else pos 0)
  debit_of-txn j =
      let (_, d, m, _) = row_facts in
      rw d (rw (==_comm from.id j) (ap (λ (n : ℤ). if j == from.id then n else pos 0) m))
