-- ===== src/Accounts/Ledger/Guarantees.antt =====
-- What a caller of recordEntry may rely on.
use sman_server.Base.{◌≡◌, ap, String, false, arith, ◌==◌, string_eq}
use sman_server.Accounts.Types.{TransactionDetail}
use sman_server.Accounts.Store.Tables.{AccountDb, Env}
use sman_server.Accounts.Store.Rows.{get_account}
use sman_server.Accounts.Ledger.Params.{EntryParams, TransferResult, to_result, Ledger, system_user}
use sman_server.Accounts.Ledger.Entry.{record_entry}
use sman_server.Accounts.Ledger.Movement.{IsValid, Extends}
use sman_server.Accounts.Ledger.Stages.{SameMoney}
use sman_server.Accounts.Ledger.Body.{Execution}
use sman_server.Accounts.Ledger.Soundness.{IsSound, Extends-IsSound}
use sman_server.Accounts.Ledger.Books.{Posted-IsSound}
use sman_server.Accounts.Ledger.Outcomes.{EntryPost, is_system_source, record_entry_lem}

pub SameMoney-IsSound : (s s' : AccountDb) → SameMoney s s' → IsSound s → IsSound s'
unfolding get_account
SameMoney-IsSound s s' m h =
    Extends-IsSound s s'
      (record {
        kept = λ j a g. rw m.accounts g;
        fresh = λ j a g n. cc (rw m.accounts at g);
        same_txns = m.txns;
      })
      h (record { unique = rw m.accounts h.valid.unique; nonneg = rw m.accounts h.valid.nonneg })

module _ (env : Env) (p : EntryParams) where
  Execution-IsSound :
      (e : String) (s s' : AccountDb) (t : TransactionDetail)
      → Execution env e p (is_system_source p) s t s'
      → IsSound s
      → IsSound s'
  Execution-IsSound e s s' t x h =
      Posted-IsSound env e p (is_system_source p) x.from x.to x.opened s' t
        (Extends-IsSound s x.opened x.extends h x.opened_valid) x.from_found x.to_found
        x.gates.distinct (ap (λ u. u == system_user) x.from_owner) x.posted

  EntryPost-IsSound :
      (s s' : AccountDb) (r : TransferResult) → EntryPost env p s r s' → IsSound s → IsSound s'
  EntryPost-IsSound s s' r (EntryPost.refusal why e x v) h = Extends-IsSound s s' x h v
  EntryPost-IsSound s s' r (EntryPost.known e t i n q k m) h = SameMoney-IsSound s s' m h
  EntryPost-IsSound s s' r (EntryPost.done e t i n q k x) h = Execution-IsSound e s s' t x h

  -- Whatever the entry is and however it ends, it keeps the books sound: no balance is negative, no
  -- two accounts share an id and no two transactions an event, each transaction names two accounts
  -- that exist, and each balance is the sum of its credits less its debits, where the accounts of the
  -- system's user have no debits.
  pub record_entry-IsSound : (l : Ledger) → IsSound l.db → IsSound (record_entry env p l).1.db
  record_entry-IsSound l h = EntryPost-IsSound _ _ _ (record_entry_lem env p l h.valid) h

  refused_Extends :
      (s s' : AccountDb) (r : TransferResult)
      → EntryPost env p s r s'
      → r.success ≡ false
      → Extends s s'
  unfolding to_result
  refused_Extends s s' r (EntryPost.refusal why e x v) f = x
  refused_Extends s s' r (EntryPost.known e t i n q k m) f = absurd (ground arith)
  refused_Extends s s' r (EntryPost.done e t i n q k x) f = absurd (ground arith)

  -- An entry that does not succeed changes no account that there was and stores no transaction; an
  -- account that it opened on the way is empty.
  pub unsuccessful-Extends :
      (l : Ledger)
      → IsValid l.db
      → (record_entry env p l).0.success ≡ false
      → Extends l.db (record_entry env p l).1.db
  unsuccessful-Extends l v f = refused_Extends _ _ _ (record_entry_lem env p l v) f
