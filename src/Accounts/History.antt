-- ===== src/Accounts/History.antt =====
-- Any history of the ledger: calls of the ledger's engine, of the account engine and of the
-- administrators' methods of AccountDB, in any order, each with its own clock and random draws.
use sman_server.Base.{
  inl, inr, Bool-cases, exists_where, find_where, ◌==◌, ◌||◌, string_eq, refl, ℕ, String, Option,
}
use sman_server.Accounts.Types.{AccountType, Switch, Flags, ControlConfig, Limit}
use sman_server.Accounts.Faults.{Result, ok, err}
use sman_server.Accounts.Store.Tables.{AccountDb, AccountIdentity, Env, empty_db}
use sman_server.Accounts.Store.Rows.{get_account, get_or_create_account}
use sman_server.Accounts.Store.Controls.{
  ConfigParams, insert_config, config_conflicts, create_control_config,
  update_control_config_status, release_control,
}
use sman_server.Accounts.Store.Limits.{LimitParams, create_limit, insert_limit, update_limit_status}
use sman_server.Accounts.Store.Identities.{
  of_external, create_identity, insert_identity, unbind_identity,
}
use sman_server.Accounts.Ledger.Params.{EntryParams, Ledger}
use sman_server.Accounts.Ledger.Entry.{record_entry, new_ledger}
use sman_server.Accounts.Ledger.Soundness.{IsSound}
use sman_server.Accounts.Ledger.Guarantees.{record_entry-IsSound, SameMoney-IsSound}
use sman_server.Accounts.Engine.{open_account, freeze, unfreeze, close, update_control_flags}
use sman_server.Accounts.Engine.Sound.{
  SoundAfter, freeze-SoundAfter, unfreeze-SoundAfter, close-SoundAfter,
  update_control_flags-SoundAfter, get_or_create_account-SoundAfter, open_account-SoundAfter,
}

-- The calls of the methods that write the database and may throw.
pub data Call : Type 0 where
  look_up : String → AccountType → Call
  open_call : String → AccountType → Option String → Call
  freeze_call unfreeze_call close_call : String → String → Option String → Call
  flags_call : String → String → Option String → Flags → Call
  new_config : ConfigParams → Call
  config_status : String → Switch → Call
  new_limit : LimitParams → Call
  limit_status : String → Switch → Call
  new_identity : String → String → String → Option String → Call
  unbind : String → Call
  release : ℕ → String → Call

module _ {A : Type 0} where
  -- What a call leaves: a call that throws is undone.
  abbrev pub left_by : AccountDb → Result (A × AccountDb) → AccountDb
  left_by s (ok (a, s')) = s'
  left_by s (err e) = s

  left_by-IsSound :
      (s : AccountDb) (r : Result (A × AccountDb))
      → IsSound s
      → SoundAfter r
      → IsSound (left_by s r)
  left_by-IsSound s (ok (a, s')) h k = k
  left_by-IsSound s (err e) h k = h

abbrev pub run_call : Env → Call → AccountDb → AccountDb
run_call env (look_up user type) s = left_by s (get_or_create_account env user type s)
run_call env (open_call user type operator) s = left_by s (open_account env user type operator s)
run_call env (freeze_call id reason operator) s = left_by s (freeze env id reason operator s)
run_call env (unfreeze_call id reason operator) s = left_by s (unfreeze env id reason operator s)
run_call env (close_call id reason operator) s = left_by s (close env id reason operator s)
run_call env (flags_call id reason operator flags) s =
    left_by s (update_control_flags env id reason operator flags s)
run_call env (new_config p) s = left_by s (create_control_config env p s)
run_call env (config_status id status) s = left_by s (update_control_config_status env id status s)
run_call env (new_limit p) s = left_by s (create_limit env p s)
run_call env (limit_status id status) s = left_by s (update_limit_status env id status s)
run_call env (new_identity account provider external metadata) s =
    left_by s (create_identity env account provider external metadata s)
run_call env (unbind id) s = left_by s (unbind_identity env id s)
run_call env (release id reason) s = release_control env id reason s

-- The ledgers that a server can come to from an empty database.
pub data Reachable : Ledger → Type 0 where
  start : Reachable (new_ledger empty_db)
  entry :
      (env : Env) (p : EntryParams) {l : Ledger} → Reachable l → Reachable (record_entry env p l).1
  call :
      (env : Env) (c : Call) {l : Ledger}
      → Reachable l
      → Reachable (record l { db = run_call env c l.db })

pub empty-IsSound : IsSound empty_db
unfolding get_account find_where
empty-IsSound = record {
  valid = record { unique = tt; nonneg = tt };
  linked = tt;
  events = tt;
  reconciled = λ j a g. absurd (cc);
}

module _ (env : Env) (s : AccountDb) (h : IsSound s) where
  insert_config-SoundAfter : (c : ControlConfig) → SoundAfter (insert_config c s)
  unfolding insert_config
  insert_config-SoundAfter c =
      elim (Bool-cases (exists_where (config_conflicts c) s.control_configs)) [
        | inl o ↦ rw o tt
        | inr o ↦ rw o (SameMoney-IsSound s _ (record { accounts = refl; txns = refl }) h)
      ]

  insert_limit-SoundAfter : (l : Limit) → SoundAfter (insert_limit l s)
  unfolding insert_limit
  insert_limit-SoundAfter l =
      elim (Bool-cases (exists_where (λ (k : Limit). k.id == l.id) s.limits)) [
        | inl o ↦ rw o tt
        | inr o ↦ rw o (SameMoney-IsSound s _ (record { accounts = refl; txns = refl }) h)
      ]

  insert_identity-SoundAfter : (i : AccountIdentity) → SoundAfter (insert_identity i s)
  unfolding insert_identity
  insert_identity-SoundAfter i =
      elim (Bool-cases (
        exists_where (λ (j : AccountIdentity). j.id == i.id) s.account_identities
        || exists_where (of_external i.provider i.external_id) s.account_identities)) [
          | inl o ↦ rw o tt
          | inr o ↦ rw o (SameMoney-IsSound s _ (record { accounts = refl; txns = refl }) h)
        ]

  run_call-IsSound : (c : Call) → IsSound (run_call env c s)
  unfolding update_control_config_status update_limit_status unbind_identity release_control
      create_control_config create_limit create_identity
  run_call-IsSound (look_up user type) =
      left_by-IsSound s _ h (get_or_create_account-SoundAfter env user type s h)
  run_call-IsSound (open_call user type operator) =
      left_by-IsSound s _ h (open_account-SoundAfter env user type s h operator)
  run_call-IsSound (freeze_call id reason operator) =
      left_by-IsSound s _ h (freeze-SoundAfter env id reason operator s h)
  run_call-IsSound (unfreeze_call id reason operator) =
      left_by-IsSound s _ h (unfreeze-SoundAfter env id reason operator s h)
  run_call-IsSound (close_call id reason operator) =
      left_by-IsSound s _ h (close-SoundAfter env id reason operator s h)
  run_call-IsSound (flags_call id reason operator flags) =
      left_by-IsSound s _ h (update_control_flags-SoundAfter env id reason operator s h flags)
  run_call-IsSound (new_config p) = left_by-IsSound s _ h (insert_config-SoundAfter _)
  run_call-IsSound (config_status id status) =
      SameMoney-IsSound s _ (record { accounts = refl; txns = refl }) h
  run_call-IsSound (new_limit p) = left_by-IsSound s _ h (insert_limit-SoundAfter _)
  run_call-IsSound (limit_status id status) =
      SameMoney-IsSound s _ (record { accounts = refl; txns = refl }) h
  run_call-IsSound (new_identity account provider external metadata) =
      left_by-IsSound s _ h (insert_identity-SoundAfter _)
  run_call-IsSound (unbind id) = SameMoney-IsSound s _ (record { accounts = refl; txns = refl }) h
  run_call-IsSound (release id reason) =
      SameMoney-IsSound s _ (record { accounts = refl; txns = refl }) h

-- Whatever is called, in whatever order, from an empty database on, with any clock and any random
-- draws, the books are sound after each call: no balance is negative, ids and events are unique,
-- each transaction names accounts that exist, and each balance is the sum of its credits less its
-- debits, where the accounts of the system's user have no debits.
pub Reachable-IsSound : {l : Ledger} → Reachable l → IsSound l.db
unfolding new_ledger
Reachable-IsSound start = empty-IsSound
Reachable-IsSound (entry env p {l} r) = record_entry-IsSound env p l (Reachable-IsSound r)
Reachable-IsSound (call env c {l} r) = run_call-IsSound env l.db (Reachable-IsSound r) c
