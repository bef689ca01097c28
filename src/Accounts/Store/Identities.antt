-- ===== src/Accounts/Store/Identities.antt =====
-- The methods on `account_identities`.
use sman_server.Base.{
  ◌+◌, String, Bool, true, false, ◌&&◌, ◌||◌, Option, List, [], ◌∷◌, ◌++◌, ◌==◌, string_eq,
  find_where, exists_where, select_where, update_where, if◌then◌else◌,
}
use sman_server.Accounts.Faults.{Result, ok, err, unique_failed}
use sman_server.Accounts.Store.Tables.{
  AccountDb, AccountIdentity, IdentityStatus, active, unbound, Env,
}
use sman_server.Accounts.Store.Monad.{M, modify}
use sman_server.Accounts.Store.Rows.{gen_id}

abbrev pub of_external : String → String → AccountIdentity → Bool
of_external provider external_id i = i.provider == provider && i.external_id == external_id

unfoldable pub insert_identity : AccountIdentity → AccountDb → Result (AccountIdentity × AccountDb)
insert_identity i s =
    if exists_where (λ (j : AccountIdentity). j.id == i.id) s.account_identities
      || exists_where (of_external i.provider i.external_id) s.account_identities
    then err (unique_failed "account_identities")
    else ok
        (i, record s { account_identities = s.account_identities ++ i ∷ []; draws = s.draws + 1 })

unfoldable pub create_identity : Env → String → String → String → Option String → M AccountIdentity
create_identity env account_id provider external_id metadata s =
    insert_identity
      (record {
        id = gen_id env "aim" s;
        account_id = account_id;
        provider = provider;
        external_id = external_id;
        metadata = metadata;
        status = active;
        created_at = env.now;
        updated_at = env.now;
      })
      s

unfoldable pub get_identity_by_external : String → String → AccountDb → Option AccountIdentity
get_identity_by_external provider external_id s =
    find_where (of_external provider external_id) s.account_identities

abbrev pub is_active : IdentityStatus → Bool
is_active active = true
is_active unbound = false

unfoldable pub get_identities_by_account : String → AccountDb → List AccountIdentity
get_identities_by_account account_id s =
    select_where (λ (i : AccountIdentity). i.account_id == account_id && is_active i.status)
      s.account_identities

unfoldable pub unbind_identity : Env → String → M (Unit {0})
unbind_identity env id = modify λ s. record s {
  account_identities =
      update_where (λ (i : AccountIdentity). i.id == id)
        (λ i. record i { status = unbound; updated_at = env.now }) s.account_identities;
}
