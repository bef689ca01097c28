-- ===== src/Accounts/Store/Monad.antt =====
-- Methods that read and write the database and may throw. What was written before a throw is
-- undone by the transaction around it, so a throw carries no database.
use sman_server.Base.{Bool, true, false}
use sman_server.Accounts.Faults.{Fault, Result, ok, err}
use sman_server.Accounts.Store.Tables.{AccountDb}

abbrev pub M : Type 0 → Type 0
M A = AccountDb → Result (A × AccountDb)

module _ {A : Type 0} where
  abbrev pub pure : A → M A
  pure a s = ok (a, s)

  abbrev pub throw : Fault → M A
  throw f s = err f

  -- A read.
  abbrev pub gets : (AccountDb → A) → M A
  gets f s = ok (f s, s)

module _ {A B : Type 0} where
  abbrev pub continue : Result (A × AccountDb) → (A → M B) → Result (B × AccountDb)
  continue (ok (a, s)) f = f a s
  continue (err e) f = err e

  infixl 5 ◌>>=◌
  abbrev pub ◌>>=◌ : M A → (A → M B) → M B
  ◌>>=◌ m f s = continue (m s) f

infixl 5 ◌>>◌
abbrev pub ◌>>◌ : {B : Type 0} → M (Unit {0}) → M B → M B
m >> k = m >>= λ _. k

-- A write that cannot fail.
abbrev pub modify : (AccountDb → AccountDb) → M (Unit {0})
modify f s = ok (tt, f s)

abbrev pub throw_if : Bool → Fault → M (Unit {0})
throw_if true f = throw f
throw_if false f = pure tt

-- What holds of the result and the database of a call that returns.
abbrev pub Ensures {ℓ} : {A : Type 0} → (A → AccountDb → Type ℓ) → Result (A × AccountDb) → Type ℓ
Ensures P (ok (a, s)) = P a s
Ensures P (err e) = Unit

module _ {ℓ κ} {A : Type 0} (P : A → AccountDb → Type ℓ) (Q : A → AccountDb → Type κ) where
  pub Ensures-weaken :
      (r : Result (A × AccountDb))
      → ((a : A) (s : AccountDb) → P a s → Q a s)
      → Ensures P r
      → Ensures Q r
  Ensures-weaken (ok (a, s)) f h = f a s h
  Ensures-weaken (err e) f h = tt

-- The rule for a bind.
module _ {ℓ κ} {A B : Type 0} (P : A → AccountDb → Type ℓ) (Q : B → AccountDb → Type κ) where
  pub Ensures-bind :
      (f : A → M B) (r : Result (A × AccountDb))
      → ((a : A) (s : AccountDb) → P a s → Ensures Q (f a s))
      → Ensures P r
      → Ensures Q (continue r f)
  Ensures-bind f (ok (a, s)) next h = next a s h
  Ensures-bind f (err e) next h = tt
