-- ===== src/Base/Rows.antt =====
-- Tables as lists of rows, in the order of insertion, and the statements that the stores run on
-- them: SELECT one row, SELECT all, COUNT, UPDATE and DELETE, each by the test of its WHERE clause.
use Prim.Native.Nat.{ℕ, zero, suc, ◌+◌}
use mathlib.Core.Path.{◌≡◌, refl, subst}
use mathlib.Core.Logic.{inl, inr}
use mathlib.Core.Bool.{Bool, true, false}
use mathlib.Core.Option.{Option, none, some, some-injective}
use mathlib.Core.List.{List, [], ◌∷◌, ◌++◌, Mem, mem-cons_self, mem-cons_of_mem}
use native.Mathlib.Omega.{arith}
use sman_server.Base.Compare.{is_some, Bool-cases, if◌then◌else◌}

-- What a value that may be missing turns into, and the first of two such values.
abbrev pub map_option {ℓ κ} : {A : Type ℓ} {B : Type κ} → (A → B) → Option A → Option B
map_option f none = none
map_option f (some a) = some (f a)

abbrev pub or_else {ℓ} : {A : Type ℓ} → Option A → Option A → Option A
or_else none b = b
or_else (some a) b = some a

-- A predicate of every row.
abbrev pub All {ℓ κ} : {A : Type ℓ} → (A → Type κ) → List A → Type κ
All P [] = Unit
All P (x ∷ xs) = P x × All P xs

module _ {ℓ} {A : Type ℓ} where
  abbrev pub length : List A → ℕ
  length [] = 0
  length (x ∷ xs) = suc (length xs)

  -- The first `n` rows: `LIMIT n`.
  abbrev pub take : ℕ → List A → List A
  take zero xs = []
  take (suc n) [] = []
  take (suc n) (x ∷ xs) = x ∷ take n xs

  unfoldable pub find_where : (A → Bool) → List A → Option A
  find_where p [] = none
  find_where p (x ∷ xs) = if p x then some x else find_where p xs

  unfoldable pub select_where : (A → Bool) → List A → List A
  select_where p [] = []
  select_where p (x ∷ xs) = let rest = select_where p xs in if p x then x ∷ rest else rest

  unfoldable pub count_where : (A → Bool) → List A → ℕ
  count_where p [] = 0
  count_where p (x ∷ xs) = (if p x then 1 else 0) + count_where p xs

  unfoldable pub exists_where : (A → Bool) → List A → Bool
  exists_where p [] = false
  exists_where p (x ∷ xs) = if p x then true else exists_where p xs

  unfoldable pub update_where : (A → Bool) → (A → A) → List A → List A
  update_where p f [] = []
  update_where p f (x ∷ xs) = (if p x then f x else x) ∷ update_where p f xs

  unfoldable pub delete_where : (A → Bool) → List A → List A
  delete_where p [] = []
  delete_where p (x ∷ xs) = let rest = delete_where p xs in if p x then rest else x ∷ rest

module _ {ℓ} {A : Type ℓ} where
  pub All-append : (P : A → Type 0) (xs ys : List A) → All P xs → All P ys → All P (xs ++ ys)
  All-append P [] ys hx hy = hy
  All-append P (x ∷ xs) ys hx hy = (hx.0, All-append P xs ys hx.1 hy)

  pub All-weaken : (P Q : A → Type 0) (xs : List A) → ((x : A) → P x → Q x) → All P xs → All Q xs
  All-weaken P Q [] f h = tt
  All-weaken P Q (x ∷ xs) f h = (f x h.0, All-weaken P Q xs f h.1)

  pub find_where-true : (p : A → Bool) (xs : List A) {a : A} → find_where p xs ≡ some a → p a ≡ true
  unfolding find_where
  find_where-true p [] e = cc
  find_where-true p (x ∷ xs) e = elim (Bool-cases (p x)) [
    | inl t ↦ rw (← some-injective _ _ (rw t at e)) t
    | inr f ↦ find_where-true p xs (rw f at e)
  ]

  pub find_where-All :
      (P : A → Type 0) (p : A → Bool) (xs : List A) {a : A}
      → All P xs
      → find_where p xs ≡ some a
      → P a
  unfolding find_where
  find_where-All P p [] h e = cc
  find_where-All P p (x ∷ xs) h e = elim (Bool-cases (p x)) [
    | inl t ↦ subst P (some-injective _ _ (rw t at e)) h.0
    | inr f ↦ find_where-All P p xs h.1 (rw f at e)
  ]

  pub find_where-append :
      (p : A → Bool) (xs ys : List A)
      → find_where p (xs ++ ys) ≡ or_else (find_where p xs) (find_where p ys)
  unfolding find_where
  find_where-append p [] ys = refl
  find_where-append p (x ∷ xs) ys = ground (arith, find_where-append p xs ys)

  -- An UPDATE that leaves the test of a SELECT alone changes the row that the SELECT returns.
  pub find_where-update_where :
      (p q : A → Bool) (f : A → A) (xs : List A)
      → ((x : A) → p (f x) ≡ p x)
      → find_where p (update_where q f xs)
        ≡ map_option (λ x. if q x then f x else x) (find_where p xs)
  unfolding find_where update_where
  find_where-update_where p q f [] same = refl
  find_where-update_where p q f (x ∷ xs) same =
      ground (arith, find_where-update_where p q f xs same, same x)

  pub find_where-none :
      (p : A → Bool) (xs : List A) → find_where p xs ≡ none → All (λ x. p x ≡ false) xs
  unfolding find_where
  find_where-none p [] e = tt
  find_where-none p (x ∷ xs) e = (ground arith, find_where-none p xs (ground arith))

  pub exists_where-eq-is_some :
      (p : A → Bool) (xs : List A) → exists_where p xs ≡ is_some (find_where p xs)
  unfolding exists_where find_where
  exists_where-eq-is_some p [] = refl
  exists_where-eq-is_some p (x ∷ xs) = ground (arith, exists_where-eq-is_some p xs)

  pub count_where-append :
      (p : A → Bool) (xs ys : List A)
      → count_where p (xs ++ ys) ≡ count_where p xs + count_where p ys
  unfolding count_where
  count_where-append p [] ys = omega arith
  count_where-append p (x ∷ xs) ys = omega (arith, count_where-append p xs ys)

  -- No row passes the test.
  pub count_where_zero :
      (p : A → Bool) (xs : List A) → find_where p xs ≡ none → count_where p xs ≡ 0
  unfolding find_where count_where
  count_where_zero p [] e = refl
  count_where_zero p (x ∷ xs) e = ground (arith, count_where_zero p xs)

-- Rows with a key of their own: PRIMARY KEY, UNIQUE.
module _ {A : Type 0} {K : Type 0} (key : A → K) where
  abbrev pub IsUnique : List A → Type 0
  IsUnique [] = Unit
  IsUnique (x ∷ xs) = All (λ y. ¬ (key x ≡ key y)) xs × IsUnique xs

  pub IsUnique-snoc :
      (xs : List A) (y : A)
      → IsUnique xs
      → All (λ x. ¬ (key x ≡ key y)) xs
      → IsUnique (xs ++ y ∷ [])
  IsUnique-snoc [] y u h = (tt, tt)
  IsUnique-snoc (x ∷ xs) y u h =
      (All-append _ xs (y ∷ []) u.0 (h.0, tt), IsUnique-snoc xs y u.1 h.1)

  All-key-update_where :
      (k : K) (q : A → Bool) (f : A → A) (xs : List A)
      → ((x : A) → key (f x) ≡ key x)
      → All (λ y. ¬ (k ≡ key y)) xs
      → All (λ y. ¬ (k ≡ key y)) (update_where q f xs)
  unfolding update_where
  All-key-update_where k q f [] same h = tt
  All-key-update_where k q f (x ∷ xs) same h = (
    elim (q x) as (λ b. ¬ (k ≡ key (if b then f x else x))) [
      | true ↦ rw (same x) h.0
      | false ↦ h.0
    ],
    All-key-update_where k q f xs same h.1,
  )

  -- An UPDATE that leaves the key alone keeps the keys apart.
  pub IsUnique-update_where :
      (q : A → Bool) (f : A → A) (xs : List A)
      → ((x : A) → key (f x) ≡ key x)
      → IsUnique xs
      → IsUnique (update_where q f xs)
  unfolding update_where
  IsUnique-update_where q f [] same u = tt
  IsUnique-update_where q f (x ∷ xs) same u = (
    elim (q x) as (λ b. All (λ y. ¬ (key (if b then f x else x) ≡ key y)) (update_where q f xs)) [
      | true ↦ rw (same x) (All-key-update_where (key x) q f xs same u.0)
      | false ↦ All-key-update_where (key x) q f xs same u.0
    ],
    IsUnique-update_where q f xs same u.1,
  )

module _ {A : Type 0} where
  pub All-Mem : (xs : List A) → All (λ x. Mem x xs) xs
  All-Mem [] = tt
  All-Mem (x ∷ xs) = (
    mem-cons_self,
    All-weaken (λ y. Mem y xs) (λ y. Mem y (x ∷ xs)) xs (λ y m. mem-cons_of_mem x m) (All-Mem xs),
  )
