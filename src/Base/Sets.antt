-- ===== src/Base/Sets.antt =====
-- JavaScript's `Set`, as the list of its members in the order of insertion.
use mathlib.Core.Path.{◌≡◌, refl}
use mathlib.Core.Logic.{inl, inr}
use mathlib.Core.Bool.{Bool, true, false, not, ◌&&◌, ◌||◌}
use mathlib.Core.List.{List, [], ◌∷◌, ◌++◌}
use native.Mathlib.Omega.{arith}
use sman_server.Base.Compare.{Bool-cases, if◌then◌else◌}
use sman_server.Base.Keys.{Eq, ◌==◌, ==_iff}
use sman_server.Base.Rows.{exists_where, delete_where}

module _ {A : Type 0} ⦃e : Eq A⦄ where
  -- `set.has(x)`, `set.add(x)`, `set.delete(x)`, and `new Set(xs)`.
  abbrev pub has : A → List A → Bool
  has x xs = exists_where (λ y. y == x) xs

  unfoldable pub add_member : A → List A → List A
  unfolding exists_where
  add_member x xs = if has x xs then xs else xs ++ x ∷ []

  unfoldable pub remove_member : A → List A → List A
  unfolding delete_where
  remove_member x xs = delete_where (λ y. y == x) xs

  unfoldable pub add_all : List A → List A → List A
  add_all [] set = set
  add_all (x ∷ xs) set = add_all xs (add_member x set)

  abbrev pub to_set : List A → List A
  to_set xs = add_all xs []

  has-snoc : (y x : A) (xs : List A) → has y (xs ++ x ∷ []) ≡ (has y xs || (x == y))
  unfolding exists_where
  has-snoc y x [] = ground arith
  has-snoc y x (z ∷ xs) = ground (arith, has-snoc y x xs)

  pub has-add_member : (y x : A) (xs : List A) → has y (add_member x xs) ≡ (has y xs || (x == y))
  unfolding add_member
  has-add_member y x xs = elim (Bool-cases (has x xs)) [
    | inl h ↦ elim (Bool-cases (x == y)) [
      | inl s ↦ rw h (has_same s h)
      | inr d ↦ rw (h, d) (or_false (has y xs))
    ]
    | inr n ↦ rw n (has-snoc y x xs)
  ]
    where
      or_false : (b : Bool) → b ≡ (b || false)
      or_false true = refl
      or_false false = refl

      has_same : (x == y) ≡ true → has x xs ≡ true → has y xs ≡ (has y xs || (x == y))
      has_same s h = rw (← (==_iff x y).0 s) (rw h refl)

  pub has-remove_member :
      (y x : A) (xs : List A) → has y (remove_member x xs) ≡ (not (x == y) && has y xs)
  unfolding remove_member exists_where delete_where
  has-remove_member y x [] = ground arith
  has-remove_member y x (z ∷ xs) =
      ground (arith, has-remove_member y x xs, ==_iff z x, ==_iff z y, ==_iff x y)
