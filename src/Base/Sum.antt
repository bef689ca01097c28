-- ===== src/Base/Sum.antt =====
-- Sums over the rows of a table: COALESCE(SUM(…), 0).
use mathlib.Core.Path.{◌≡◌, refl}
use mathlib.Core.List.{List, [], ◌∷◌, ◌++◌}
use sman_server.Base.Int.{ℤ, pos, ◌+ℤ◌, int_laws}
use sman_server.Base.Rows.{All}

module _ {A : Type 0} where
  unfoldable pub sum_by : (A → ℤ) → List A → ℤ
  sum_by f [] = pos 0
  sum_by f (x ∷ xs) = f x +ℤ sum_by f xs

  pub sum_by-append :
      (f : A → ℤ) (xs ys : List A) → sum_by f (xs ++ ys) ≡ sum_by f xs +ℤ sum_by f ys
  unfolding sum_by
  sum_by-append f [] ys = omega int_laws
  sum_by-append f (x ∷ xs) ys = rw (sum_by-append f xs ys) (omega int_laws)

  pub sum_by_zero : (f : A → ℤ) (xs : List A) → All (λ x. f x ≡ pos 0) xs → sum_by f xs ≡ pos 0
  unfolding sum_by
  sum_by_zero f [] h = refl
  sum_by_zero f (x ∷ xs) h = rw (sum_by_zero f xs h.1, h.0) (omega int_laws)
