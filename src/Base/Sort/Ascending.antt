-- ===== src/Base/Sort/Ascending.antt =====
-- ORDER BY a numeric column ASC with a LIMIT: what the first rows of the sorted table are.
use Prim.Native.Nat.{ℕ, zero, suc, ◌≤◌}
use mathlib.Core.Path.{◌≡◌, refl, ap}
use mathlib.Core.List.{List, [], ◌∷◌, Mem, mem-cons_self, mem-cons_of_mem}
use mathlib.Core.Logic.{◌⊎◌, inl, inr}
use native.Mathlib.Omega.{arith}
use sman_server.Base.Compare.{ltb, Bool-cases, ltb→lt}
use sman_server.Base.Rows.{All, All-weaken, length, take}
use sman_server.Base.Sort.{sort_asc, insert_after}

module _ {A : Type 0} where
  All-zip : (P Q : A → Type 0) (xs : List A) → All P xs → All Q xs → All (λ x. P x × Q x) xs
  All-zip P Q [] f g = tt
  All-zip P Q (x ∷ xs) f g = ((f.0, g.0), All-zip P Q xs f.1 g.1)

  pub take-All : (P : A → Type 0) (n : ℕ) (xs : List A) → All P xs → All P (take n xs)
  take-All P zero xs h = tt
  take-All P (suc n) [] h = tt
  take-All P (suc n) (x ∷ xs) h = (h.0, take-All P n xs h.1)

  pub length-take : (n : ℕ) (xs : List A) → length (take n xs) ≤ n
  length-take zero xs = omega arith
  length-take (suc n) [] = omega arith
  length-take (suc n) (x ∷ xs) = omega (arith, length-take n xs)

module _ {A : Type 0} (key : A → ℕ) where
  insert_after-All :
      (P : A → Type 0) (a : A) (xs : List A) → P a → All P xs → All P (insert_after key a xs)
  unfolding insert_after
  insert_after-All P a [] h hs = (h, tt)
  insert_after-All P a (x ∷ xs) h hs = ground (arith, insert_after-All P a xs h hs.1)

  pub sort_asc-All : (P : A → Type 0) (xs : List A) → All P xs → All P (sort_asc key xs)
  unfolding sort_asc
  sort_asc-All P [] h = tt
  sort_asc-All P (x ∷ xs) h = insert_after-All P x (sort_asc key xs) h.0 (sort_asc-All P xs h.1)

  abbrev pub IsAscending : List A → Type 0
  IsAscending [] = Unit
  IsAscending (x ∷ xs) = All (λ y. key x ≤ key y) xs × IsAscending xs

  All-of_insert_after :
      (P : A → Type 0) (a : A) (xs : List A) → All P (insert_after key a xs) → P a × All P xs
  unfolding insert_after
  All-of_insert_after P a [] h = (h.0, tt)
  All-of_insert_after P a (x ∷ xs) h = elim (Bool-cases (ltb (key x) (key a))) [
    | inl t ↦
        let g : P x × All P (insert_after key a xs) = rw t at h in
        let r = All-of_insert_after P a xs g.1 in (r.0, (g.0, r.1))
    | inr f ↦ let g : P a × All P (x ∷ xs) = rw f at h in g
  ]

  pub All-of_sort_asc : (P : A → Type 0) (xs : List A) → All P (sort_asc key xs) → All P xs
  unfolding sort_asc
  All-of_sort_asc P [] h = tt
  All-of_sort_asc P (x ∷ xs) h =
      let r = All-of_insert_after P x (sort_asc key xs) h in (r.0, All-of_sort_asc P xs r.1)

  insert_after-IsAscending :
      (a : A) (xs : List A) → IsAscending xs → IsAscending (insert_after key a xs)
  unfolding insert_after
  insert_after-IsAscending a [] h = (tt, tt)
  insert_after-IsAscending a (x ∷ xs) h = elim (Bool-cases (ltb (key x) (key a))) [
    | inl t ↦ rw t (
      insert_after-All (λ y. key x ≤ key y) a xs (omega (arith, ltb→lt _ _ t)) h.0,
      insert_after-IsAscending a xs h.1,
    )
    | inr f ↦
        let le : key a ≤ key x = ground arith in
        rw f (
          (le, All-weaken (λ y. key x ≤ key y) (λ y. key a ≤ key y) xs (λ y g. omega arith) h.0),
          h,
        )
  ]

  pub sort_asc-IsAscending : (xs : List A) → IsAscending (sort_asc key xs)
  unfolding sort_asc
  sort_asc-IsAscending [] = tt
  sort_asc-IsAscending (x ∷ xs) =
      insert_after-IsAscending x (sort_asc key xs) (sort_asc-IsAscending xs)

  pub take-IsAscending : (n : ℕ) (xs : List A) → IsAscending xs → IsAscending (take n xs)
  take-IsAscending zero xs h = tt
  take-IsAscending (suc n) [] h = tt
  take-IsAscending (suc n) (x ∷ xs) h =
      (take-All (λ y. key x ≤ key y) n xs h.0, take-IsAscending n xs h.1)

  -- A row that the limit cuts off is not before any row that is returned, and the limit is reached.
  abbrev pub FirstOf : ℕ → List A → A → Type 0
  FirstOf n xs x = Mem x xs ⊎ ((length xs ≡ n) × All (λ y. key y ≤ key x) xs)

  take-FirstOf : (n : ℕ) (xs : List A) → IsAscending xs → All (FirstOf n (take n xs)) xs
  take-FirstOf zero [] h = tt
  take-FirstOf zero (x ∷ xs) h = (inr (refl, tt), take-FirstOf zero xs h.1)
  take-FirstOf (suc n) [] h = tt
  take-FirstOf (suc n) (x ∷ xs) h = (
    inl mem-cons_self,
    All-weaken (λ y. (key x ≤ key y) × FirstOf n (take n xs) y) (FirstOf (suc n) (x ∷ take n xs)) xs
        (λ y g. elim g.1 [
          | inl m ↦ inl (mem-cons_of_mem x m)
          | inr r ↦ inr (ap suc r.0, (g.0, r.1))
        ])
        (All-zip (λ y. key x ≤ key y) (FirstOf n (take n xs)) xs h.0 (take-FirstOf n xs h.1)),
  )

  pub sorted-FirstOf : (n : ℕ) (xs : List A) → All (FirstOf n (take n (sort_asc key xs))) xs
  sorted-FirstOf n xs =
      All-of_sort_asc (FirstOf n (take n (sort_asc key xs))) xs
        (take-FirstOf n (sort_asc key xs) (sort_asc-IsAscending xs))
