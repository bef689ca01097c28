-- ===== src/Base/Sort.antt =====
-- ORDER BY a numeric column, the largest first. Rows with the same value keep the order of the
-- table, where SQLite promises none.
pub mod Ascending
use Prim.Native.Nat.{ℕ, ◌≤◌}
use mathlib.Core.Path.{◌≡◌}
use mathlib.Core.Bool.{Bool, true}
use mathlib.Core.List.{List, [], ◌∷◌}
use native.Mathlib.Omega.{arith}
use mathlib.Core.Logic.{inl, inr}
use sman_server.Base.Compare.{ltb, Bool-cases, if◌then◌else◌}
use sman_server.Base.Rows.{All, select_where}

module _ {A : Type 0} (key : A → ℕ) where
  -- Insertion from the right end puts a row before the later rows of its value.
  insert_before : A → List A → List A
  insert_before a [] = a ∷ []
  insert_before a (x ∷ xs) = if ltb (key a) (key x) then x ∷ insert_before a xs else a ∷ x ∷ xs

  unfoldable pub sort_desc : List A → List A
  unfolding insert_before
  sort_desc [] = []
  sort_desc (x ∷ xs) = insert_before x (sort_desc xs)

  -- The same in ascending order.
  insert_after : A → List A → List A
  insert_after a [] = a ∷ []
  insert_after a (x ∷ xs) = if ltb (key x) (key a) then x ∷ insert_after a xs else a ∷ x ∷ xs

  unfoldable pub sort_asc : List A → List A
  unfolding insert_after
  sort_asc [] = []
  sort_asc (x ∷ xs) = insert_after x (sort_asc xs)

  insert_before-All :
      (P : A → Type 0) (a : A) (xs : List A) → P a → All P xs → All P (insert_before a xs)
  unfolding insert_before
  insert_before-All P a [] h hs = (h, tt)
  insert_before-All P a (x ∷ xs) h hs = ground (arith, insert_before-All P a xs h hs.1)

  -- Sorting drops no row: what holds of every row of the table holds of every row of the result.
  pub sort_desc-All : (P : A → Type 0) (xs : List A) → All P xs → All P (sort_desc xs)
  unfolding sort_desc
  sort_desc-All P [] h = tt
  sort_desc-All P (x ∷ xs) h = insert_before-All P x (sort_desc xs) h.0 (sort_desc-All P xs h.1)

  abbrev pub IsDescending : List A → Type 0
  IsDescending [] = Unit
  IsDescending (x ∷ xs) = All (λ y. key y ≤ key x) xs × IsDescending xs

  All-le : (m n : ℕ) (xs : List A) → m ≤ n → All (λ y. key y ≤ m) xs → All (λ y. key y ≤ n) xs
  All-le m n [] h hs = tt
  All-le m n (x ∷ xs) h hs = (omega arith, All-le m n xs h hs.1)

  insert_before-IsDescending :
      (a : A) (xs : List A) → IsDescending xs → IsDescending (insert_before a xs)
  unfolding insert_before
  insert_before-IsDescending a [] d = (tt, tt)
  insert_before-IsDescending a (x ∷ xs) d = elim (Bool-cases (ltb (key a) (key x))) [
    | inl t ↦ rw t (
      insert_before-All (λ y. key y ≤ key x) a xs (ground arith) d.0,
      insert_before-IsDescending a xs d.1,
    )
    | inr f ↦ rw f ((ground arith, All-le (key x) (key a) xs (ground arith) d.0), d)
  ]

  -- The first row of the result has the largest value of all.
  pub sort_desc-IsDescending : (xs : List A) → IsDescending (sort_desc xs)
  unfolding sort_desc
  sort_desc-IsDescending [] = tt
  sort_desc-IsDescending (x ∷ xs) =
      insert_before-IsDescending x (sort_desc xs) (sort_desc-IsDescending xs)

  All-of_insert_before :
      (P : A → Type 0) (a : A) (xs : List A) → All P (insert_before a xs) → P a × All P xs
  unfolding insert_before
  All-of_insert_before P a [] h = (h.0, tt)
  All-of_insert_before P a (x ∷ xs) h = elim (Bool-cases (ltb (key a) (key x))) [
    | inl t ↦
        let g : P x × All P (insert_before a xs) = rw t at h in
        let r = All-of_insert_before P a xs g.1 in (r.0, (g.0, r.1))
    | inr f ↦ rw f at h
  ]

  pub All-of_sort_desc : (P : A → Type 0) (xs : List A) → All P (sort_desc xs) → All P xs
  unfolding sort_desc
  All-of_sort_desc P [] h = tt
  All-of_sort_desc P (x ∷ xs) h =
      let r = All-of_insert_before P x (sort_desc xs) h in (r.0, All-of_sort_desc P xs r.1)

module _ {A : Type 0} (P : A → Type 0) (p : A → Bool) where
  -- What holds of the selected rows is what holds of the rows that pass the test.
  pub All-select_where : (xs : List A) → All (λ x. p x ≡ true → P x) xs → All P (select_where p xs)
  unfolding select_where
  All-select_where [] h = tt
  All-select_where (x ∷ xs) h = elim (Bool-cases (p x)) [
    | inl t ↦ rw t (h.0 t, All-select_where xs h.1)
    | inr f ↦ rw f (All-select_where xs h.1)
  ]

  pub All-of_select_where :
      (xs : List A) → All P (select_where p xs) → All (λ x. p x ≡ true → P x) xs
  unfolding select_where
  All-of_select_where [] h = tt
  All-of_select_where (x ∷ xs) h = elim (Bool-cases (p x)) [
    | inl t ↦
        let g : P x × All P (select_where p xs) = rw t at h in
        (λ _. g.0, All-of_select_where xs g.1)
    | inr f ↦ let g : All P (select_where p xs) = rw f at h in (λ t. cc, All-of_select_where xs g)
  ]
