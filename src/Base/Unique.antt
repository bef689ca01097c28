-- ===== src/Base/Unique.antt =====
-- Tables with a key that no two rows share: what a SELECT by key returns, and what an UPDATE by key
-- changes.
use mathlib.Core.Path.{◌≡◌, refl, sym, ◌∙◌}
use mathlib.Core.Logic.{inl, inr}
use mathlib.Core.Bool.{Bool, true, false, ◌&&◌}
use mathlib.Core.Option.{some, some-injective}
use mathlib.Core.List.{List, [], ◌∷◌}
use native.Mathlib.Omega.{arith}
use sman_server.Base.Compare.{Bool-cases}
use sman_server.Base.Keys.{Eq, ◌==◌, ==_iff}
use sman_server.Base.Rows.{All, IsUnique, find_where, exists_where, update_where}

module _ {A : Type 0} where
  pub exists_where_absurd :
      (p : A → Bool) (xs : List A) → All (λ y. ¬ (p y ≡ true)) xs → ¬ (exists_where p xs ≡ true)
  unfolding exists_where
  exists_where_absurd p [] h e = cc
  exists_where_absurd p (x ∷ xs) h e = elim (Bool-cases (p x)) [
    | inl t ↦ h.0 t
    | inr f ↦ exists_where_absurd p xs h.1 (rw f at e)
  ]

  pub exists_where-false :
      (p : A → Bool) (xs : List A) → exists_where p xs ≡ false → All (λ x. p x ≡ false) xs
  unfolding exists_where
  exists_where-false p [] e = tt
  exists_where-false p (x ∷ xs) e = (ground arith, exists_where-false p xs (ground arith))

  -- An UPDATE keeps what each changed row keeps.
  pub All-update_where :
      (P : A → Type 0) (q : A → Bool) (f : A → A) (xs : List A)
      → All (λ x. q x ≡ true → P (f x)) xs
      → All P xs
      → All P (update_where q f xs)
  unfolding update_where
  All-update_where P q f [] h hs = tt
  All-update_where P q f (x ∷ xs) h hs = elim (Bool-cases (q x)) [
    | inl t ↦ (rw t (h.0 t), All-update_where P q f xs h.1 hs.1)
    | inr n ↦ (rw n hs.0, All-update_where P q f xs h.1 hs.1)
  ]

module _ {A : Type 0} {K : Type 0} ⦃e : Eq K⦄ (key : A → K) where
  -- The row found by any test is the row found by its key.
  pub find_where_unique :
      (p : A → Bool) (xs : List A) {a : A}
      → IsUnique key xs
      → find_where p xs ≡ some a
      → find_where (λ x. key x == key a) xs ≡ some a
  unfolding find_where
  find_where_unique p [] u h = cc
  find_where_unique p (x ∷ xs) {a} u h = elim (Bool-cases (p x)) [
    | inl t ↦
        let same : x ≡ a = some-injective _ _ (rw t at h) in
        rw (← same) (rw ((==_iff (key x) (key x)).1 refl))
    | inr f ↦
        let deeper : find_where p xs ≡ some a = rw f at h in
        let found = find_where_unique p xs u.1 deeper in
        elim (Bool-cases (key x == key a)) [
          | inl t ↦ absurd (apart (key a) xs u.0 ((==_iff (key x) (key a)).0 t) found)
          | inr n ↦ rw n found
        ]
  ]
    where
      apart :
          (k : K) (ys : List A)
          → All (λ y. ¬ (key x ≡ key y)) ys
          → key x ≡ k
          → ¬ (find_where (λ y. key y == k) ys ≡ some a)
      apart k [] h1 q g = cc
      apart k (y ∷ ys) h1 q g = elim (Bool-cases (key y == k)) [
        | inl t ↦ h1.0 (q ∙ sym ((==_iff (key y) k).0 t))
        | inr n ↦ apart k ys h1.1 q (rw n at g)
      ]

  none_with_key :
      (k : K) (q : A → Bool) (xs : List A)
      → All (λ y. ¬ (k ≡ key y)) xs
      → ¬ (exists_where (λ y. key y == k && q y) xs ≡ true)
  unfolding exists_where
  none_with_key k q [] h g = cc
  none_with_key k q (x ∷ xs) h g = elim (Bool-cases (key x == k)) [
    | inl t ↦ h.0 (sym ((==_iff (key x) k).0 t))
    | inr n ↦ none_with_key k q xs h.1 (rw n at g)
  ]

  -- A further test that some row of the key passes is passed by the row found by the key.
  pub exists_where_unique :
      (k : K) (q : A → Bool) (xs : List A) {a : A}
      → IsUnique key xs
      → find_where (λ x. key x == k) xs ≡ some a
      → exists_where (λ x. key x == k && q x) xs ≡ true
      → q a ≡ true
  unfolding find_where exists_where
  exists_where_unique k q [] u h g = cc
  exists_where_unique k q (x ∷ xs) {a} u h g = elim (Bool-cases (key x == k)) [
    | inl t ↦
        let same : x ≡ a = some-injective _ _ (rw t at h) in
        elim (Bool-cases (q x)) [
          | inl r ↦ rw (← same) r
          | inr r ↦
              absurd (none_with_key k q xs (rw ((==_iff (key x) k).0 t) at u.0) (rw (t, r) at g))
        ]
    | inr n ↦ exists_where_unique k q xs u.1 (rw n at h) (rw n at g)
  ]
