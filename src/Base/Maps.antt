-- ===== src/Base/Maps.antt =====
-- JavaScript's `Map` with text keys, as the list of its entries in the order of insertion.
use mathlib.Core.Path.{◌≡◌, refl, ◌∙◌}
use mathlib.Core.Logic.{inl, inr}
use mathlib.Core.Bool.{Bool, true, false}
use mathlib.Core.Option.{Option, none, some}
use mathlib.Core.List.{List, [], ◌∷◌}
use native.Mathlib.Omega.{arith}
use Prim.Native.String.{String}
use sman_server.Base.Compare.{Bool-cases, if◌then◌else◌}
use sman_server.Base.Keys.{◌==◌, ==_iff, string_eq}
use sman_server.Base.Rows.{exists_where}

-- A `Map` with text keys, in the order of insertion: `set` of a key that is there keeps its place.
module _ {V : Type 0} where
  abbrev pub has_key : String → List (String × V) → Bool
  has_key k m = exists_where (λ (e : String × V). e.0 == k) m

  pub set_entry : String → V → List (String × V) → List (String × V)
  set_entry k v [] = (k, v) ∷ []
  set_entry k v ((j, w) ∷ m) = if j == k then (j, v) ∷ m else (j, w) ∷ set_entry k v m

  -- The value of a key that is there, changed in place.
  pub change_entry : String → (V → V) → List (String × V) → List (String × V)
  change_entry k f [] = []
  change_entry k f ((j, w) ∷ m) = if j == k then (j, f w) ∷ m else (j, w) ∷ change_entry k f m

  -- `map.get(k)`.
  abbrev pub value_of : String → List (String × V) → Option V
  value_of k [] = none
  value_of k ((j, w) ∷ m) = if j == k then some w else value_of k m

  pub value_of-set_entry :
      (j k : String) (v : V) (m : List (String × V))
      → value_of j (set_entry k v m) ≡ (if k == j then some v else value_of j m)
  unfolding set_entry
  value_of-set_entry j k v [] = refl
  value_of-set_entry j k v ((i, w) ∷ m) = elim (Bool-cases (i == k)) [
    | inl y ↦ rw (y, (==_iff i k).0 y) (again (k == j))
    | inr n ↦ rw n (skip n (value_of-set_entry j k v m))
  ]
    where
      again :
          (b : Bool)
          → (if b then some v else value_of j m)
            ≡ (if b then some v else if b then some w else value_of j m)
      again true = refl
      again false = refl

      apart : (i == k) ≡ false → (i == j) ≡ true → (k == j) ≡ false
      apart n y = ground (arith, ==_iff i k, ==_iff i j, ==_iff k j)

      skip :
          (i == k) ≡ false
          → value_of j (set_entry k v m) ≡ (if k == j then some v else value_of j m)
          → (if i == j then some w else value_of j (set_entry k v m))
            ≡ (if k == j then some v else if i == j then some w else value_of j m)
      skip n h = elim (Bool-cases (i == j)) [ inl y ↦ rw (y, apart n y) refl | inr z ↦ rw z h ]

  -- `map.delete(k)`.
  pub delete_entry : String → List (String × V) → List (String × V)
  delete_entry k [] = []
  delete_entry k ((j, w) ∷ m) =
      let rest = delete_entry k m in if j == k then rest else (j, w) ∷ rest

  pub value_of-delete_entry :
      (j k : String) (m : List (String × V))
      → value_of j (delete_entry k m) ≡ (if k == j then none else value_of j m)
  unfolding delete_entry
  value_of-delete_entry j k [] = both (k == j)
    where
      nothing : Option V
      nothing = none

      both : (b : Bool) → nothing ≡ (if b then nothing else nothing)
      both true = refl
      both false = refl
  value_of-delete_entry j k ((i, w) ∷ m) =
      let rest = value_of-delete_entry j k m in
      elim (Bool-cases (i == k)) [
        | inl y ↦ elim (Bool-cases (i == j)) [
          | inl z ↦ rw y (rest ∙ ground (arith, ==_iff i k, ==_iff i j, ==_iff k j))
          | inr z ↦ rw (y, z) rest
        ]
        | inr n ↦ elim (Bool-cases (i == j)) [
          | inl z ↦ rw (n, z) (ground (arith, ==_iff i k, ==_iff i j, ==_iff k j))
          | inr z ↦ rw (n, z) rest
        ]
      ]
