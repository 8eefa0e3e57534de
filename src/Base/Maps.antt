-- ===== src/Base/Maps.antt =====
-- std::map with numbers for keys (hashes, or the addresses of objects), as an association list in
-- the order of its keys. Lists of records by a key share the laws.
use Prim.Native.Nat.{ℕ}
use mathlib.Core.Path.{◌≡◌}
use mathlib.Core.Bool.{Bool, true, false}
use mathlib.Core.List.{List, [], ◌∷◌}
use mathlib.Core.Option
use mathlib.Core.Option.{Option, none, some}
use native.Mathlib.Omega.{arith}
use gegelati.Base.Tests.{◌==◌, if◌then◌else◌, ltb}

module _ {ℓ} {V : Type ℓ} where
  -- `map.find`
  unfoldable pub lookup : List (ℕ × V) → ℕ → Option V
  lookup [] k = none
  lookup (e ∷ m) k = if e.0 == k then some e.1 else lookup m k

  -- `map.emplace` and `map.insert`: a key that is there keeps its value.
  unfoldable pub emplace : ℕ → V → List (ℕ × V) → List (ℕ × V)
  emplace k v [] = (k, v) ∷ []
  emplace k v (e ∷ m) =
      if k == e.0 then e ∷ m else if ltb k e.0 then (k, v) ∷ e ∷ m else e ∷ emplace k v m

  -- A change through the iterator that `find` returned.
  unfoldable pub adjust : ℕ → (V → V) → List (ℕ × V) → List (ℕ × V)
  adjust k f [] = []
  adjust k f (e ∷ m) = (if e.0 == k then (e.0, f e.1) else e) ∷ adjust k f m

  unfoldable pub erase_key : ℕ → List (ℕ × V) → List (ℕ × V)
  erase_key k [] = []
  erase_key k (e ∷ m) = if e.0 == k then erase_key k m else e ∷ erase_key k m

  abbrev pub is_some : Option V → Bool
  is_some none = false
  is_some (some v) = true

  abbrev pub has_key : List (ℕ × V) → ℕ → Bool
  has_key m k = is_some (lookup m k)

  abbrev pub DistinctKeys : List (ℕ × V) → Type 0
  DistinctKeys [] = Unit {0}
  DistinctKeys (e ∷ m) = (has_key m e.0 ≡ false) × DistinctKeys m

  pub lookup-emplace :
      (k : ℕ) (v : V) (m : List (ℕ × V)) (j : ℕ)
      → lookup m k ≡ none
      → lookup (emplace k v m) j ≡ (if k == j then some v else lookup m j)
  unfolding lookup emplace
  lookup-emplace k v [] j h = ground arith
  lookup-emplace k v (e ∷ m) j h = ground (arith, lookup-emplace k v m j)

  pub lookup-adjust :
      (k : ℕ) (f : V → V) (m : List (ℕ × V)) (j : ℕ)
      → lookup (adjust k f m) j ≡ (if k == j then Option.map f (lookup m j) else lookup m j)
  unfolding lookup adjust
  lookup-adjust k f [] j = ground arith
  lookup-adjust k f (e ∷ m) j = ground (arith, lookup-adjust k f m j)

  pub lookup-erase_key :
      (k : ℕ) (m : List (ℕ × V)) (j : ℕ)
      → lookup (erase_key k m) j ≡ (if k == j then none else lookup m j)
  unfolding lookup erase_key
  lookup-erase_key k [] j = ground arith
  lookup-erase_key k (e ∷ m) j = ground (arith, lookup-erase_key k m j)

  pub emplace-DistinctKeys :
      (k : ℕ) (v : V) (m : List (ℕ × V))
      → lookup m k ≡ none
      → DistinctKeys m
      → DistinctKeys (emplace k v m)
  unfolding lookup emplace
  emplace-DistinctKeys k v [] h d = ground arith
  emplace-DistinctKeys k v (e ∷ m) h d =
      ground (arith, emplace-DistinctKeys k v m, lookup-emplace k v m e.0)

  pub adjust-DistinctKeys :
      (k : ℕ) (f : V → V) (m : List (ℕ × V)) → DistinctKeys m → DistinctKeys (adjust k f m)
  unfolding adjust
  adjust-DistinctKeys k f [] d = tt
  adjust-DistinctKeys k f (e ∷ m) d =
      ground (arith, adjust-DistinctKeys k f m, lookup-adjust k f m e.0)

  pub erase_key-DistinctKeys :
      (k : ℕ) (m : List (ℕ × V)) → DistinctKeys m → DistinctKeys (erase_key k m)
  unfolding erase_key
  erase_key-DistinctKeys k [] d = tt
  erase_key-DistinctKeys k (e ∷ m) d =
      ground (arith, erase_key-DistinctKeys k m, lookup-erase_key k m e.0)
