-- ===== src/Base/Every.antt =====
-- A property of every element of a list, and the changes to a vector that keep it.
use Prim.Native.Nat.{ℕ, zero, suc}
use mathlib.Core.Path.{◌≡◌, subst}
use mathlib.Core.List.{List, [], ◌∷◌}
use mathlib.Core.Option.{some}
use native.Mathlib.Omega.{arith}
use gegelati.Base.Lists.{get_elem?, set, insert_at, erase_at}

module _ {ℓ} {A : Type ℓ} (P : A → Type 0) where
  abbrev pub Each : List A → Type 0
  Each [] = Unit {0}
  Each (x ∷ xs) = P x × Each xs

  pub Each-elem : (xs : List A) (i : ℕ) (a : A) → Each xs → get_elem? xs i ≡ some a → P a
  Each-elem [] i a all h = absurd (ground arith)
  Each-elem (x ∷ xs) zero a all h = let same : x ≡ a = cc in subst P same all.0
  Each-elem (x ∷ xs) (suc i) a all h = Each-elem xs i a all.1 h

  pub Each-set : (xs : List A) (i : ℕ) (a : A) → Each xs → P a → Each (set xs i a)
  Each-set [] i a all here = tt
  Each-set (x ∷ xs) zero a all here = (here, all.1)
  Each-set (x ∷ xs) (suc i) a all here = (all.0, Each-set xs i a all.1 here)

  pub Each-insert_at : (xs : List A) (i : ℕ) (a : A) → Each xs → P a → Each (insert_at xs i a)
  Each-insert_at xs zero a all here = (here, all)
  Each-insert_at [] (suc i) a all here = tt
  Each-insert_at (x ∷ xs) (suc i) a all here = (all.0, Each-insert_at xs i a all.1 here)

  pub Each-erase_at : (xs : List A) (i : ℕ) → Each xs → Each (erase_at xs i)
  Each-erase_at [] i all = tt
  Each-erase_at (x ∷ xs) zero all = all.1
  Each-erase_at (x ∷ xs) (suc i) all = (all.0, Each-erase_at xs i all.1)
