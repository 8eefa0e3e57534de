-- ===== src/Base/Members.antt =====
-- Lists of addresses as std::list and std::vector use them: membership, insertion, removal.
use Prim.Native.Nat.{ℕ, suc, ◌<◌, ◌≤◌}
use mathlib.Core.Path.{◌≡◌, refl, ap, ◌∙◌}
use mathlib.Core.Bool.{Bool, true, false, not, ◌&&◌, ◌||◌}
use mathlib.Core.List.{List, [], ◌∷◌, ◌++◌}
use native.Mathlib.Omega.{arith}
use mathlib.Core.Logic.{inl, inr}
use gegelati.Base.Tests.{Bool-cases, ◌==◌, if◌then◌else◌}
use gegelati.Base.Lists.{length}

-- Membership by the numbers' equality.
abbrev pub member : ℕ → List ℕ → Bool
member a [] = false
member a (x ∷ xs) = (x == a) || member a xs

-- `set.insert`, and the guarded `push_back` of the vertices' edge lists: at the end, if not there.
unfoldable pub add_new : ℕ → List ℕ → List ℕ
add_new a xs = if member a xs then xs else xs ++ a ∷ []

-- `list.remove` and `set.erase`: every copy goes.
unfoldable pub remove : ℕ → List ℕ → List ℕ
remove a [] = []
remove a (x ∷ xs) = if x == a then remove a xs else x ∷ remove a xs

pub member-append : (a : ℕ) (xs ys : List ℕ) → member a (xs ++ ys) ≡ (member a xs || member a ys)
member-append a [] ys = refl
member-append a (x ∷ xs) ys = ground (arith, member-append a xs ys)

pub member-add_new : (a b : ℕ) (xs : List ℕ) → member a (add_new b xs) ≡ (b == a || member a xs)
unfolding add_new
member-add_new a b xs = ground (arith, member-append a xs (b ∷ []))

pub member-remove : (a b : ℕ) (xs : List ℕ) → member a (remove b xs) ≡ (not (b == a) && member a xs)
unfolding remove
member-remove a b [] = ground arith
member-remove a b (x ∷ xs) = ground (arith, member-remove a b xs)

-- No number stands in the list twice.
abbrev pub Unique : List ℕ → Type 0
Unique [] = Unit {0}
Unique (x ∷ xs) = (member x xs ≡ false) × Unique xs

append-Unique : (xs : List ℕ) (a : ℕ) → Unique xs → member a xs ≡ false → Unique (xs ++ a ∷ [])
append-Unique [] a u h = (refl, tt)
append-Unique (x ∷ xs) a u h =
    (ground (arith, member-append x xs (a ∷ [])), append-Unique xs a u.1 (ground arith))

pub add_new-Unique : (a : ℕ) (xs : List ℕ) → Unique xs → Unique (add_new a xs)
unfolding add_new
add_new-Unique a xs u = elim (Bool-cases (member a xs)) [
  | inl e ↦ rw e u
  | inr e ↦ rw e (append-Unique xs a u e)
]

pub remove-Unique : (a : ℕ) (xs : List ℕ) → Unique xs → Unique (remove a xs)
unfolding remove
remove-Unique a [] u = tt
remove-Unique a (x ∷ xs) u = elim (Bool-cases (x == a)) [
  | inl e ↦ rw e (remove-Unique a xs u.1)
  | inr e ↦ rw e (ground (arith, member-remove x a xs), remove-Unique a xs u.1)
]

remove-absent : (a : ℕ) (xs : List ℕ) → member a xs ≡ false → length (remove a xs) ≡ length xs
unfolding remove
remove-absent a [] h = refl
remove-absent a (x ∷ xs) h = ground (arith, remove-absent a xs)

member_here : (x a : ℕ) (xs : List ℕ) → (x == a) ≡ true → member x xs ≡ false → member a xs ≡ false
member_here x a [] same h = refl
member_here x a (y ∷ xs) same h = ground (arith, member_here x a xs same)

pub length-remove :
    (a : ℕ) (xs : List ℕ) → Unique xs → member a xs ≡ true → suc (length (remove a xs)) ≡ length xs
unfolding remove
length-remove a [] once here = absurd (ground arith)
length-remove a (x ∷ xs) once here = elim (Bool-cases (x == a)) [
  | inl same ↦ rw same (ap suc (remove-absent a xs (member_here x a xs same once.0)))
  | inr other ↦ rw other (ap suc (length-remove a xs once.1 (ground arith)))
]

-- Lists without repetition that have the same members are of the same length.
pub length-Unique :
    (xs ys : List ℕ)
    → Unique xs
    → Unique ys
    → ((a : ℕ) → member a xs ≡ member a ys)
    → length xs ≡ length ys
length-Unique [] [] once once' same = refl
length-Unique [] (y ∷ ys) once once' same = absurd (ground (arith, same y))
length-Unique (x ∷ xs) ys once once' same =
    let there : member x ys ≡ true = ground (arith, same x) in
    let shorter =
      length-Unique xs (remove x ys) once.1 (remove-Unique x ys once')
        (λ a. ground (arith, same a, member-remove a x ys, member_here x a xs)) in
    ap suc shorter ∙ length-remove x ys once' there

remove-le : (a : ℕ) (xs : List ℕ) → length (remove a xs) ≤ length xs
unfolding remove
remove-le a [] = omega arith
remove-le a (x ∷ xs) = ground (arith, remove-le a xs)

remove-lt : (a : ℕ) (xs : List ℕ) → member a xs ≡ true → length (remove a xs) < length xs
unfolding remove
remove-lt a [] here = absurd (ground arith)
remove-lt a (x ∷ xs) here = ground (arith, remove-le a xs, remove-lt a xs)

-- A list without repetition is no longer than another that has all its members.
pub length-within :
    (xs ys : List ℕ)
    → Unique xs
    → ((a : ℕ) → member a xs ≡ true → member a ys ≡ true)
    → length xs ≤ length ys
length-within [] ys once within = omega arith
length-within (x ∷ xs) ys once within =
    let there : member x ys ≡ true = within x (ground arith) in
    let shorter =
      length-within xs (remove x ys) once.1
        (λ a listed. ground (arith, within a, member-remove a x ys, member_here x a xs)) in
    omega (arith, remove-lt x ys there)

pub member_some : (a : ℕ) (xs : List ℕ) → member a xs ≡ true → 1 ≤ length xs
member_some a [] here = absurd (ground arith)
member_some a (x ∷ xs) here = omega arith
