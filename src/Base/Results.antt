-- ===== src/Base/Results.antt =====
-- What code that may throw returns. An error names the class of the exception; `undefined` stands
-- for behaviour that C++ leaves undefined (a division by 0, a read beyond an array).
use Prim.Native.Nat.{ℕ, zero, suc, ◌<◌}
use mathlib.Core.Path.{◌≡◌, refl, ap, sym, ◌∙◌}
use mathlib.Core.Bool.{Bool, true, false}
use mathlib.Core.List.{List, [], ◌∷◌}
use native.Mathlib.Omega.{arith}
use gegelati.Base.Lists.{get_elem?, length}
use mathlib.Core.Option.{Option, none, some}

pub data Error : Type 0 where
  out_of_range range_error runtime_error domain_error invalid_argument undefined : Error

-- What a call returns, or the class of what it throws.
pub data Result {ℓ} (T : Type ℓ) : Type ℓ where
  err : Error → Result T
  ok : T → Result T

-- A check that throws when the test fails.
abbrev pub guard : Bool → Error → Result (Unit {0})
guard false thrown = err thrown
guard true thrown = ok tt

-- The statements behind one that throws are skipped.
infixl 5 ◌>>=◌
abbrev pub ◌>>=◌ {ℓ κ} : {T : Type ℓ} {U : Type κ} → Result T → (T → Result U) → Result U
err thrown >>= next = err thrown
ok value >>= next = next value

infixl 5 ◌>>◌
abbrev pub ◌>>◌ {ℓ} : {U : Type ℓ} → Result (Unit {0}) → Result U → Result U
check >> next = check >>= λ _. next

-- `container.at(i)`, or an unchecked access with its own error.
abbrev pub elem_at {ℓ} : {A : Type ℓ} → List A → ℕ → Error → Result A
elem_at [] i e = err e
elem_at (x ∷ xs) zero e = ok x
elem_at (x ∷ xs) (suc i) e = elem_at xs i e

abbrev pub or_fail {ℓ} : {A : Type ℓ} → Option A → Error → Result A
or_fail none e = err e
or_fail (some a) e = ok a

-- Where two statements succeed, the first has returned a value with which the second succeeds.
pub bind_ok {ℓ κ} :
    {T : Type ℓ} {U : Type κ} (first : Result T) (next : T → Result U) {last : U}
    → (first >>= next) ≡ ok last
    → (value : T) × (first ≡ ok value) × (next value ≡ ok last)
bind_ok (err thrown) next done = absurd (ground arith)
bind_ok (ok value) next done = (value, refl, done)

pub ok-injective {ℓ} : {A : Type ℓ} {a b : A} → ok a ≡ ok b → a ≡ b
ok-injective h = cc

pub elem_at-eq-or_fail {ℓ} :
    {A : Type ℓ} (xs : List A) (i : ℕ) (e : Error) → elem_at xs i e ≡ or_fail (get_elem? xs i) e
elem_at-eq-or_fail [] i e = refl
elem_at-eq-or_fail (x ∷ xs) zero e = refl
elem_at-eq-or_fail (x ∷ xs) (suc i) e = elem_at-eq-or_fail xs i e

pub elem_at-inside {ℓ} :
    {A : Type ℓ} (xs : List A) (i : ℕ) (e : Error)
    → i < length xs
    → (a : A) × (elem_at xs i e ≡ ok a)
elem_at-inside [] i e h = absurd (omega arith)
elem_at-inside (x ∷ xs) zero e h = (x, refl)
elem_at-inside (x ∷ xs) (suc i) e h = elem_at-inside xs i e (omega arith)

pub or_fail-ok {ℓ} :
    {A : Type ℓ} (o : Option A) (e : Error) (a : A) → or_fail o e ≡ ok a → o ≡ some a
or_fail-ok none e a h = absurd (ground arith)
or_fail-ok (some b) e a h = ap some (ok-injective h)

pub elem_at-found {ℓ} :
    {A : Type ℓ} (xs : List A) (k : ℕ) (e : Error)
    → k < length xs
    → (x : A) × (elem_at xs k e ≡ ok x) × (get_elem? xs k ≡ some x)
elem_at-found xs k e h =
    let (x, found) = elem_at-inside xs k e h in
    (x, found, or_fail-ok (get_elem? xs k) e x (sym (elem_at-eq-or_fail xs k e) ∙ found))
