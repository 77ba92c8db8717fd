-- ===== src/Prelude/Lists.antt =====
-- Functions on lists over the native numbers, and a predicate of all items.
use Prim.Native.Nat.{ℕ, zero, suc, ◌+◌, ◌<◌}
use mathlib.Core.Path.{◌≡◌, refl}
use mathlib.Core.Bool.{false}
use rabbitmq_kit_go.Prelude.Tests.{◌==◌}
use mathlib.Core.List.{List, [], ◌∷◌, ◌++◌}
use mathlib.Core.Option.{Option, none, some}
use native.Mathlib.Omega.{arith}

module _ {ℓ} {A : Type ℓ} where
  abbrev pub length : List A → ℕ
  length [] = 0
  length (x ∷ xs) = suc (length xs)

  abbrev pub replicate : ℕ → A → List A
  replicate zero a = []
  replicate (suc n) a = a ∷ replicate n a

  abbrev pub get_elem? : List A → ℕ → Option A
  get_elem? [] i = none
  get_elem? (x ∷ xs) zero = some x
  get_elem? (x ∷ xs) (suc i) = get_elem? xs i

  abbrev pub set_at : ℕ → A → List A → List A
  set_at i a [] = []
  set_at zero a (x ∷ xs) = a ∷ xs
  set_at (suc i) a (x ∷ xs) = x ∷ set_at i a xs

  pub length-append : (xs ys : List A) → length (xs ++ ys) ≡ length xs + length ys
  length-append [] ys = omega arith
  length-append (x ∷ xs) ys = omega (arith, length-append xs ys)

abbrev pub All {ℓ κ} : {A : Type ℓ} → (A → Type κ) → List A → Type κ
All P [] = Unit
All P (x ∷ xs) = P x × All P xs

pub get_elem?-set_at {ℓ} :
    {A : Type ℓ} (i j : ℕ) (a : A) (xs : List A)
    → (j == i) ≡ false
    → get_elem? (set_at i a xs) j ≡ get_elem? xs j
get_elem?-set_at i j a [] h = refl
get_elem?-set_at zero zero a (x ∷ xs) h = absurd (ground arith)
get_elem?-set_at zero (suc j) a (x ∷ xs) h = refl
get_elem?-set_at (suc i) zero a (x ∷ xs) h = refl
get_elem?-set_at (suc i) (suc j) a (x ∷ xs) h = get_elem?-set_at i j a xs (ground arith)

pub get_elem?-set_at_here {ℓ} :
    {A : Type ℓ} (i : ℕ) (a b : A) (xs : List A)
    → get_elem? xs i ≡ some b
    → get_elem? (set_at i a xs) i ≡ some a
get_elem?-set_at_here i a b [] h = absurd (ground arith)
get_elem?-set_at_here zero a b (x ∷ xs) h = refl
get_elem?-set_at_here (suc i) a b (x ∷ xs) h = get_elem?-set_at_here i a b xs h

pub get_elem?-append {ℓ} :
    {A : Type ℓ} (i : ℕ) (a b : A) (xs : List A)
    → get_elem? xs i ≡ some b
    → (get_elem? (xs ++ a ∷ []) i ≡ some b) × (i < length xs)
get_elem?-append i a b [] h = absurd (ground arith)
get_elem?-append zero a b (x ∷ xs) h = (h, omega arith)
get_elem?-append (suc i) a b (x ∷ xs) h =
    let (same, below) = get_elem?-append i a b xs h in (same, omega arith)

pub get_elem?-last {ℓ} :
    {A : Type ℓ} (a : A) (xs : List A) → get_elem? (xs ++ a ∷ []) (length xs) ≡ some a
get_elem?-last a [] = refl
get_elem?-last a (x ∷ xs) = get_elem?-last a xs

pub length-set_at {ℓ} :
    {A : Type ℓ} (i : ℕ) (a : A) (xs : List A) → length (set_at i a xs) ≡ length xs
length-set_at i a [] = refl
length-set_at zero a (x ∷ xs) = refl
length-set_at (suc i) a (x ∷ xs) = omega (arith, length-set_at i a xs)

pub get_elem?_below {ℓ} :
    {A : Type ℓ} (i : ℕ) (a : A) (xs : List A) → get_elem? xs i ≡ some a → i < length xs
get_elem?_below i a [] h = absurd (ground arith)
get_elem?_below zero a (x ∷ xs) h = omega arith
get_elem?_below (suc i) a (x ∷ xs) h = omega (arith, get_elem?_below i a xs h)

pub length_zero {ℓ} : {A : Type ℓ} (xs : List A) → length xs ≡ 0 → xs ≡ []
length_zero [] h = refl
length_zero (x ∷ xs) h = absurd (omega (arith, h))
