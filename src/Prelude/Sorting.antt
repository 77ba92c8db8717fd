-- ===== src/Prelude/Sorting.antt =====
-- `sort.Strings`: the order of Go's strings, and sorting by insertion.
use Prim.Native.Nat.{ℕ, compare as compare_ℕ, Ordering}
use Prim.Native.Char.{Char, code}
use Prim.Native.String.compare
use Prim.Native.String.{String, compare, then as first_of}
use mathlib.Core.Path.{◌≡◌, refl, sym, ◌∙◌, ap}
use mathlib.Core.Logic.{◌⊎◌, inl, inr}
use mathlib.Core.Bool.{Bool, true, false, ◌||◌}
use mathlib.Core.List.{List, [], ◌∷◌}
use native.Mathlib.Omega.{arith}
use text.Mathlib.TextEquality.{Char-path}
use rabbitmq_kit_go.Prelude.Tests.{if◌then◌else◌, Bool-cases, ltb, ◌==◌}

abbrev not_gt : Ordering → Bool
not_gt Ordering.gt = false
not_gt _ = true

-- Not after, in the order of the bytes.
unfoldable pub str_leb : String → String → Bool
str_leb s t = not_gt (compare s t)

not_gt-then :
    (m n : ℕ) (o : Ordering)
    → not_gt (first_of (compare_ℕ m n) o)
      ≡ (if ltb m n then true else (if m == n then not_gt o else false))
not_gt-then m n o = ground arith

str_leb-cons :
    (c d : Char) (s t : String)
    → str_leb (String.◌∷◌ c s) (String.◌∷◌ d t)
      ≡ (if ltb (code c) (code d) then true else (if code c == code d then str_leb s t else false))
unfolding str_leb
str_leb-cons c d s t =
    ap not_gt (compare.cons-cons c d s t) ∙ not_gt-then (code c) (code d) (compare s t)

str_leb-nil : (t : String) → str_leb String.[] t ≡ true
unfolding str_leb
str_leb-nil String.[] = ap not_gt compare.nil-nil
str_leb-nil (String.◌∷◌ d t) = ap not_gt (compare.nil-cons d t)

str_leb-cons_nil : (c : Char) (s : String) → str_leb (String.◌∷◌ c s) String.[] ≡ false
unfolding str_leb
str_leb-cons_nil c s = ap not_gt (compare.cons-nil c s)

pub str_leb_trans : (s t u : String) → str_leb s t ≡ true → str_leb t u ≡ true → str_leb s u ≡ true
str_leb_trans String.[] t u h g = str_leb-nil u
str_leb_trans (String.◌∷◌ c s) String.[] u h g = absurd (ground (arith, h, str_leb-cons_nil c s))
str_leb_trans (String.◌∷◌ c s) (String.◌∷◌ d t) String.[] h g =
    absurd (ground (arith, g, str_leb-cons_nil d t))
str_leb_trans (String.◌∷◌ c s) (String.◌∷◌ d t) (String.◌∷◌ e u) h g =
    ground
      (arith, str_leb-cons c d s t, str_leb-cons d e t u, str_leb-cons c e s u, str_leb_trans s t u)

pub str_leb_total : (s t : String) → (str_leb s t || str_leb t s) ≡ true
str_leb_total String.[] t = rw (str_leb-nil t) refl
str_leb_total (String.◌∷◌ c s) String.[] = rw (str_leb-nil (String.◌∷◌ c s)) (ground arith)
str_leb_total (String.◌∷◌ c s) (String.◌∷◌ d t) =
    ground (arith, str_leb-cons c d s t, str_leb-cons d c t s, str_leb_total s t)

pub str_leb_antisym : (s t : String) → str_leb s t ≡ true → str_leb t s ≡ true → s ≡ t
str_leb_antisym String.[] String.[] h g = refl
str_leb_antisym String.[] (String.◌∷◌ d t) h g = absurd (ground (arith, g, str_leb-cons_nil d t))
str_leb_antisym (String.◌∷◌ c s) String.[] h g = absurd (ground (arith, h, str_leb-cons_nil c s))
str_leb_antisym (String.◌∷◌ c s) (String.◌∷◌ d t) h g =
    let both : (code c ≡ code d) × (str_leb s t ≡ true) × (str_leb t s ≡ true) =
      ground (arith, str_leb-cons c d s t, str_leb-cons d c t s) in
    λ i. String.◌∷◌ (Char-path c d both.0 i) (str_leb_antisym s t both.1 both.2 i)

unfoldable pub insert_sorted : String → List String → List String
insert_sorted x [] = x ∷ []
insert_sorted x (y ∷ ys) =
    let rest = insert_sorted x ys in if str_leb x y then x ∷ y ∷ ys else y ∷ rest

-- sort.Strings
unfoldable pub sort_strings : List String → List String
sort_strings [] = []
sort_strings (x ∷ xs) = insert_sorted x (sort_strings xs)

insert_first :
    (x y : String) (ys : List String) → str_leb x y ≡ true → insert_sorted x (y ∷ ys) ≡ x ∷ y ∷ ys
unfolding insert_sorted
insert_first x y ys h = rw h refl

insert_later :
    (x y : String) (ys : List String)
    → str_leb x y ≡ false
    → insert_sorted x (y ∷ ys) ≡ y ∷ insert_sorted x ys
unfolding insert_sorted
insert_later x y ys h = rw h refl

-- Two texts in order, or the other way round and different.
in_order :
    (x y : String)
    → ((str_leb x y ≡ true) × (str_leb y x ≡ true))
      ⊎ (((str_leb x y ≡ true) × (str_leb y x ≡ false))
          ⊎ ((str_leb x y ≡ false) × (str_leb y x ≡ true)))
in_order x y = ground (arith, str_leb_total x y)

insert_insert_lt :
    (x y : String) (zs : List String)
    → str_leb x y ≡ true
    → str_leb y x ≡ false
    → insert_sorted x (insert_sorted y zs) ≡ insert_sorted y (insert_sorted x zs)
unfolding insert_sorted
insert_insert_lt x y [] h g = rw (h, g) refl
insert_insert_lt x y (z ∷ zs) h g = elim (Bool-cases (str_leb y z)) [
  | inl yz ↦ rw (yz, h, str_leb_trans x y z h yz, g, yz) refl
  | inr yz ↦ elim (Bool-cases (str_leb x z)) [
    | inl xz ↦ rw (yz, xz, g, yz) refl
    | inr xz ↦ rw (yz, xz, yz) (ap (λ l. z ∷ l) (insert_insert_lt x y zs h g))
  ]
]

pub insert_insert :
    (x y : String) (zs : List String)
    → insert_sorted x (insert_sorted y zs) ≡ insert_sorted y (insert_sorted x zs)
insert_insert x y zs = elim (in_order x y) [
  | inl (h, g) ↦ rw (str_leb_antisym x y h g) refl
  | inr (inl (h, g)) ↦ insert_insert_lt x y zs h g
  | inr (inr (h, g)) ↦ sym (insert_insert_lt y x zs g h)
]
