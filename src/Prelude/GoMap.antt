-- ===== src/Prelude/GoMap.antt =====
-- Go's `map[string]V`, as a list of entries in which the first one of a key counts. The order of
-- iteration is no part of the model: nothing below depends on it.
use mathlib.Core.Path.{◌≡◌, refl, ◌∙◌}
use mathlib.Core.Option.{Option, none, some}
use mathlib.Core.List.{List, [], ◌∷◌}
use Prim.Native.String.{String}
use native.Mathlib.Omega.{arith}
use text.Mathlib.TextEquality.{eq_iff}
use rabbitmq_kit_go.Prelude.Tests.{str_eq, if◌then◌else◌}

abbrev pub GoMap {ℓ} : Type ℓ → Type ℓ
GoMap V = List (String × V)

module _ {ℓ} {V : Type ℓ} where
  -- v, ok := m[k]
  unfoldable pub lookup : String → GoMap V → Option V
  lookup k [] = none
  lookup k ((j, v) ∷ m) = if str_eq j k then some v else lookup k m

  -- delete(m, k)
  unfoldable pub delete : String → GoMap V → GoMap V
  delete k [] = []
  delete k ((j, v) ∷ m) = let rest = delete k m in if str_eq j k then rest else (j, v) ∷ rest

  -- m[k] = v
  unfoldable pub insert : String → V → GoMap V → GoMap V
  insert k v m = (k, v) ∷ delete k m

  -- for k, v := range from { to[k] = v }
  unfoldable pub copy : GoMap V → GoMap V → GoMap V
  unfolding insert
  copy [] to = to
  copy ((k, v) ∷ from) to = insert k v (copy from to)

  pub lookup-delete :
      (k j : String) (m : GoMap V)
      → lookup j (delete k m) ≡ (if str_eq k j then none else lookup j m)
  unfolding lookup delete
  lookup-delete k j [] = ground arith
  lookup-delete k j ((i, v) ∷ m) =
      ground (arith, lookup-delete k j m, eq_iff i k, eq_iff i j, eq_iff k j)

  pub lookup-insert :
      (k j : String) (v : V) (m : GoMap V)
      → lookup j (insert k v m) ≡ (if str_eq k j then some v else lookup j m)
  unfolding lookup insert
  lookup-insert k j v m = ground (arith, lookup-delete k j m)

  -- The first, or the second where the first has no value.
  abbrev pub or_else : Option V → Option V → Option V
  or_else (some v) o = some v
  or_else none o = o

  pub lookup-copy :
      (j : String) (from to : GoMap V)
      → lookup j (copy from to) ≡ or_else (lookup j from) (lookup j to)
  unfolding copy
  lookup-copy j [] to = unfold lookup in refl
  lookup-copy j ((k, v) ∷ from) to =
      lookup-insert k j v (copy from to) ∙ step (lookup-copy j from to)
    where
      step :
          lookup j (copy from to) ≡ or_else (lookup j from) (lookup j to)
          → (if str_eq k j then some v else lookup j (copy from to))
            ≡ or_else (lookup j ((k, v) ∷ from)) (lookup j to)
      step h = unfold lookup in ground arith

  pub lookup-empty : (j : String) → lookup j [] ≡ none
  unfolding lookup
  lookup-empty j = refl

pub ruleset map_laws = (lookup-empty, lookup-delete, lookup-insert, lookup-copy)
