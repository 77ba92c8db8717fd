-- ===== src/Logger/Format.antt =====
-- `FormatFields` and the order in which Go ranges over a map.
use rabbitmq_kit_go.Prelude.{
  ℕ, zero, suc, ◌≤◌, ◌≡◌, refl, sym, ◌∙◌, ap, String, Option, some, List, [], ◌∷◌, map, str_eq,
  length, arith, eq_iff, Bool-cases, inl, inr,
}
use Prim.Native.String.{◌++◌}
use mathlib.Core.List.{cons≢nil}
use rabbitmq_kit_go.Prelude.GoMap.{GoMap, lookup, delete, lookup-delete}
use rabbitmq_kit_go.Prelude.Sorting.{sort_strings, insert_sorted, insert_insert}
use rabbitmq_kit_go.Logger.{without, keys, join, format_fields, log_line}

without_comm :
    (a b : String) (xs : List String) → without a (without b xs) ≡ without b (without a xs)
unfolding without
without_comm a b [] = refl
without_comm a b (x ∷ xs) = ground (arith, without_comm a b xs)

without_idem : (a : String) (xs : List String) → without a (without a xs) ≡ without a xs
unfolding without
without_idem a [] = refl
without_idem a (x ∷ xs) = ground (arith, without_idem a xs)

module _ {V : Type 0} where
  keys-delete : (k : String) (m : GoMap V) → keys (delete k m) ≡ without k (keys m)
  unfolding keys delete without
  keys-delete k [] = refl
  keys-delete k ((j, v) ∷ m) = elim (Bool-cases (str_eq j k)) [
    | inl h ↦
        rw (h, keys-delete k m)
          (sym (without_idem k (keys m))
            ∙ ap (λ i. without k (without i (keys m))) (sym ((eq_iff j k).0 h)))
    | inr h ↦ rw (h, keys-delete k m) (ap (λ l. j ∷ l) (without_comm j k (keys m)))
  ]

  delete_comm : (a b : String) (m : GoMap V) → delete a (delete b m) ≡ delete b (delete a m)
  unfolding delete
  delete_comm a b [] = refl
  delete_comm a b ((j, v) ∷ m) = ground (arith, delete_comm a b m)

  length-delete : (k : String) (m : GoMap V) → length (delete k m) ≤ length m
  unfolding delete
  length-delete k [] = ground arith
  length-delete k ((j, v) ∷ m) = ground (arith, length-delete k m)

  abbrev sorted_keys : GoMap V → List String
  sorted_keys m = sort_strings (keys m)

  sorted_keys-cons :
      (j : String) (v : V) (m : GoMap V)
      → sorted_keys ((j, v) ∷ m) ≡ insert_sorted j (sorted_keys (delete j m))
  unfolding keys sort_strings
  sorted_keys-cons j v m = rw (keys-delete j m) refl

  -- A key that is there is put among the others.
  sorted_keys-delete :
      (n : ℕ) (k : String) (v : V) (m : GoMap V)
      → length m ≤ n
      → lookup k m ≡ some v
      → sorted_keys m ≡ insert_sorted k (sorted_keys (delete k m))
  unfolding lookup delete
  sorted_keys-delete n k v [] b h = absurd (ground (arith, h))
  sorted_keys-delete zero k v ((j, u) ∷ m) b h = absurd (omega arith)
  sorted_keys-delete (suc n) k v ((j, u) ∷ m) b h = elim (Bool-cases (str_eq j k)) [
    | inl e ↦ rw e (
        sorted_keys-cons j u m
        ∙ ap (λ i. insert_sorted i (sorted_keys (delete i m))) ((eq_iff j k).0 e))
    | inr e ↦
        let there : lookup k (delete j m) ≡ some v = ground (arith, lookup-delete j k m, h) in
        let rest = sorted_keys-delete n k v (delete j m) (omega (arith, length-delete j m)) there in
        let others = sorted_keys (delete k (delete j m)) in
        let swapped =
          ap (λ x. insert_sorted j (sorted_keys x)) (delete_comm k j m)
          ∙ sym (sorted_keys-cons j u (delete k m)) in
        rw e (
          sorted_keys-cons j u m
          ∙ ap (insert_sorted j) rest
          ∙ insert_insert j k others
          ∙ ap (insert_sorted k) swapped)
  ]

  abbrev pub SameMap : GoMap V → GoMap V → Type 0
  SameMap m m' = (k : String) → lookup k m ≡ lookup k m'

  SameMap-nil : (m : GoMap V) → SameMap [] m → m ≡ []
  unfolding lookup
  SameMap-nil [] same = refl
  SameMap-nil ((j, v) ∷ m) same = absurd (ground (arith, same j, eq_iff j j))

  SameMap-delete :
      (j : String) (v : V) (m m' : GoMap V)
      → SameMap ((j, v) ∷ m) m'
      → SameMap (delete j m) (delete j m')
  unfolding lookup
  SameMap-delete j v m m' same k = ground (arith, same k, lookup-delete j k m, lookup-delete j k m')

  sorted_keys-SameMap :
      (n : ℕ) (m m' : GoMap V) → length m ≤ n → SameMap m m' → sorted_keys m ≡ sorted_keys m'
  sorted_keys-SameMap n [] m' b same = rw (SameMap-nil m' same) refl
  sorted_keys-SameMap zero ((j, v) ∷ m) m' b same = absurd (omega arith)
  sorted_keys-SameMap (suc n) ((j, v) ∷ m) m' b same =
      let there : lookup j m' ≡ some v =
        sym (same j) ∙ (unfold lookup in ground (arith, eq_iff j j)) in
      sorted_keys-cons j v m
      ∙ ap (insert_sorted j) (
          sorted_keys-SameMap n (delete j m) (delete j m') (omega (arith, length-delete j m))
            (SameMap-delete j v m m' same))
      ∙ sym (sorted_keys-delete (length m') j v m' (omega arith) there)

map_eq :
    (f g : String → String) (xs : List String) → ((x : String) → f x ≡ g x) → map f xs ≡ map g xs
map_eq f g [] h = refl
map_eq f g (x ∷ xs) h = rw (h x, map_eq f g xs h) refl

-- `FormatFields`, and the log line with it, are functions of the map: maps with the same value under
-- each key give the same text, in whatever order their entries are listed.
pub format_fields-SameMap :
    {V : Type 0} (show : Option V → String) (level msg : String) (m m' : GoMap V)
    → SameMap m m'
    → (format_fields show m ≡ format_fields show m')
      × (log_line show level msg m ≡ log_line show level msg m')
unfolding format_fields log_line
format_fields-SameMap show level msg [] m' same = rw (SameMap-nil m' same) (refl, refl)
format_fields-SameMap show level msg (e ∷ m) [] same =
    absurd (cons≢nil (SameMap-nil (e ∷ m) (λ k. sym (same k))))
format_fields-SameMap show level msg (e ∷ m) (e' ∷ m') same =
    let order = sorted_keys-SameMap (length (e ∷ m)) (e ∷ m) (e' ∷ m') (omega arith) same in
    let pairs =
      map_eq (λ k. k ++ "=" ++ show (lookup k (e ∷ m))) (λ k. k ++ "=" ++ show (lookup k (e' ∷ m')))
        (sorted_keys (e ∷ m)) (λ k. ap (λ v. k ++ "=" ++ show v) (same k)) in
    let text =
      ap (join " ") (pairs ∙ ap (map (λ k. k ++ "=" ++ show (lookup k (e' ∷ m')))) order) in
    (text, ap (λ t. level ++ ": " ++ msg ++ " " ++ t) text)
