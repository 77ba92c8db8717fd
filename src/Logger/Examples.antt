-- ===== src/Logger/Examples.antt =====
-- Formatting fields at concrete inputs.
use mathlib.Core.Path.{subst}
use rabbitmq_kit_go.Prelude.{
  ◌≡◌, refl, String, Option, none, some, [], ◌∷◌, eq_iff, str_eq, Bool-cases, inl, inr,
}
use rabbitmq_kit_go.Prelude.GoMap.{GoMap, lookup}
use rabbitmq_kit_go.Prelude.Sorting.{sort_strings, insert_sorted, str_leb}
use rabbitmq_kit_go.Logger.Format.{SameMap, format_fields-SameMap}
use rabbitmq_kit_go.Logger.{format_fields, log_line, join, keys, without}

abbrev show : Option String → String
show none = "<nil>"
show (some v) = v

abbrev fields : GoMap String
fields = ("queue", "orders") ∷ ("count", "3") ∷ []

-- The keys come in their order, and not in that of the map.
fields_sorted : log_line show "INFO" "consuming" fields ≡ "INFO: consuming count=3 queue=orders"
unfolding log_line format_fields join sort_strings keys insert_sorted without str_leb lookup
fields_sorted = refl

-- The same fields, in the other order.
abbrev turned : GoMap String
turned = ("count", "3") ∷ ("queue", "orders") ∷ []

fields-SameMap : SameMap fields turned
unfolding lookup
fields-SameMap k = elim (Bool-cases (str_eq "queue" k)) [
  | inl h ↦ subst (λ x. lookup x fields ≡ lookup x turned) ((eq_iff "queue" k).0 h) refl
  | inr h ↦ rw h refl
]

format_fields-SameMap_example :
    (format_fields show fields ≡ format_fields show turned)
    × (log_line show "INFO" "consuming" fields ≡ log_line show "INFO" "consuming" turned)
format_fields-SameMap_example =
    format_fields-SameMap show "INFO" "consuming" fields turned fields-SameMap
