-- ===== src/Logger.antt =====
-- internal/logger/default_logger.go: the text of a log line. What the package `log` puts around it, the
-- prefix and the time, is left out. `show` is what `fmt` prints for `%v`, `none` being nil.
pub mod Format
mod Examples
use rabbitmq_kit_go.Prelude.{
  ℕ, Bool, true, false, not, String, Option, none, some, List, [], ◌∷◌, map, if◌then◌else◌, str_eq,
}
use Prim.Native.String.{◌++◌}
use rabbitmq_kit_go.Prelude.GoMap.{GoMap, lookup}
use rabbitmq_kit_go.Prelude.Sorting.{sort_strings}

unfoldable pub without : String → List String → List String
without k [] = []
without k (x ∷ xs) = let rest = without k xs in if str_eq x k then rest else x ∷ rest

-- The keys that `range` gives, each once, in one of the orders in which it may give them.
unfoldable pub keys : {V : Type 0} → GoMap V → List String
keys [] = []
keys ((k, v) ∷ m) = k ∷ without k (keys m)

-- strings.Join
unfoldable pub join : String → List String → String
join sep [] = ""
join sep (x ∷ []) = x
join sep (x ∷ xs) = x ++ sep ++ join sep xs

module _ {V : Type 0} (show : Option V → String) where
  abbrev pair : GoMap V → String → String
  pair fields k = k ++ "=" ++ show (lookup k fields)

  -- `FormatFields`; the map without entries stands for nil too.
  unfoldable pub format_fields : GoMap V → String
  format_fields [] = ""
  format_fields fields = join " " (map (pair fields) (sort_strings (keys fields)))

  -- What `log` hands to `Printf`, formatted.
  unfoldable pub log_line : (level msg : String) → GoMap V → String
  log_line level msg [] = level ++ ": " ++ msg
  log_line level msg fields = level ++ ": " ++ msg ++ " " ++ format_fields fields

  abbrev pub info : String → GoMap V → String
  info = log_line "INFO"

  abbrev pub error : String → GoMap V → String
  error = log_line "ERROR"

  abbrev pub warn : String → GoMap V → String
  warn = log_line "WARN"

  abbrev pub debug : String → GoMap V → String
  debug = log_line "DEBUG"
