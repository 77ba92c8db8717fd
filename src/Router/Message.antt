-- ===== src/Router/Message.antt =====
-- router/message.go: the message context of a delivery.
use rabbitmq_kit_go.Prelude.{
  ℕ, zero, suc, ◌/◌, ◌^◌, Bool, true, false, String, Option, none, some, List, if◌then◌else◌, leb,
}
use rabbitmq_kit_go.Prelude.Int.{ℤ, pos, negsuc, max_int}
use rabbitmq_kit_go.Prelude.GoMap.{lookup}
use rabbitmq_kit_go.Amqp.{
  Float64, fraction, not_finite, Value, null, int, int32, int64, float64, string, Headers, Delivery,
}

abbrev pub count_header : String
count_header = "x-retry-count"

-- The int of sign and size that is given; zero has one sign.
abbrev signed : Bool → ℕ → ℤ
signed false n = pos n
signed true zero = pos 0
signed true (suc n) = negsuc n

-- int(v) cuts the fraction off. What does not fit is implementation-defined in Go; on amd64 it
-- gives the least int.
unfoldable pub int_of_float64 : Float64 → ℤ
int_of_float64 (fraction negative numerator halvings) =
    let whole = numerator / 2 ^ halvings in
    if leb whole max_int then signed negative whole else negsuc max_int
int_of_float64 not_finite = negsuc max_int

-- The type switch of `GetRetryCount`.
abbrev pub int_value : Value → ℤ
int_value (int n) = n
int_value (int32 n) = n
int_value (int64 n) = n
int_value (float64 x) = int_of_float64 x
int_value _ = pos 0

-- v, ok := x.(string)
abbrev pub as_string : Option Value → Option String
as_string (some (string s)) = some s
as_string _ = none

abbrev pub or_zero : Option Value → ℤ
or_zero (some v) = int_value v
or_zero none = pos 0

-- A nil table holds no key.
unfoldable pub get : String → Option Headers → Option Value
get k none = none
get k (some t) = lookup k t

-- nil for a key that is not there
unfoldable pub get_header : String → Delivery → Value
unfolding get
get_header key d = elim (get key d.headers) [ some v ↦ v | none ↦ null ]

unfoldable pub get_retry_count : Delivery → ℤ
unfolding get
get_retry_count d = or_zero (get count_header d.headers)

unfoldable pub get_trace_id : Delivery → String
unfolding get_header
get_trace_id d = elim (get_header "trace_id" d) [ string s ↦ s | _ ↦ "" ]

unfoldable pub body : Delivery → List ℕ
body d = d.body

-- `unmarshal` stands for `json.Unmarshal` into a struct with the one field `type`: none if it
-- fails, and the empty text if the field is missing.
unfoldable pub get_type : (unmarshal : List ℕ → Option String) → Delivery → String
get_type unmarshal d = elim (unmarshal d.body) [ some t ↦ t | none ↦ "" ]
