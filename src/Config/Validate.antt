-- ===== src/Config/Validate.antt =====
-- `Validate` of config/config.go.
use Prim.Native.String.{◌++◌}
use rabbitmq_kit_go.Prelude.{
  ℕ, ◌+◌, ◌≡◌, refl, ◌≢◌, ◌⊎◌, inl, inr, ◌↔◌, Bool, true, false, not, ◌||◌, String, List, [], ◌∷◌,
  All, arith, if◌then◌else◌, str_eq, eq_iff,
}
use rabbitmq_kit_go.Prelude.Int.{ℤ, pos, leb_int, ltb_int}
use rabbitmq_kit_go.Prelude.Decimal.{decimal}
use rabbitmq_kit_go.Errors.{Error, nil, new_config_field_error}
use rabbitmq_kit_go.Config.{Config}
use rabbitmq_kit_go.Config.Topology.{ExchangeConfig, QueueConfig}

-- validTypes[t]
abbrev pub valid_type : String → Bool
valid_type t = str_eq t "direct" || str_eq t "fanout" || str_eq t "topic" || str_eq t "headers"

-- The early return of a loop's body: the first error, or what the rest gives.
abbrev pub or_next : Error → Error → Error
or_next nil rest = rest
or_next e rest = e

validate_exchange : ℕ → ExchangeConfig → Error
unfolding new_config_field_error
validate_exchange i ex =
    if str_eq ex.name ""
    then new_config_field_error ("Exchanges[" ++ decimal i ++ "].Name") "is required"
    else if str_eq ex.type ""
    then new_config_field_error ("Exchanges[" ++ decimal i ++ "].Type") "is required"
    else if not (valid_type ex.type)
    then new_config_field_error ("Exchanges[" ++ decimal i ++ "].Type")
        ("must be one of: direct, fanout, topic, headers (got: " ++ ex.type ++ ")")
    else nil

validate_exchanges : ℕ → List ExchangeConfig → Error
unfolding validate_exchange
validate_exchanges i [] = nil
validate_exchanges i (ex ∷ exs) = or_next (validate_exchange i ex) (validate_exchanges (i + 1) exs)

validate_queues : ℕ → List QueueConfig → Error
unfolding new_config_field_error
validate_queues i [] = nil
validate_queues i (q ∷ qs) =
    or_next
      (if str_eq q.name ""
        then new_config_field_error ("Queues[" ++ decimal i ++ "].Name") "is required"
        else nil)
      (validate_queues (i + 1) qs)

unfoldable pub validate : Config → Error
unfolding new_config_field_error validate_exchanges validate_queues
validate c =
    if str_eq c.uri ""
    then new_config_field_error "URI" "is required"
    else if leb_int c.reconnect_delay (pos 0)
    then new_config_field_error "ReconnectDelay" "must be greater than 0"
    else if leb_int c.timeout (pos 0)
    then new_config_field_error "Timeout" "must be greater than 0"
    else if ltb_int c.prefetch_count (pos 0)
    then new_config_field_error "PrefetchCount" "cannot be negative"
    else if ltb_int c.max_retries (pos 0)
    then new_config_field_error "MaxRetries" "cannot be negative"
    else or_next (validate_exchanges 0 c.exchanges) (validate_queues 0 c.queues)

-- One of the four exchange types of AMQP.
abbrev pub IsExchangeType : String → Type 0
IsExchangeType t = (t ≡ "direct") ⊎ ((t ≡ "fanout") ⊎ ((t ≡ "topic") ⊎ (t ≡ "headers")))

abbrev pub IsExchange : ExchangeConfig → Type 0
IsExchange ex = (ex.name ≢ "") × IsExchangeType ex.type

abbrev pub IsQueue : QueueConfig → Type 0
IsQueue q = q.name ≢ ""

-- What a client needs of its configuration.
pub record IsValid (c : Config) : Type 0 where
  pub uri : c.uri ≢ ""
  pub reconnect_delay : ltb_int (pos 0) c.reconnect_delay ≡ true
  pub timeout : ltb_int (pos 0) c.timeout ≡ true
  pub prefetch_count : leb_int (pos 0) c.prefetch_count ≡ true
  pub max_retries : leb_int (pos 0) c.max_retries ≡ true
  pub exchanges : All IsExchange c.exchanges
  pub queues : All IsQueue c.queues

or_next-nil : (e rest : Error) → or_next e rest ≡ nil → (e ≡ nil) × (rest ≡ nil)
or_next-nil e rest h = ground arith

IsExchange-to : (i : ℕ) (ex : ExchangeConfig) → validate_exchange i ex ≡ nil → IsExchange ex
unfolding validate_exchange
IsExchange-to i ex h = ground (
  arith,
  eq_iff ex.name "",
  eq_iff ex.type "",
  eq_iff ex.type "direct",
  eq_iff ex.type "fanout",
  eq_iff ex.type "topic",
  eq_iff ex.type "headers",
)

not_empty : (t : String) → IsExchangeType t → str_eq t "" ≡ false
not_empty t (inl e) = rw e
not_empty t (inr (inl e)) = rw e
not_empty t (inr (inr (inl e))) = rw e
not_empty t (inr (inr (inr e))) = rw e

valid_type_of : (t : String) → IsExchangeType t → valid_type t ≡ true
valid_type_of t (inl e) = rw e
valid_type_of t (inr (inl e)) = rw e
valid_type_of t (inr (inr (inl e))) = rw e
valid_type_of t (inr (inr (inr e))) = rw e

exchange_from : (i : ℕ) (ex : ExchangeConfig) → IsExchange ex → validate_exchange i ex ≡ nil
unfolding validate_exchange
exchange_from i ex h =
    ground (arith, eq_iff ex.name "", not_empty ex.type h.1, valid_type_of ex.type h.1)

exchanges_to :
    (i : ℕ) (exs : List ExchangeConfig) → validate_exchanges i exs ≡ nil → All IsExchange exs
unfolding validate_exchanges
exchanges_to i [] h = tt
exchanges_to i (ex ∷ exs) h =
    let both = or_next-nil (validate_exchange i ex) (validate_exchanges (i + 1) exs) h in
    (IsExchange-to i ex both.0, exchanges_to (i + 1) exs both.1)

exchanges_from :
    (i : ℕ) (exs : List ExchangeConfig) → All IsExchange exs → validate_exchanges i exs ≡ nil
unfolding validate_exchanges
exchanges_from i [] h = refl
exchanges_from i (ex ∷ exs) h = rw (exchange_from i ex h.0) (exchanges_from (i + 1) exs h.1)

IsQueue-first :
    (i : ℕ) (q : QueueConfig) (qs : List QueueConfig)
    → validate_queues i (q ∷ qs) ≡ nil
    → IsQueue q × (validate_queues (i + 1) qs ≡ nil)
unfolding validate_queues
IsQueue-first i q qs h = ground (arith, eq_iff q.name "")

queues_to : (i : ℕ) (qs : List QueueConfig) → validate_queues i qs ≡ nil → All IsQueue qs
queues_to i [] h = tt
queues_to i (q ∷ qs) h =
    let first = IsQueue-first i q qs h in (first.0, queues_to (i + 1) qs first.1)

queues_from : (i : ℕ) (qs : List QueueConfig) → All IsQueue qs → validate_queues i qs ≡ nil
unfolding validate_queues
queues_from i [] h = refl
queues_from i (q ∷ qs) h = ground (arith, eq_iff q.name "", queues_from (i + 1) qs h.1)

checks_to :
    (c : Config)
    → validate c ≡ nil
    → (c.uri ≢ "")
      × (ltb_int (pos 0) c.reconnect_delay ≡ true)
      × (ltb_int (pos 0) c.timeout ≡ true)
      × (leb_int (pos 0) c.prefetch_count ≡ true)
      × (leb_int (pos 0) c.max_retries ≡ true)
      × (validate_exchanges 0 c.exchanges ≡ nil)
      × (validate_queues 0 c.queues ≡ nil)
unfolding validate
checks_to c h = ground (arith, eq_iff c.uri "")

validate_from : (c : Config) → IsValid c → validate c ≡ nil
unfolding validate
validate_from c v = ground (
  arith,
  eq_iff c.uri "",
  exchanges_from 0 c.exchanges v.exchanges,
  queues_from 0 c.queues v.queues,
)

validate_to : (c : Config) → validate c ≡ nil → IsValid c
validate_to c h =
    let (u, r, t, p, m, es, qs) = checks_to c h in
    record {
      uri = u;
      reconnect_delay = r;
      timeout = t;
      prefetch_count = p;
      max_retries = m;
      exchanges = exchanges_to 0 c.exchanges es;
      queues = queues_to 0 c.queues qs;
    }

-- Neither check that the documentation names besides is made.
validate_confirm_timeout :
    (c : Config) (t : ℤ) → validate (record c { confirm_timeout = t }) ≡ validate c
unfolding validate
validate_confirm_timeout c t = refl

validate_prefetch_count :
    (c : Config)
    → validate (record c { prefetch_count = pos 0 })
      ≡ validate (record c { prefetch_count = pos 1 })
unfolding validate
validate_prefetch_count c = refl

-- `Validate` returns nil exactly for a configuration that the code takes for valid: a URI, delays
-- above 0, counts that are not negative, a name and one of the four types for each exchange, a name
-- for each queue. This is not what docs/CONFIGURATION.md says: whatever the timeout of confirmations,
-- the result is the same, and a prefetch count of 0 is taken as one of 1 is.
pub validate_iff_IsValid :
    (c : Config) (t : ℤ)
    → ((validate c ≡ nil) ↔ IsValid c)
      × (validate (record c { confirm_timeout = t }) ≡ validate c)
      × (validate (record c { prefetch_count = pos 0 })
          ≡ validate (record c { prefetch_count = pos 1 }))
validate_iff_IsValid c t =
    ((validate_to c, validate_from c), validate_confirm_timeout c t, validate_prefetch_count c)
