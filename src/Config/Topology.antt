-- ===== src/Config/Topology.antt =====
-- config/exchange.go, queue.go, dlq.go and batch.go: what to declare, and how to name it.
-- A `map[string]any` of arguments is a reference, since configurations that are copied share it:
-- `none` is nil, and `some r` is the map number `r` of a heap.
use Prim.Native.String.{◌++◌ as concat}
use rabbitmq_kit_go.Prelude.{
  ◌++◌, if◌then◌else◌, ℕ, zero, suc, Bool, true, false, String, Option, none, some, List, [], ◌∷◌,
  length, get_elem?,
}
use rabbitmq_kit_go.Prelude.GoMap.{GoMap, lookup, insert}
use rabbitmq_kit_go.Amqp.{Value, string}

abbrev pub MapRef : Type 0
MapRef = Option ℕ

-- The maps that were made, in order.
abbrev pub Heap : Type 0
Heap = List (GoMap Value)

abbrev pub or_no_map : Option (GoMap Value) → GoMap Value
or_no_map (some m) = m
or_no_map none = []

-- The map behind a reference.
abbrev pub read : Heap → MapRef → GoMap Value
read h none = []
read h (some r) = or_no_map (get_elem? h r)

-- A write through a reference; the maps are at their places, so none is ever out of range.
abbrev pub write : Heap → ℕ → GoMap Value → Heap
write [] r m = []
write (x ∷ h) zero m = m ∷ h
write (x ∷ h) (suc r) m = x ∷ write h r m

pub record ExchangeConfig : Type 0 where
  pub name : String
  pub type : String
  pub durable : Bool
  pub auto_delete : Bool
  pub internal : Bool
  pub args : MapRef

pub record QueueConfig : Type 0 where
  pub name : String
  pub exchange : String
  pub routing_keys : List String
  pub durable : Bool
  pub auto_delete : Bool
  pub exclusive : Bool
  pub args : MapRef

pub record DlqConfig : Type 0 where
  pub exchange_name : String
  pub queue_prefix : String
  pub exchange_type : String
  pub durable : Bool
  pub auto_delete : Bool

abbrev pub default_dlq_config : DlqConfig
default_dlq_config = record {
  exchange_name = "dlx.exchange";
  queue_prefix = "dlq.";
  exchange_type = "direct";
  durable = true;
  auto_delete = false;
}

unfoldable pub get_dlq_name : DlqConfig → String → String
get_dlq_name c queue_name = concat c.queue_prefix queue_name

unfoldable pub get_dlx_routing_key : DlqConfig → String → String
get_dlx_routing_key c queue_name = queue_name

unfoldable pub create_dlq_queue : QueueConfig → DlqConfig → QueueConfig
create_dlq_queue main_queue c = record {
  name = get_dlq_name c main_queue.name;
  exchange = c.exchange_name;
  routing_keys = get_dlx_routing_key c main_queue.name ∷ [];
  durable = c.durable;
  auto_delete = c.auto_delete;
  exclusive = false;
  args = none;
}

abbrev pub dead_letter_exchange : String
dead_letter_exchange = "x-dead-letter-exchange"

abbrev pub dead_letter_routing_key : String
dead_letter_routing_key = "x-dead-letter-routing-key"

-- `if q.Args == nil { q.Args = make(…) }`: the new map comes behind the others.
abbrev pub ensure_map : MapRef → Heap → ℕ × Heap
ensure_map (some r) h = (r, h)
ensure_map none h = (length h, h ++ [] ∷ [])

abbrev pub is_set : Option Value → Bool
is_set (some v) = true
is_set none = false

abbrev pub has_key : String → GoMap Value → Bool
has_key k m = is_set (lookup k m)

unfoldable pub with_dlx : String → String → QueueConfig → Heap → QueueConfig × Heap
with_dlx dlx_exchange routing_key q h =
    let (r, h') = ensure_map q.args h in
    let args = read h' (some r) in
    (
      record q { args = some r },
      if has_key dead_letter_exchange args
          then h'
          else write h' r (
              insert dead_letter_routing_key (string routing_key)
                (insert dead_letter_exchange (string dlx_exchange) args)),
    )
