-- ===== src/Amqp.antt =====
-- The data of the amqp091-go package, as far as the source reads or writes it: header values and
-- tables, deliveries and publishings. The package's operations are parameters of their users.
use rabbitmq_kit_go.Prelude.{ℕ, Bool, String, Option, none, some, List, [], if◌then◌else◌, str_eq}
use rabbitmq_kit_go.Prelude.Int.{ℤ}
use rabbitmq_kit_go.Prelude.GoMap.{GoMap}

-- A float64: the sign and a fraction over a power of two, or an infinity or NaN.
pub data Float64 : Type 0 where
  fraction : (negative : Bool) → (numerator : ℕ) → (halvings : ℕ) → Float64
  not_finite : Float64

-- A value in a header table, by its dynamic Go type. `time` holds the Unix seconds.
mutual
  pub data Value : Type 0 where
    null : Value
    boolean : Bool → Value
    int : ℤ → Value
    int32 : ℤ → Value
    int64 : ℤ → Value
    float64 : Float64 → Value
    string : String → Value
    time : ℤ → Value
    array : Values → Value
    table : Fields → Value

  pub data Values : Type 0 where
    empty : Values
    item : Value → Values → Values

  pub data Fields : Type 0 where
    end : Fields
    field : String → Value → Fields → Fields

-- An `amqp.Table` that is not nil, at the top of a message.
abbrev pub Headers : Type 0
Headers = GoMap Value

-- t[k] in a table inside a value
unfoldable pub field_of : String → Fields → Option Value
field_of k end = none
field_of k (field j v fs) = if str_eq j k then some v else field_of k fs

-- `headers` is `none` for a nil table.
pub record Delivery : Type 0 where
  pub headers : Option Headers
  pub content_type : String
  pub delivery_mode : ℕ  -- uint8
  pub priority : ℕ  -- uint8
  pub correlation_id : String
  pub reply_to : String
  pub expiration : String
  pub message_id : String
  pub type : String
  pub user_id : String
  pub app_id : String
  pub exchange : String
  pub routing_key : String
  pub body : List ℕ

pub record Publishing : Type 0 where
  pub headers : Option Headers
  pub content_type : String
  pub delivery_mode : ℕ  -- uint8
  pub priority : ℕ  -- uint8
  pub correlation_id : String
  pub reply_to : String
  pub expiration : String
  pub message_id : String
  pub timestamp : ℕ
  pub type : String
  pub user_id : String
  pub app_id : String
  pub body : List ℕ

-- The zero value `amqp.Publishing{}`.
abbrev pub empty_publishing : Publishing
empty_publishing = record {
  headers = none;
  content_type = "";
  delivery_mode = 0;
  priority = 0;
  correlation_id = "";
  reply_to = "";
  expiration = "";
  message_id = "";
  timestamp = 0;
  type = "";
  user_id = "";
  app_id = "";
  body = [];
}

-- amqp.Persistent
abbrev pub persistent : ℕ
persistent = 2
