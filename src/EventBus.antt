-- ===== src/EventBus.antt =====
-- publish.go and event.go: publishing events, one by one or in batches. The publisher's state is
-- `S`; its two methods and `json.Marshal` are parameters.
pub mod Batch
pub mod FailFast
pub mod Pipeline
pub mod Agree
pub mod Requeue
pub mod Bus
mod Examples
use rabbitmq_kit_go.Prelude.{
  ℕ, ◌+◌, Bool, true, false, not, ◌&&◌, String, Option, none, some, List, [], ◌∷◌, ◌++◌, length,
  if◌then◌else◌,
}
use rabbitmq_kit_go.Prelude.GoMap.{GoMap, lookup, insert, copy}
use rabbitmq_kit_go.Errors.{Error, nil, is_nil}
use rabbitmq_kit_go.Amqp.{Value, null, string, Headers, Publishing, empty_publishing, persistent}
use rabbitmq_kit_go.Config.Options.{BatchConfig, default_batch_config, apply_options}
use rabbitmq_kit_go.Broker.Retry.{Publish, or_new}
use rabbitmq_kit_go.Broker.Publisher.{PublishMessage}

-- What the methods of the interface `Event` return; `content` is `ToMap()`.
pub record Event : Type 0 where
  pub type : String
  pub exchange : String
  pub content : Value
  pub headers : Option Headers

-- What is read from outside for one event: fresh UUIDs and the clock.
pub record Ids : Type 0 where
  pub trace : String
  pub correlation : String
  pub message : String
  pub now : ℕ

-- The zero value `broker.PublishMessage{}`.
abbrev pub empty_message : PublishMessage
empty_message = record { exchange = ""; routing_key = ""; message = empty_publishing }

-- The publisher's methods, with the context fixed, and `json.Marshal`.
pub record Outside (S : Type 0) : Type 0 where
  pub publish : Publish S
  pub publish_pipeline : List PublishMessage → S → (List Error × Error) × S
  pub marshal : Value → Error × List ℕ

-- m[k] == nil: no entry, or a nil value
abbrev is_nil_value : Option Value → Bool
is_nil_value none = true
is_nil_value (some null) = true
is_nil_value (some v) = false

-- The event's headers, copied, with a trace id.
unfoldable pub headers_to_send : Ids → Option Headers → Headers
headers_to_send ids headers =
    let copied = copy (or_new headers) [] in
    if is_nil_value (lookup "trace_id" copied)
    then insert "trace_id" (string ids.trace) copied
    else copied

unfoldable pub create_default_publishing :
    (marshal : Value → Error × List ℕ) → Ids → Event → Error × Publishing
unfolding headers_to_send
create_default_publishing marshal ids event =
    let headers = headers_to_send ids event.headers in
    let (err, body) = marshal event.content in
    if not (is_nil err) then (err, empty_publishing) else (
      nil,
      record {
        headers = some headers;
        content_type = "application/json";
        delivery_mode = persistent;
        priority = 0;
        correlation_id = ids.correlation;
        reply_to = "";
        expiration = "";
        message_id = ids.message;
        timestamp = ids.now;
        type = event.type;
        user_id = "";
        app_id = "";
        body = body;
      },
    )

pub record BatchError : Type 0 where
  pub index : ℕ
  pub event : Event
  pub error : Error

-- The counts are ints that start at 0 and grow by one for an event, so they do not overflow.
pub record BatchResult : Type 0 where
  pub total : ℕ
  pub success : ℕ
  pub failed : ℕ
  pub errors : List BatchError

abbrev pub add_success : BatchResult → BatchResult
add_success r = record r { success = r.success + 1 }

abbrev pub add_failure : ℕ → Event → Error → BatchResult → BatchResult
add_failure i e err r = record r {
  failed = r.failed + 1;
  errors = r.errors ++ (record { index = i; event = e; error = err }) ∷ [];
}

-- One event's account.
abbrev pub account : ℕ → Event → Error → BatchResult → BatchResult
account i e err r = if is_nil err then add_success r else add_failure i e err r

module _ {S : Type 0} (o : Outside S) where
  -- `EventBus.Publish`
  unfoldable pub publish : Ids → Event → S → Error × S
  publish ids event s =
      let (err, msg) = create_default_publishing o.marshal ids event in
      if not (is_nil err) then (err, s) else o.publish event.exchange event.type msg s

  -- The loop of `publishBatchSequential`, from index `i`.
  unfoldable pub publish_sequential :
      Bool → ℕ → List (Ids × Event) → BatchResult → S → (BatchResult × Error) × S
  publish_sequential fail_fast i [] r s = ((r, nil), s)
  publish_sequential fail_fast i ((ids, event) ∷ events) r s =
      let (err, s') = publish ids event s in
      let rest = publish_sequential fail_fast (i + 1) events (account i event err r) s' in
      if not (is_nil err) && fail_fast then ((add_failure i event err r, err), s') else rest

  -- The first loop of `publishBatchPipeline`: a message for each event, and the account of those
  -- that could not be serialized. The error is that of an early return.
  unfoldable pub serialize :
      Bool → ℕ → List (Ids × Event) → BatchResult → (List PublishMessage × Error) × BatchResult
  serialize fail_fast i [] r = (([], nil), r)
  serialize fail_fast i ((ids, event) ∷ events) r =
      let (err, msg) = create_default_publishing o.marshal ids event in
      let r' = (if is_nil err then r else add_failure i event err r) in
      let message =
        (if is_nil err
          then record { exchange = event.exchange; routing_key = event.type; message = msg }
          else empty_message) in
      let ((messages, early), result) = serialize fail_fast (i + 1) events r' in
      if not (is_nil err) && fail_fast
      then (([], err), r')
      else ((message ∷ messages, early), result)

-- The last loop of `publishBatchPipeline`. There is one error for each message, so `events[i]`
-- is in range; where it would not be, the loop stops.
unfoldable pub tally :
    Bool → ℕ → List Error → List (Ids × Event) → BatchResult → BatchResult × Error
tally fail_fast i [] events r = (r, nil)
tally fail_fast i (err ∷ errs) [] r = (r, nil)
tally fail_fast i (err ∷ errs) ((ids, event) ∷ events) r =
    let rest = tally fail_fast (i + 1) errs events (account i event err r) in
    if not (is_nil err) && fail_fast then (add_failure i event err r, err) else rest

module _ {S : Type 0} (o : Outside S) where
  unfoldable pub publish_batch_pipeline :
      Bool → List (Ids × Event) → BatchResult → S → (BatchResult × Error) × S
  publish_batch_pipeline fail_fast events r s =
      let ((messages, early), r') = serialize o fail_fast 0 events r in
      if not (is_nil early)
      then ((r', early), s)
      else (let ((message_errors, fatal), s') = o.publish_pipeline messages s in
          if not (is_nil fatal)
          then ((r', fatal), s')
          else (tally fail_fast 0 message_errors events r', s'))

  unfoldable pub publish_batch_sequential :
      Bool → List (Ids × Event) → BatchResult → S → (BatchResult × Error) × S
  publish_batch_sequential fail_fast events r s = publish_sequential o fail_fast 0 events r s

  -- An empty batch returns at once.
  unfoldable pub publish_batch :
      List (Ids × Event) → List (BatchConfig → BatchConfig) → S → (BatchResult × Error) × S
  publish_batch [] opts s = ((record { total = 0; success = 0; failed = 0; errors = [] }, nil), s)
  publish_batch (e ∷ es) opts s =
      let cfg = apply_options opts default_batch_config in
      let result : BatchResult = record {
        total = length (e ∷ es);
        success = 0;
        failed = 0;
        errors = [];
      } in
      if cfg.use_pipelining
      then publish_batch_pipeline cfg.fail_fast (e ∷ es) result s
      else publish_batch_sequential cfg.fail_fast (e ∷ es) result s
