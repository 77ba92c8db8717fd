-- ===== src/Broker/Retry/Laws.antt =====
-- How often a message is retried, and what the copies look like.
use rabbitmq_kit_go.Prelude.{
  ℕ, zero, suc, ◌+◌, ◌-◌, ◌≤◌, ◌<◌, ◌≡◌, refl, ◌∙◌, dec_lt, true, false, String, Option, none, some,
  arith, if◌then◌else◌, str_eq,
}
use rabbitmq_kit_go.Prelude.Int.{ℤ, pos, leb_int, incr, max_int}
use rabbitmq_kit_go.Prelude.GoMap.{lookup, insert, lookup-insert, lookup-empty}
use rabbitmq_kit_go.Errors.{nil, sentinel, max_retries_exceeded}
use rabbitmq_kit_go.Amqp.{int, Headers, Delivery, Publishing, persistent}
use rabbitmq_kit_go.Router.Message.{get_retry_count, count_header, get}
use rabbitmq_kit_go.Broker.Retry.{Publish, Handler, or_new, republished, retry}

-- A message whose count has reached the limit is not published: the error tells so, and neither
-- the publisher nor the message changes.
pub retry_exhausted :
    {S : Type 0} (publish : Publish S) (now : ℕ) (h : Handler) (d : Delivery) (s : S)
    → leb_int h.max_retries (get_retry_count d) ≡ true
    → retry publish now h d s ≡ ((sentinel max_retries_exceeded, d), s)
unfolding retry
retry_exhausted publish now h d s e = rw e

-- What the broker hands out when the copy arrives.
abbrev pub redelivered : Delivery → Publishing → Delivery
redelivered d p = record {
  headers = p.headers;
  content_type = p.content_type;
  delivery_mode = p.delivery_mode;
  priority = p.priority;
  correlation_id = p.correlation_id;
  reply_to = p.reply_to;
  expiration = p.expiration;
  message_id = p.message_id;
  type = p.type;
  user_id = p.user_id;
  app_id = p.app_id;
  exchange = d.exchange;
  routing_key = d.routing_key;
  body = p.body;
}

retry_count-republished :
    (now : ℕ) (n : ℤ) (d : Delivery) → get_retry_count (redelivered d (republished now n d)) ≡ n
unfolding get_retry_count
retry_count-republished now n d = simp lookup-insert

-- What a retry keeps of a message: all headers but the count, which goes up by one, the body and
-- every property; and the copy is persistent.
pub record IsRetryCopy (d : Delivery) (p : Publishing) : Type 0 where
  pub headers :
      (j : String)
      → get j p.headers
        ≡ (if str_eq count_header j then some (int (incr (get_retry_count d))) else get j d.headers)
  pub delivery_mode : p.delivery_mode ≡ persistent
  pub body : p.body ≡ d.body
  pub content_type : p.content_type ≡ d.content_type
  pub priority : p.priority ≡ d.priority
  pub correlation_id : p.correlation_id ≡ d.correlation_id
  pub reply_to : p.reply_to ≡ d.reply_to
  pub expiration : p.expiration ≡ d.expiration
  pub message_id : p.message_id ≡ d.message_id
  pub type : p.type ≡ d.type
  pub user_id : p.user_id ≡ d.user_id
  pub app_id : p.app_id ≡ d.app_id

get-counted :
    (j : String) (n : ℤ) (t : Option Headers)
    → lookup j (insert count_header (int n) (or_new t))
      ≡ (if str_eq count_header j then some (int n) else get j t)
unfolding get
get-counted j n none = rw (lookup-insert, lookup-empty)
get-counted j n (some t) = rw lookup-insert

republished-IsRetryCopy :
    (now : ℕ) (d : Delivery) → IsRetryCopy d (republished now (incr (get_retry_count d)) d)
republished-IsRetryCopy now d = record {
  headers = λ j. unfold get in get-counted j (incr (get_retry_count d)) d.headers;
  delivery_mode = refl;
  body = refl;
  content_type = refl;
  priority = refl;
  correlation_id = refl;
  reply_to = refl;
  expiration = refl;
  message_id = refl;
  type = refl;
  user_id = refl;
  app_id = refl;
}

-- A message below the limit is published once, to the exchange and with the routing key that it
-- came with, as a copy whose count is one higher; the error is that of the publisher.
pub retry_copy :
    {S : Type 0} (publish : Publish S) (now : ℕ) (h : Handler) (d : Delivery) (s : S)
    → leb_int h.max_retries (get_retry_count d) ≡ false
    → (p : Publishing) × IsRetryCopy d p
      × ((retry publish now h d s).0.0 ≡ (publish d.exchange d.routing_key p s).0)
      × ((retry publish now h d s).1 ≡ (publish d.exchange d.routing_key p s).1)
unfolding retry
retry_copy publish now h d s e =
    (republished now (incr (get_retry_count d)) d, republished-IsRetryCopy now d, rw e, rw e)

-- A publisher that keeps the last message and reports success.
abbrev pub keep_last : Publish (Option Publishing)
keep_last exchange routing_key m s = (nil, some m)

-- The message as it comes back after a failed attempt, if there is a further attempt.
unfoldable pub next_attempt : ℕ → Handler → Delivery → Option Delivery
unfolding retry
next_attempt now h d =
    let ((err, d'), sent) = retry keep_last now h d none in
    elim sent [ none ↦ none | some p ↦ some (redelivered d p) ]

-- How often a handler that always fails is called for a message, at most `fuel` times.
pub attempts : ℕ → ℕ → Handler → Delivery → ℕ
attempts zero now h d = 0
attempts (suc fuel) now h d = elim (next_attempt now h d) [
  | none ↦ 1
  | some d' ↦ suc (attempts fuel now h d')
]

next_attempt_last :
    (now : ℕ) (h : Handler) (d : Delivery)
    → leb_int h.max_retries (get_retry_count d) ≡ true
    → next_attempt now h d ≡ none
unfolding next_attempt
next_attempt_last now h d e = rw (next_attempt, e)

next_attempt_more :
    (now : ℕ) (h : Handler) (d : Delivery)
    → leb_int h.max_retries (get_retry_count d) ≡ false
    → next_attempt now h d ≡ some (redelivered d (republished now (incr (get_retry_count d)) d))
unfolding next_attempt
next_attempt_more now h d e = rw (next_attempt, e)

-- A message that its handler keeps failing is handled `MaxRetries` + 1 times in all, those before
-- counted in, and then no more: enough fuel gives the exact number.
pub attempts_lem :
    (fuel now c m : ℕ) (h : Handler) (d : Delivery)
    → h.max_retries ≡ pos m
    → get_retry_count d ≡ pos c
    → c ≤ m
    → m < max_int
    → m - c < fuel
    → attempts fuel now h d ≡ m - c + 1
unfolding attempts
attempts_lem zero now c m h d hm hc le k f = absurd (omega arith)
attempts_lem (suc fuel) now c m h d hm hc le k f = elim (dec_lt c m) [
  | yes more ↦
      let d' = redelivered d (republished now (incr (get_retry_count d)) d) in
      let count' : get_retry_count d' ≡ pos (c + 1) =
        retry_count-republished now (incr (get_retry_count d)) d ∙ ground arith in
      rw (attempts, next_attempt_more now h d (ground arith))
        (omega
          (arith, attempts_lem fuel now (c + 1) m h d' hm count' (omega arith) k (omega arith)))
  | no last ↦ rw (attempts, next_attempt_last now h d (ground arith)) (omega arith)
]
