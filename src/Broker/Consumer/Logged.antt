-- ===== src/Broker/Consumer/Logged.antt =====
-- The retry count that the consumer logs.
use rabbitmq_kit_go.Prelude.{ℕ, ◌≡◌, ◌∙◌, ap, false, Option, none, some, [], ◌∷◌, ◌++◌, arith}
use rabbitmq_kit_go.Prelude.Int.{ℤ, leb_int, incr}
use rabbitmq_kit_go.Prelude.GoMap.{lookup-insert}
use rabbitmq_kit_go.Errors.{nil, is}
use rabbitmq_kit_go.Amqp.{Headers, Delivery}
use rabbitmq_kit_go.Router.Message.{get_retry_count, or_zero, get, count_header}
use rabbitmq_kit_go.Broker.Retry.{Publish, Handler, retry, shared_write, counted}
use rabbitmq_kit_go.Broker.Consumer.{World, debug, after_retry}

delivery-retry :
    {S : Type 0} (publish : Publish S) (now : ℕ) (h : Handler) (d : Delivery) (s : S)
    → leb_int h.max_retries (get_retry_count d) ≡ false
    → (retry publish now h d s).0.1 ≡ shared_write (incr (get_retry_count d)) d
unfolding retry
delivery-retry publish now h d s b = ground arith

count-shared_write :
    (n : ℤ) (d : Delivery) (t : Headers)
    → d.headers ≡ some t
    → get_retry_count (shared_write n d) ≡ n
unfolding get_retry_count
count-shared_write n d t e =
    ap
      (λ (hs : Option Headers).
        or_zero (get count_header (elim hs [ none ↦ none | some u ↦ some (counted n d) ])))
      e
    ∙ (simp lookup-insert)

count-retry :
    {S : Type 0} (publish : Publish S) (now : ℕ) (h : Handler) (d : Delivery) (t : Headers) (s : S)
    → d.headers ≡ some t
    → leb_int h.max_retries (get_retry_count d) ≡ false
    → get_retry_count (retry publish now h d s).0.1 ≡ incr (get_retry_count d)
count-retry publish now h d t s e b =
    ap get_retry_count (delivery-retry publish now h d s b)
    ∙ count-shared_write (incr (get_retry_count d)) d t e

-- The delivery and its message context share one header table, and `Retry` has counted in it, so
-- for a message requeued with count n + 1 the line "Message requeued for retry" shows n + 2.
pub logged_count :
    {S T : Type 0} (publish : Publish S) (now : ℕ) (h : Handler) (d : Delivery) (t : Headers)
    (s : S) (w : World T)
    → d.headers ≡ some t
    → leb_int h.max_retries (get_retry_count d) ≡ false
    → (retry publish now h d s).0.0 ≡ nil
    → (after_retry (retry publish now h d s).0.0 (retry publish now h d s).0.1 w).lines
      ≡ w.lines
        ++ (record {
          level = debug;
          text = "Consumer Worker: Message requeued for retry";
          retry_count = some (incr (incr (get_retry_count d)));
        })
          ∷ []
unfolding after_retry is
logged_count publish now h d t s w e b r =
    rw (r, after_retry, is, count-retry publish now h d t s e b)
