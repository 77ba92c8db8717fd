-- ===== src/Broker/Publisher/Processor.antt =====
-- internal/broker/publisher.go: the goroutine `processConfirmations`. A stream is what one call of
-- `NotifyPublish` delivers. The goroutine reads the fields `confirms` and `done` each time that it
-- enters the `select`, without the lock, and the log line of an unexpected tag is left out.
pub mod Settles
pub mod Drain
pub mod Handover
pub mod Turns
pub mod Turned
pub mod Order
mod Examples
use rabbitmq_kit_go.Prelude.{
  ℕ, Bool, true, false, not, ◌&&◌, ◌||◌, Option, none, some, List, [], ◌∷◌, ◌++◌, length, get_elem?,
  set_at, if◌then◌else◌,
}
use rabbitmq_kit_go.Broker.Publisher.{Publisher, View, reset_under_lock, confirm, confirms_closed}
use rabbitmq_kit_go.Broker.Publisher.Channels.{Go, ok, and_then, close_done}

pub record Stream : Type 0 where
  pub queue : List (ℕ × Bool)  -- delivery tag, ack: what is yet to be received
  pub closed : Bool

-- `confirms` is the number of the publisher's stream.
pub record World : Type 0 where
  pub publisher : Publisher
  pub confirms : ℕ
  pub streams : List Stream

-- Where the goroutine stands: at the head of its loop, at the `select` with the two channels that
-- it has read, past a receive and before the lock, or at its end.
pub data Processor : Type 0 where
  entering : Processor
  selecting : (confirms done : ℕ) → Processor
  routing : (tag : ℕ) → (ack : Bool) → Processor
  cleaning : Processor
  returned : Processor

-- case confirmation, ok := <-p.confirms
unfoldable pub receive_confirmation : (confirms done : ℕ) → World → Processor × World
receive_confirmation c d w = elim (get_elem? w.streams c) [
  | none ↦ (selecting c d, w)
  | some s ↦ elim s.queue [
    | [] ↦ (if s.closed then (cleaning, w) else (selecting c d, w))
    | (tag, ack) ∷ queue ↦
        (routing tag ack, record w { streams = set_at c (record s { queue = queue }) w.streams })
  ]
]

unfoldable pub is_ready : Option Stream → Bool
is_ready none = false
is_ready (some s) = elim s.queue [ [] ↦ s.closed | x ∷ xs ↦ true ]

abbrev pub is_closed : Option Bool → Bool
is_closed none = false
is_closed (some b) = b

-- The `select`: when both cases are ready, `done_first` says which one is taken; when none is, the
-- goroutine stays.
unfoldable pub select : (done_first : Bool) → (confirms done : ℕ) → World → Processor × World
unfolding receive_confirmation is_ready
select done_first c d w =
    if is_closed (get_elem? w.publisher.dones d)
      && (done_first || not (is_ready (get_elem? w.streams c)))
    then (returned, w)
    else receive_confirmation c d w

-- The goroutine up to its next use of what it shares.
unfoldable pub advance : (done_first : Bool) → Processor → World → Go (Processor × World)
unfolding select
advance done_first entering w = ok (selecting w.confirms w.publisher.done, w)
advance done_first (selecting c d) w = ok (select done_first c d w)
advance done_first (routing tag ack) w =
    and_then (confirm tag ack w.publisher) (λ p. ok (entering, record w { publisher = p }))
advance done_first cleaning w =
    and_then (confirms_closed w.publisher) (λ p. ok (returned, record w { publisher = p }))
advance done_first returned w = ok (returned, w)

-- Turns of the goroutine while no other one moves, with the choices of its `select`.
unfoldable pub process : List Bool → Processor → World → Go (Processor × World)
unfolding advance
process [] at w = ok (at, w)
process (done_first ∷ choices) at w =
    and_then (advance done_first at w) (λ (at', w'). process choices at' w')

-- Up to the sleep of `ensureConfirmsSetup`, once it has found another channel.
unfoldable pub stop_processor : (channel : ℕ) → World → Go World
unfolding reset_under_lock
stop_processor channel w = and_then (reset_under_lock channel w.publisher) (λ (p, old_done).
    and_then (close_done old_done p.dones)
      (λ dones. ok (record w { publisher = record p { dones = dones } })))

-- After the sleep: a stream of the client's channel, for a new goroutine that is `entering`.
unfoldable pub start_processor : World → World
start_processor w = record w {
  publisher = record w.publisher { started = true };
  confirms = length w.streams;
  streams = w.streams ++ record { queue = []; closed = false } ∷ [];
}
