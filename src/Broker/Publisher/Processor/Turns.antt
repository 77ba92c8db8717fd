-- ===== src/Broker/Publisher/Processor/Turns.antt =====
-- The processor of confirmations among the publishers: turns of each, and what they come to.
use rabbitmq_kit_go.Prelude.{
  set_at, ℕ, ◌≡◌, Bool, true, none, some, List, [], ◌∷◌, ◌++◌, get_elem?, if◌then◌else◌,
}
use rabbitmq_kit_go.Broker.Publisher.{register, unregister}
use rabbitmq_kit_go.Broker.Publisher.Channels.{Go, ok, panic, blocked, and_then}
use rabbitmq_kit_go.Broker.Publisher.Steps.{Step, registered, gave_up, confirmed, lost}
use rabbitmq_kit_go.Broker.Publisher.Processor.{
  Stream, World, Processor, entering, selecting, routing, cleaning, returned, advance,
}

-- `Publish` registers a message or ends without its confirmation; the AMQP channel delivers a
-- confirmation, or breaks; the processor moves.
pub data Turn : Type 0 where
  registers : Turn
  gives_up : (tag : ℕ) → Turn
  arrives : (tag : ℕ) → (ack : Bool) → Turn
  breaks : Turn
  moves : (done_first : Bool) → Turn

-- Nothing is delivered any more on a stream that is closed.
abbrev pub arrive : ℕ → Bool → Stream → Stream
arrive tag ack s = if s.closed then s else record s { queue = s.queue ++ (tag, ack) ∷ [] }

abbrev pub on_stream : (Stream → Stream) → World → World
on_stream f w = elim (get_elem? w.streams w.confirms) [
  | none ↦ w
  | some s ↦ record w { streams = set_at w.confirms (f s) w.streams }
]

unfoldable pub take_turn : Turn → Processor → World → Go (Processor × World)
take_turn registers at w = ok (at, record w { publisher = (register w.publisher).1 })
take_turn (gives_up tag) at w = ok (at, record w { publisher = unregister tag w.publisher })
take_turn (arrives tag ack) at w = ok (at, on_stream (arrive tag ack) w)
take_turn breaks at w = ok (at, on_stream (λ s. record s { closed = true }) w)
take_turn (moves done_first) at w = advance done_first at w

unfoldable pub run_turns : List Turn → Processor → World → Go (Processor × World)
unfolding take_turn
run_turns [] at w = ok (at, w)
run_turns (turn ∷ turns) at w = and_then (take_turn turn at w) (λ (at', w'). run_turns turns at' w')

-- What a turn does to the publisher.
abbrev pub step_of : Turn → Processor → List Step
step_of registers at = registered ∷ []
step_of (gives_up tag) at = gave_up tag ∷ []
step_of (moves b) (routing tag ack) = confirmed tag ack ∷ []
step_of (moves b) cleaning = lost ∷ []
step_of turn at = []

abbrev pub after : {A : Type 0} → Go (Processor × World) → (Processor → World → List A) → List A
after (ok (at, w)) f = f at w
after panic f = []
after blocked f = []

-- What a run does to the publisher, in order.
unfoldable pub steps_of : List Turn → Processor → World → List Step
unfolding take_turn
steps_of [] at w = []
steps_of (turn ∷ turns) at w = step_of turn at ++ after (take_turn turn at w) (steps_of turns)

-- The confirmations among the steps, in their order.
abbrev pub confirmations : List Step → List (ℕ × Bool)
confirmations [] = []
confirmations (confirmed tag ack ∷ steps) = (tag, ack) ∷ confirmations steps
confirmations (registered ∷ steps) = confirmations steps
confirmations (gave_up tag ∷ steps) = confirmations steps
confirmations (lost ∷ steps) = confirmations steps

-- What the AMQP channel delivers in a turn, and whether it is broken after it.
abbrev pub arrival : (closed : Bool) → Turn → List (ℕ × Bool)
arrival closed (arrives tag ack) = if closed then [] else (tag, ack) ∷ []
arrival closed registers = []
arrival closed (gives_up tag) = []
arrival closed breaks = []
arrival closed (moves b) = []

abbrev pub broken : (closed : Bool) → Turn → Bool
broken closed breaks = true
broken closed registers = closed
broken closed (gives_up tag) = closed
broken closed (arrives tag ack) = closed
broken closed (moves b) = closed

-- What it delivers until it breaks.
abbrev pub delivered : (closed : Bool) → List Turn → List (ℕ × Bool)
delivered closed [] = []
delivered closed (turn ∷ turns) = arrival closed turn ++ delivered (broken closed turn) turns

abbrev pub in_hand : Processor → List (ℕ × Bool)
in_hand (routing tag ack) = (tag, ack) ∷ []
in_hand entering = []
in_hand (selecting c d) = []
in_hand cleaning = []
in_hand returned = []

-- The processor waits for no stream but the publisher's.
abbrev pub Watches : ℕ → Processor → Type 0
Watches confirms (selecting c d) = c ≡ confirms
Watches confirms entering = Unit
Watches confirms (routing tag ack) = Unit
Watches confirms cleaning = Unit
Watches confirms returned = Unit
