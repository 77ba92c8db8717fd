-- ===== src/Broker/Publisher/Processor/Examples.antt =====
-- The processor of confirmations at concrete inputs.
use rabbitmq_kit_go.Prelude.{
  ℕ, some, arith, ◌≡◌, refl, Bool, true, false, none, some, List, [], ◌∷◌, length,
}
use rabbitmq_kit_go.Broker.Publisher.{Publisher, conclude, received, confirm, confirms_closed}
use rabbitmq_kit_go.Broker.Publisher.Channels.{
  ok, and_then, open_, closed, find, send, close_result, close_all, remove,
}
use rabbitmq_kit_go.Broker.Publisher.Sound.{Waiting}
use rabbitmq_kit_go.Broker.Publisher.Steps.{IsSound}
use rabbitmq_kit_go.Broker.Publisher.Setup.{IsReady}
use rabbitmq_kit_go.Broker.Publisher.Processor.{
  Stream, World, Processor, entering, selecting, returned, advance, process, stop_processor,
  start_processor,
}
use rabbitmq_kit_go.Broker.Publisher.Processor.Settles.{answer}
use rabbitmq_kit_go.Broker.Publisher.Processor.Drain.{outcome, publishes_end}
use rabbitmq_kit_go.Broker.Publisher.Processor.Handover.{handed_over}
use rabbitmq_kit_go.Broker.Publisher.Processor.Turns.{Turn, registers, arrives, breaks, moves}

-- Two messages wait on the first channel.
abbrev busy : Publisher
busy = record {
  pending = (2, 1) ∷ (1, 0) ∷ [];
  results = open_ none ∷ open_ none ∷ [];
  delivery_tag = 2;
  done = 0;
  dones = false ∷ [];
  started = true;
  channel_id = 7;
}

busy-Sound : IsSound busy
unfolding IsSound Waiting
busy-Sound = (refl, (refl, tt), (refl, tt, tt))

busy-Ready : IsReady busy
busy-Ready = record { started = refl; done = refl }

abbrev quiet : Stream
quiet = record { queue = []; closed = false }

-- One of the two has its answer, and the connection is lost.
abbrev last_answer : Stream
last_answer = record { queue = (2, false) ∷ []; closed = true }

abbrev on_one : Stream → World
on_one s = record { publisher = busy; confirms = 0; streams = s ∷ [] }

abbrev choices : List Bool
choices = true ∷ true ∷ true ∷ false ∷ false ∷ true ∷ []

publishes_end_example :
    (w' : World) × (process choices entering (on_one last_answer) ≡ ok (returned, w'))
    × (w'.publisher.pending ≡ [])
    × ((tag chan : ℕ)
        → find tag busy.pending ≡ some chan
        → (p' : Publisher) × (conclude received tag chan w'.publisher
            ≡ ok (outcome (answer tag ((2, false) ∷ [])), p'))
          × (p'.pending ≡ []))
publishes_end_example =
    publishes_end ((2, false) ∷ []) choices (on_one last_answer) busy-Sound refl refl (ground arith)

-- The first message is told that there is no answer, and the second its answer.
drained :
    and_then (process choices entering (on_one last_answer)) (λ (at, w). ok w.publisher.results)
    ≡ ok (closed none ∷ closed (some false) ∷ [])
unfolding process confirm confirms_closed find send close_result close_all remove
drained = refl

handed_over_example :
    (w1 : World) × (stop_processor 8 (on_one quiet) ≡ ok w1)
    × (advance true (selecting 0 0) w1 ≡ ok (returned, w1))
    × IsReady (start_processor w1).publisher
    × (process (true ∷ true ∷ []) entering (start_processor w1)
        ≡ ok
            (selecting (length w1.streams) (start_processor w1).publisher.done, start_processor w1))
handed_over_example = handed_over 8 true (on_one quiet) busy-Sound busy-Ready refl

abbrev turns : List Turn
turns =
    moves true
    ∷ arrives 2 true
    ∷ registers
    ∷ moves false
    ∷ arrives 1 false
    ∷ moves false
    ∷ breaks
    ∷ arrives 3 true
    ∷ []
