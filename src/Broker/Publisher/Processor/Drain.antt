-- ===== src/Broker/Publisher/Processor/Drain.antt =====
-- A stream that is closed, and its goroutine until it returns.
use rabbitmq_kit_go.Prelude.{
  get_elem?-set_at_here, set_at, ℕ, ◌+◌, ◌*◌, ◌≤◌, ◌≡◌, refl, ◌∙◌, Bool, true, false, Option, none,
  some, List, [], ◌∷◌, length, get_elem?, arith,
}
use rabbitmq_kit_go.Errors.{Error, nil, sentinel, publish_confirm_timeout, publish_not_confirmed}
use rabbitmq_kit_go.Broker.Publisher.{
  Publisher, confirm, confirms_closed, conclude, receive, unregister, received,
}
use rabbitmq_kit_go.Broker.Publisher.Channels.{ok, closed, find, remove}
use rabbitmq_kit_go.Broker.Publisher.Steps.{IsSound}
use rabbitmq_kit_go.Broker.Publisher.Processor.{
  World, entering, returned, advance, process, select, receive_confirmation,
}
use rabbitmq_kit_go.Broker.Publisher.Processor.Settles.{
  answer, Settles, confirm-Routed, confirms_closed-Settles, Settles-Routed,
}

process-returned : (choices : List Bool) (w : World) → process choices returned w ≡ ok (returned, w)
unfolding process advance
process-returned [] w = refl
process-returned (x ∷ choices) w = process-returned choices w

abbrev taken_from : List (ℕ × Bool) → World → World
taken_from queue w = record w {
  streams = set_at w.confirms (record { queue = queue; closed = true }) w.streams;
}

module _ (w : World) (x y z : Bool) (choices : List Bool)
    (running : get_elem? w.publisher.dones w.publisher.done ≡ some false) where
  routes :
      (tag : ℕ) (ack : Bool) (queue : List (ℕ × Bool)) (p : Publisher)
      → get_elem? w.streams w.confirms ≡ some (record { queue = (tag, ack) ∷ queue; closed = true })
      → confirm tag ack w.publisher ≡ ok p
      → process (x ∷ y ∷ z ∷ choices) entering w
        ≡ process choices entering (record (taken_from queue w) { publisher = p })
  unfolding process advance select
  routes tag ack queue p stream h = rw (running, stream, receive_confirmation, h) refl

  returns :
      (p : Publisher)
      → get_elem? w.streams w.confirms ≡ some (record { queue = []; closed = true })
      → confirms_closed w.publisher ≡ ok p
      → process (x ∷ y ∷ z ∷ choices) entering w ≡ ok (returned, record w { publisher = p })
  unfolding process advance select
  returns p stream h =
      rw (running, stream, receive_confirmation, h)
        (process-returned choices (record w { publisher = p }))

-- Once the stream of a publisher is closed, its processor of confirmations, alone and whichever
-- case its `select` takes, comes to its end within three turns for each confirmation left and three
-- more: it neither panics nor waits, and every message that waited has its first answer in the
-- stream, or is told that there is none.
pub drain_lem :
    (queue : List (ℕ × Bool)) (choices : List Bool) (w : World)
    → IsSound w.publisher
    → get_elem? w.publisher.dones w.publisher.done ≡ some false
    → get_elem? w.streams w.confirms ≡ some (record { queue = queue; closed = true })
    → 3 * length queue + 3 ≤ length choices
    → (w' : World) × (process choices entering w ≡ ok (returned, w'))
      × (w'.publisher.pending ≡ [])
      × Settles w.publisher queue w'.publisher.results
drain_lem queue [] w sound running stream enough = absurd (omega arith)
drain_lem queue (x ∷ []) w sound running stream enough = absurd (omega arith)
drain_lem queue (x ∷ y ∷ []) w sound running stream enough = absurd (omega arith)
drain_lem [] (x ∷ y ∷ z ∷ choices) w sound running stream enough =
    let (p, h, empty, settles) = confirms_closed-Settles w.publisher sound in
    (record w { publisher = p }, returns w x y z choices running p stream h, empty, settles)
drain_lem ((tag, ack) ∷ queue) (x ∷ y ∷ z ∷ choices) w sound running stream enough =
    let (p, h, r) = confirm-Routed tag ack w.publisher sound in
    let (w', h', empty, settles) =
      drain_lem queue choices (record (taken_from queue w) { publisher = p }) r.sound
        (rw (r.done, r.dones) running)
        (get_elem?-set_at_here w.confirms (record { queue = queue; closed = true })
          (record { queue = (tag, ack) ∷ queue; closed = true }) w.streams stream)
        (omega arith) in
    (
      w',
      routes w x y z choices running tag ack queue p stream h ∙ h',
      empty,
      Settles-Routed tag ack queue w.publisher p w'.publisher.results r settles,
    )

-- What a publish returns on the answer that it receives, or on none.
abbrev pub outcome : Option Bool → Error
outcome none = sentinel publish_confirm_timeout
outcome (some true) = nil
outcome (some false) = sentinel publish_not_confirmed

concluded :
    (tag chan : ℕ) (value : Option Bool) (p : Publisher)
    → get_elem? p.results chan ≡ some (closed value)
    → p.pending ≡ []
    → (p' : Publisher) × (conclude received tag chan p ≡ ok (outcome value, p')) × (p'.pending ≡ [])
unfolding conclude receive unregister remove
concluded tag chan none p h empty = (unregister tag p, rw (h, receive) refl, rw empty refl)
concluded tag chan (some true) p h empty = (p, rw (h, receive) refl, empty)
concluded tag chan (some false) p h empty = (unregister tag p, rw (h, receive) refl, rw empty refl)

-- When the stream of a publisher is closed, its messages that wait have open channels of their own,
-- and nothing has told its processor to stop, every publish that waits comes to its end without the
-- timer: three turns of the processor, alone, for each confirmation left and three more, whichever
-- case its `select` takes, bring it to its return, and then each publish that had its message
-- registered returns at once: without error if its first answer in the stream is an ack, with
-- ErrPublishNotConfirmed if it is a nack, and with ErrPublishConfirmTimeout if there is none.
pub publishes_end :
    (queue : List (ℕ × Bool)) (choices : List Bool) (w : World)
    → IsSound w.publisher
    → get_elem? w.publisher.dones w.publisher.done ≡ some false
    → get_elem? w.streams w.confirms ≡ some (record { queue = queue; closed = true })
    → 3 * length queue + 3 ≤ length choices
    → (w' : World) × (process choices entering w ≡ ok (returned, w'))
      × (w'.publisher.pending ≡ [])
      × ((tag chan : ℕ)
          → find tag w.publisher.pending ≡ some chan
          → (p' : Publisher) × (conclude received tag chan w'.publisher
              ≡ ok (outcome (answer tag queue), p'))
            × (p'.pending ≡ []))
publishes_end queue choices w sound running stream enough =
    let (w', h, empty, settles) = drain_lem queue choices w sound running stream enough in
    (
      w',
      h,
      empty,
      λ tag chan found.
          concluded tag chan (answer tag queue) w'.publisher (settles.waiting tag chan found) empty,
    )
