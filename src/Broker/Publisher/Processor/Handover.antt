-- ===== src/Broker/Publisher/Processor/Handover.antt =====
-- The setup for another channel, and the goroutine that it is to replace.
use rabbitmq_kit_go.Prelude.{
  get_elem?-set_at, get_elem?-set_at_here, get_elem?-append, get_elem?-last, set_at, ℕ, ◌≡◌, refl,
  sym, ap, ◌∙◌, Bool, true, false, not, ◌||◌, some, List, [], ◌∷◌, ◌++◌, length, get_elem?, ◌==◌,
  arith,
}
use rabbitmq_kit_go.Broker.Publisher.{Publisher, View, reset_under_lock, ensure_confirms_setup}
use rabbitmq_kit_go.Broker.Publisher.Channels.{ok, and_then, and_then_assoc, Result, close_done}
use rabbitmq_kit_go.Broker.Publisher.Confirm.{close_all_lem}
use rabbitmq_kit_go.Broker.Publisher.Steps.{IsSound}
use rabbitmq_kit_go.Broker.Publisher.Setup.{IsReady, close_done_open}
use rabbitmq_kit_go.Broker.Publisher.Processor.{
  World, entering, selecting, returned, advance, process, select, receive_confirmation, is_ready,
  stop_processor, start_processor,
}

-- The publisher when its old processor has been told to stop.
abbrev stopped : ℕ → List Result → Publisher → Publisher
stopped channel results p = record p {
  pending = [];
  results = results;
  delivery_tag = 0;
  done = length p.dones;
  dones = set_at p.done true (p.dones ++ false ∷ []);
  started = false;
  channel_id = channel;
}

stop_lem :
    (channel : ℕ) (w : World)
    → IsSound w.publisher
    → IsReady w.publisher
    → (results : List Result) × (stop_processor channel w
        ≡ ok (record w { publisher = stopped channel results w.publisher }))
unfolding stop_processor reset_under_lock IsSound
stop_lem channel w sound ready =
    let p = w.publisher in
    let (results, h, same) = close_all_lem p.pending p.results sound in
    let (kept, below) = get_elem?-append p.done false false p.dones ready.done in
    (results, rw (ready.started, h, close_done_open p.done (p.dones ++ false ∷ []) kept) refl)

-- The two parts, when the client still has a channel, are `ensureConfirmsSetup`.
pub ensure_confirms_setup-World :
    (v : View) (later : ℕ) (w : World)
    → (not v.publisher_confirms || v.channel == w.publisher.channel_id) ≡ false
    → (later == 0) ≡ false
    → ensure_confirms_setup v later w.publisher
      ≡ and_then (stop_processor v.channel w) (λ w1. ok (start_processor w1).publisher)
unfolding ensure_confirms_setup stop_processor start_processor
ensure_confirms_setup-World v later w changed present =
    rw
      (
        changed,
        present,
        and_then_assoc (reset_under_lock v.channel w.publisher)
            (λ (p, old_done).
              and_then (close_done old_done p.dones)
                (λ dones. ok (record w { publisher = record p { dones = dones } })))
            (λ w1. ok (record w1.publisher { started = true })),
      )
      (ap (and_then (reset_under_lock v.channel w.publisher)) (λ i (p, old_done).
        sym
          (and_then_assoc (close_done old_done p.dones)
            (λ dones. ok (record w { publisher = record p { dones = dones } }))
            (λ w1. ok (record w1.publisher { started = true })))
          i))

-- The old `done` channel is closed, and the new one is open.
stopped_dones :
    (channel : ℕ) (results : List Result) (p : Publisher)
    → IsReady p
    → let q = stopped channel results p in
      (get_elem? q.dones p.done ≡ some true) × (get_elem? q.dones q.done ≡ some false)
stopped_dones channel results p ready =
    let (kept, below) = get_elem?-append p.done false false p.dones ready.done in
    (
      get_elem?-set_at_here p.done true false (p.dones ++ false ∷ []) kept,
      get_elem?-set_at p.done (length p.dones) true (p.dones ++ false ∷ []) (ground arith)
          ∙ get_elem?-last false p.dones,
    )

-- A `select` whose `done` channel is open.
select_open :
    (first : Bool) (c d : ℕ) (w : World)
    → get_elem? w.publisher.dones d ≡ some false
    → select first c d w ≡ receive_confirmation c d w
unfolding select
select_open first c d w open_done = rw open_done refl

receive_nothing :
    (c d : ℕ) (w : World)
    → get_elem? w.streams c ≡ some (record { queue = []; closed = false })
    → receive_confirmation c d w ≡ (selecting c d, w)
unfolding receive_confirmation
receive_nothing c d w quiet = rw (quiet, receive_confirmation) refl

or_true : (b : Bool) → b || true ≡ true
or_true true = refl
or_true false = refl

-- Once a running publisher has reset for another channel: a processor of confirmations that waits
-- at its `select`, with nothing to receive, returns at its next turn; the new processor comes to
-- wait for the new channel's confirmations with a `done` channel that is open.
pub handed_over :
    (channel : ℕ) (first : Bool) (w : World)
    → IsSound w.publisher
    → IsReady w.publisher
    → get_elem? w.streams w.confirms ≡ some (record { queue = []; closed = false })
    → (w1 : World) × (stop_processor channel w ≡ ok w1)
      × (advance first (selecting w.confirms w.publisher.done) w1 ≡ ok (returned, w1))
      × IsReady (start_processor w1).publisher
      × (process (first ∷ first ∷ []) entering (start_processor w1)
          ≡ ok (
            selecting (length w1.streams) (start_processor w1).publisher.done,
            start_processor w1,
          ))
unfolding process advance select start_processor
handed_over channel first w sound ready quiet =
    let (results, h) = stop_lem channel w sound ready in
    let w1 : World = record w { publisher = stopped channel results w.publisher } in
    let (old, new) = stopped_dones channel results w.publisher ready in
    let fresh = get_elem?-last (record { queue = []; closed = false }) w.streams in
    (
      w1,
      h,
      rw (old, quiet, is_ready, or_true first) refl,
      record { started = refl; done = new },
      rw new (
          ap ok (
            receive_nothing (length w.streams) (length w.publisher.dones) (start_processor w1)
              fresh)),
    )
