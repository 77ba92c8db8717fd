-- ===== src/Broker/Publisher/Setup.antt =====
-- The reset after a reconnection, and a publish with its confirmation.
use rabbitmq_kit_go.Prelude.{
  get_elem?-set_at, get_elem?-set_at_here, get_elem?-append, get_elem?-last, set_at, ℕ, ◌+◌, ◌≡◌,
  refl, ◌∙◌, Bool, true, false, not, ◌||◌, String, none, some, List, [], ◌∷◌, ◌++◌, length,
  get_elem?, if◌then◌else◌, ◌==◌, arith, Bool-cases, inl, inr,
}
use rabbitmq_kit_go.Errors.{nil, is_nil, sentinel, publish_not_confirmed}
use rabbitmq_kit_go.Amqp.{Publishing}
use rabbitmq_kit_go.Broker.Retry.{Publish}
use rabbitmq_kit_go.Broker.Publisher.{
  Publisher, View, ensure_confirms_setup, close, reset_under_lock, register, unregister, confirm,
  publish, receive, conclude, received,
}
use rabbitmq_kit_go.Broker.Publisher.Channels.{
  ok, panic, and_then, Result, closed, close_done, find,
}
use rabbitmq_kit_go.Broker.Publisher.Sound.{Waiting}
use rabbitmq_kit_go.Broker.Publisher.Confirm.{close_all_lem, confirm_reaches, find-remove}
use rabbitmq_kit_go.Broker.Publisher.Steps.{IsSound, register-Sound}

-- The processor of confirmations runs, and nothing has told it to stop.
pub record IsReady (p : Publisher) : Type 0 where
  pub started : p.started ≡ true
  pub done : get_elem? p.dones p.done ≡ some false

pub close_done_open :
    (i : ℕ) (dones : List Bool)
    → get_elem? dones i ≡ some false
    → close_done i dones ≡ ok (set_at i true dones)
unfolding close_done
close_done_open i dones h = rw (h, close_done) refl

close_done_closed :
    (i : ℕ) (dones : List Bool) → get_elem? dones i ≡ some true → close_done i dones ≡ panic
unfolding close_done
close_done_closed i dones h = rw (h, close_done) refl

-- The publisher after a reset.
abbrev pub after_reset : View → List Result → Publisher → Publisher
after_reset v results p = record p {
  pending = [];
  results = results;
  delivery_tag = 0;
  done = length p.dones;
  dones = set_at p.done true (p.dones ++ false ∷ []);
  started = true;
  channel_id = v.channel;
}

pub reset_ready :
    (v : View) (later : ℕ) (p : Publisher)
    → IsSound p
    → IsReady p
    → (later == 0) ≡ false
    → (not v.publisher_confirms || v.channel == p.channel_id) ≡ false
    → (results : List Result) × (ensure_confirms_setup v later p ≡ ok (after_reset v results p))
unfolding ensure_confirms_setup reset_under_lock IsSound
reset_ready v later p sound ready present changed =
    let (results, h, same) = close_all_lem p.pending p.results sound in
    let (kept, below) = get_elem?-append p.done false false p.dones ready.done in
    (
      results,
      rw (changed, ready.started, h, close_done_open p.done (p.dones ++ false ∷ []) kept, present)
          refl,
    )

-- While the client has a channel, the setup of a running publisher never panics, whether or not the
-- channel changed: afterwards the processor runs, the messages that wait have open channels of
-- their own, and if the channel changed none waits and tags start again.
pub ensure_confirms_setup-Ready :
    (v : View) (later : ℕ) (p : Publisher)
    → IsSound p
    → IsReady p
    → (later == 0) ≡ false
    → (p' : Publisher) × (ensure_confirms_setup v later p ≡ ok p')
      × IsReady p'
      × IsSound p'
      × (p'.pending
          ≡ (if not v.publisher_confirms || v.channel == p.channel_id then p.pending else []))
      × (p'.delivery_tag
          ≡ (if not v.publisher_confirms || v.channel == p.channel_id then p.delivery_tag else 0))
ensure_confirms_setup-Ready v later p sound ready present =
    elim (Bool-cases (not v.publisher_confirms || v.channel == p.channel_id)) [
      | inl same ↦ (
        p,
        unfold ensure_confirms_setup in rw same refl,
        ready,
        sound,
        rw same refl,
        rw same refl,
      )
      | inr changed ↦
          let (results, h) = reset_ready v later p sound ready present changed in
          let (kept, below) = get_elem?-append p.done false false p.dones ready.done in
          (
            after_reset v results p,
            h,
            record {
              started = refl;
              done =
                  get_elem?-set_at p.done (length p.dones) true (p.dones ++ false ∷ [])
                    (ground arith)
                  ∙ get_elem?-last false p.dones;
            },
            unfold IsSound Waiting in tt,
            rw changed refl,
            rw changed refl,
          )
    ]

-- A publisher that was closed while it ran panics at the next publish that finds another channel:
-- the reset closes `done` a second time.
pub close_then_reset_panics :
    (v : View) (later : ℕ) (p : Publisher)
    → IsSound p
    → IsReady p
    → (not v.publisher_confirms || v.channel == p.channel_id) ≡ false
    → and_then (close p) (ensure_confirms_setup v later) ≡ panic
unfolding close ensure_confirms_setup reset_under_lock IsSound
close_then_reset_panics v later p sound ready changed =
    let (results, h, same) = close_all_lem p.pending p.results sound in
    let shut = get_elem?-set_at_here p.done true false p.dones ready.done in
    rw
      (
        ready.started,
        close_done_open p.done p.dones ready.done,
        changed,
        h,
        close_done_closed p.done (set_at p.done true p.dones) shut,
      )
      refl

pub unchanged :
    (v : View) (later : ℕ) (p : Publisher)
    → (v.channel == p.channel_id) ≡ true
    → ensure_confirms_setup v later p ≡ ok p
unfolding ensure_confirms_setup
unchanged v later p same =
    let stays : (not v.publisher_confirms || v.channel == p.channel_id) ≡ true = ground arith in
    rw stays refl

-- The end of a publish whose answer has come.
answered :
    (tag chan : ℕ) (ack : Bool) (p : Publisher)
    → get_elem? p.results chan ≡ some (closed (some ack))
    → conclude received tag chan p
      ≡ ok (
        (if ack then nil else sentinel publish_not_confirmed),
        (if ack then p else unregister tag p),
      )
unfolding conclude receive
answered tag chan true p h = rw (h, receive) refl
answered tag chan false p h = rw (h, receive) refl

find-if :
    (tag : ℕ) (ack : Bool) (p : Publisher)
    → find tag p.pending ≡ none
    → find tag (if ack then p else unregister tag p).pending ≡ none
unfolding unregister
find-if tag true p h = h
find-if tag false p h = find-remove tag p.pending

registered_lem :
    (p : Publisher) → find (register p).0.0 (register p).1.pending ≡ some (register p).0.1
unfolding find register
registered_lem p = ground arith

module _ {S : Type 0} (publish_with_context : Publish S) where
  -- On a client that is open and whose channel is unchanged, a message that is sent and that the
  -- broker then confirms under its tag ends its publish at once: without error for an ack, with
  -- ErrPublishNotConfirmed for a nack, and in both cases the tag is no longer pending.
  pub publish_confirmed :
      (v : View) (later : ℕ) (ack : Bool) (exchange routing_key : String) (msg : Publishing) (s : S)
      (p : Publisher)
      → IsSound p
      → v.publisher_confirms ≡ true
      → v.closed ≡ false
      → (v.channel == 0) ≡ false
      → (v.channel == p.channel_id) ≡ true
      → is_nil (publish_with_context exchange routing_key msg s).0 ≡ true
      → (p' : Publisher) × (publish publish_with_context
            (confirm (register p).0.0 ack)
            v
            later
            received
            exchange
            routing_key
            msg
            s
            p
          ≡ ok (
            ((if ack then nil else sentinel publish_not_confirmed), p'),
            (publish_with_context exchange routing_key msg s).1,
          ))
        × (find (register p).0.0 p'.pending ≡ none)
  publish_confirmed v later ack exchange routing_key msg s p sound confirms live present same sent =
      let ((tag, chan), q) = register p in
      let (p', h, got, frame, gone) =
        confirm_reaches tag chan (chan + 1) ack q (unfold IsSound in register-Sound p sound)
          (registered_lem p) (ground arith) in
      (
        (if ack then p' else unregister tag p'),
        unfold publish in
            rw
              (
                unchanged v later p same,
                live,
                present,
                confirms,
                h,
                sent,
                answered tag chan ack p' got,
              )
              refl,
        find-if tag ack p' gone,
      )
