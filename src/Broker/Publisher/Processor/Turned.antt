-- ===== src/Broker/Publisher/Processor/Turned.antt =====
-- One turn of the processor, of a publisher or of the AMQP channel.
use rabbitmq_kit_go.Prelude.{
  get_elem?-set_at_here, set_at, ℕ, ◌≡◌, refl, sym, ap, ◌∙◌, Bool, true, false, not, ◌&&◌, ◌||◌,
  some, List, [], ◌∷◌, ◌++◌, get_elem?, Bool-cases, inl, inr,
}
use mathlib.Core.List.{append-nil, append_assoc}
use rabbitmq_kit_go.Broker.Publisher.{Publisher, register, unregister}
use rabbitmq_kit_go.Broker.Publisher.Channels.{ok}
use rabbitmq_kit_go.Broker.Publisher.Steps.{
  take, run, IsSound, register-Sound, unregister-Sound, confirm-Sound, confirms_closed-Sound,
}
use rabbitmq_kit_go.Broker.Publisher.Processor.{
  Stream, World, Processor, entering, selecting, routing, cleaning, returned, advance, select,
  receive_confirmation, is_ready, is_closed,
}
use rabbitmq_kit_go.Broker.Publisher.Processor.Turns.{
  Turn, registers, gives_up, arrives, breaks, moves, arrive, on_stream, take_turn, step_of,
  confirmations, arrival, broken, in_hand, Watches,
}

-- A turn that goes through, and where it leads.
pub record Turned (turn : Turn) (at : Processor) (w : World) (s : Stream) : Type 0 where
  pub at' : Processor
  pub world : World
  pub stream : Stream
  pub takes : take_turn turn at w ≡ ok (at', world)
  pub sound : IsSound world.publisher
  pub runs : run (step_of turn at) w.publisher ≡ ok world.publisher
  pub same : world.confirms ≡ w.confirms
  pub has_stream : get_elem? world.streams w.confirms ≡ some stream
  pub order :
      confirmations (step_of turn at) ++ in_hand at' ++ stream.queue
      ≡ (in_hand at ++ s.queue) ++ arrival s.closed turn
  pub is_broken : stream.closed ≡ broken s.closed turn
  pub watches : Watches w.confirms at'

on_stream_lem :
    (f : Stream → Stream) (w : World) (s : Stream)
    → get_elem? w.streams w.confirms ≡ some s
    → on_stream f w ≡ record w { streams = set_at w.confirms (f s) w.streams }
on_stream_lem f w s stream = rw (stream, on_stream) refl

-- An event of the stream: the processor and the publisher are as they were.
on_stream-Turned :
    (turn : Turn) (f : Stream → Stream) (at : Processor) (w : World) (s : Stream)
    → IsSound w.publisher
    → get_elem? w.streams w.confirms ≡ some s
    → Watches w.confirms at
    → take_turn turn at w ≡ ok (at, on_stream f w)
    → step_of turn at ≡ []
    → (f s).queue ≡ s.queue ++ arrival s.closed turn
    → (f s).closed ≡ broken s.closed turn
    → Turned turn at w s
unfolding run
on_stream-Turned turn f at w s sound stream watches takes no_step queued is_broken = record {
  at' = at;
  world = record w { streams = set_at w.confirms (f s) w.streams };
  stream = f s;
  takes = takes ∙ ap (λ w'. ok (at, w')) (on_stream_lem f w s stream);
  sound = sound;
  runs = rw no_step refl;
  same = refl;
  has_stream = get_elem?-set_at_here w.confirms (f s) s w.streams stream;
  order = rw (no_step, queued) (sym (append_assoc (in_hand at) s.queue (arrival s.closed turn)));
  is_broken = is_broken;
  watches = watches;
}

arrive_queue :
    (tag : ℕ) (ack closed : Bool) (queue : List (ℕ × Bool))
    → let s : Stream = record { queue = queue; closed = closed } in
      ((arrive tag ack s).queue ≡ queue ++ arrival closed (arrives tag ack))
      × ((arrive tag ack s).closed ≡ closed)
arrive_queue tag ack true queue = (sym (append-nil queue), refl)
arrive_queue tag ack false queue = (refl, refl)

-- A move of the processor that changes nothing but where it stands.
moved-Turned :
    (b : Bool) (at at' : Processor) (w : World) (s : Stream)
    → IsSound w.publisher
    → get_elem? w.streams w.confirms ≡ some s
    → advance b at w ≡ ok (at', w)
    → step_of (moves b) at ≡ []
    → in_hand at' ≡ in_hand at
    → Watches w.confirms at'
    → Turned (moves b) at w s
unfolding take_turn run
moved-Turned b at at' w s sound stream takes no_step held watches = record {
  at' = at';
  world = w;
  stream = s;
  takes = takes;
  sound = sound;
  runs = rw no_step refl;
  same = refl;
  has_stream = stream;
  order = rw (no_step, held) (sym (append-nil (in_hand at ++ s.queue)));
  is_broken = refl;
  watches = watches;
}

-- The receive, on a stream with this queue.
receive-Turned :
    (b : Bool) (d : ℕ) (w : World) (closed : Bool) (queue : List (ℕ × Bool))
    → IsSound w.publisher
    → get_elem? w.streams w.confirms ≡ some (record { queue = queue; closed = closed })
    → advance b (selecting w.confirms d) w ≡ ok (receive_confirmation w.confirms d w)
    → Turned (moves b) (selecting w.confirms d) w (record { queue = queue; closed = closed })
unfolding receive_confirmation
receive-Turned b d w true [] sound stream takes =
    moved-Turned b (selecting w.confirms d) cleaning w (record { queue = []; closed = true }) sound
      stream (takes ∙ rw (stream, receive_confirmation) refl) refl refl tt
receive-Turned b d w false [] sound stream takes =
    moved-Turned b (selecting w.confirms d) (selecting w.confirms d) w
      (record { queue = []; closed = false }) sound stream
      (takes ∙ rw (stream, receive_confirmation) refl) refl refl refl
receive-Turned b d w closed ((tag, ack) ∷ queue) sound stream takes = record {
  at' = routing tag ack;
  world = record w {
    streams = set_at w.confirms (record { queue = queue; closed = closed }) w.streams;
  };
  stream = record { queue = queue; closed = closed };
  takes = unfold take_turn in takes ∙ rw (stream, receive_confirmation) refl;
  sound = sound;
  runs = unfold run in refl;
  same = refl;
  has_stream =
      get_elem?-set_at_here w.confirms (record { queue = queue; closed = closed })
        (record { queue = (tag, ack) ∷ queue; closed = closed }) w.streams stream;
  order = ap (λ q. (tag, ack) ∷ q) (sym (append-nil queue));
  is_broken = refl;
  watches = tt;
}

selecting-Turned :
    (b : Bool) (d : ℕ) (w : World) (s : Stream)
    → IsSound w.publisher
    → get_elem? w.streams w.confirms ≡ some s
    → Turned (moves b) (selecting w.confirms d) w s
selecting-Turned b d w s sound stream =
    elim (Bool-cases (
      is_closed (get_elem? w.publisher.dones d)
      && (b || not (is_ready (get_elem? w.streams w.confirms))))) [
        | inl stops ↦
            moved-Turned b (selecting w.confirms d) returned w s sound stream
              (unfold advance select in rw stops refl) refl refl tt
        | inr goes_on ↦
            receive-Turned b d w s.closed s.queue sound stream
              (unfold advance select in rw goes_on refl)
      ]

-- A move at which the processor works on the publisher.
worked-Turned :
    (b : Bool) (at at' : Processor) (w : World) (s : Stream) (p : Publisher)
    → get_elem? w.streams w.confirms ≡ some s
    → IsSound p
    → advance b at w ≡ ok (at', record w { publisher = p })
    → run (step_of (moves b) at) w.publisher ≡ ok p
    → confirmations (step_of (moves b) at) ≡ in_hand at
    → in_hand at' ≡ []
    → Watches w.confirms at'
    → Turned (moves b) at w s
unfolding take_turn
worked-Turned b at at' w s p stream sound takes runs routed held watches = record {
  at' = at';
  world = record w { publisher = p };
  stream = s;
  takes = takes;
  sound = sound;
  runs = runs;
  same = refl;
  has_stream = stream;
  order =
      rw (routed, held, append_assoc (in_hand at) [] s.queue, append-nil (in_hand at ++ s.queue))
        refl;
  is_broken = refl;
  watches = watches;
}

moves-Turned :
    (b : Bool) (at : Processor) (w : World) (s : Stream)
    → IsSound w.publisher
    → get_elem? w.streams w.confirms ≡ some s
    → Watches w.confirms at
    → Turned (moves b) at w s
unfolding advance
moves-Turned b entering w s sound stream watches =
    moved-Turned b entering (selecting w.confirms w.publisher.done) w s sound stream refl refl refl
      refl
moves-Turned b (selecting c d) w s sound stream watches =
    rw watches (selecting-Turned b d w s sound stream)
moves-Turned b (routing tag ack) w s sound stream watches =
    let (p, h, sound', tag', pending) = confirm-Sound tag ack w.publisher sound in
    worked-Turned b (routing tag ack) entering w s p stream sound' (rw h refl)
      (unfold run take in rw h refl) refl refl tt
moves-Turned b cleaning w s sound stream watches =
    let (p, h, sound', tag', pending) = confirms_closed-Sound w.publisher sound in
    worked-Turned b cleaning returned w s p stream sound' (rw h refl) (unfold run take in rw h refl)
      refl refl tt
moves-Turned b returned w s sound stream watches =
    moved-Turned b returned returned w s sound stream refl refl refl tt

pub take_turn-Turned :
    (turn : Turn) (at : Processor) (w : World) (s : Stream)
    → IsSound w.publisher
    → get_elem? w.streams w.confirms ≡ some s
    → Watches w.confirms at
    → Turned turn at w s
unfolding take_turn run take
take_turn-Turned registers at w s sound stream watches = record {
  at' = at;
  world = record w { publisher = (register w.publisher).1 };
  stream = s;
  takes = refl;
  sound = register-Sound w.publisher sound;
  runs = refl;
  same = refl;
  has_stream = stream;
  order = sym (append-nil (in_hand at ++ s.queue));
  is_broken = refl;
  watches = watches;
}
take_turn-Turned (gives_up tag) at w s sound stream watches = record {
  at' = at;
  world = record w { publisher = unregister tag w.publisher };
  stream = s;
  takes = refl;
  sound = unregister-Sound tag w.publisher sound;
  runs = refl;
  same = refl;
  has_stream = stream;
  order = sym (append-nil (in_hand at ++ s.queue));
  is_broken = refl;
  watches = watches;
}
take_turn-Turned (arrives tag ack) at w s sound stream watches =
    let (queued, closed) = arrive_queue tag ack s.closed s.queue in
    on_stream-Turned (arrives tag ack) (arrive tag ack) at w s sound stream watches refl refl queued
      closed
take_turn-Turned breaks at w s sound stream watches =
    on_stream-Turned breaks (λ s. record s { closed = true }) at w s sound stream watches refl refl
      (sym (append-nil s.queue)) refl
take_turn-Turned (moves b) at w s sound stream watches = moves-Turned b at w s sound stream watches
