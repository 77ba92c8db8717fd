-- ===== src/Broker/Publisher/Tags.antt =====
-- The publisher's delivery tags against the broker's. The broker numbers the messages of a channel
-- from 1 in the order in which they come, and confirms a message under its number.
use rabbitmq_kit_go.Prelude.{
  ℕ, suc, ◌+◌, ◌-◌, ◌%◌, ◌^◌, ◌<◌, ◌≤◌, ◌≡◌, refl, sym, ap, ◌∙◌, Bool, true, false, Option, none,
  some, List, [], ◌∷◌, ◌++◌, length, length-append, get_elem?, get_elem?-append, get_elem?-last,
  if◌then◌else◌, ◌==◌, arith, Option-cases, inl, inr, ◌⊎◌,
}
use rabbitmq_kit_go.Broker.Publisher.{Publisher, View, new_publisher, register, unregister, confirm}
use rabbitmq_kit_go.Broker.Publisher.Channels.{Go, ok, and_then, closed, find, remove}
use rabbitmq_kit_go.Broker.Publisher.Confirm.{confirm_reaches}
use rabbitmq_kit_go.Broker.Publisher.Steps.{
  Step, registered, gave_up, confirmed, lost, take, IsSound, register-Sound, confirm-Sound,
  unregister-Sound, confirms_closed-Sound, new_publisher-Sound,
}

-- A publisher, and the result channels of the messages that its AMQP channel has sent, in order: the
-- broker's number of the message at place `i` is `suc i`.
pub record Traffic : Type 0 where
  pub publisher : Publisher
  pub sent : List ℕ

-- A registration is followed at once by a send that succeeds; the other steps send nothing.
abbrev pub sent_after : Step → Publisher → List ℕ → List ℕ
sent_after registered p sent = sent ++ (register p).0.1 ∷ []
sent_after (gave_up tag) p sent = sent
sent_after (confirmed tag ack) p sent = sent
sent_after lost p sent = sent

pub run : List Step → Traffic → Go Traffic
run [] t = ok t
run (step ∷ steps) t =
    and_then (take step t.publisher)
      (λ p. run steps (record { publisher = p; sent = sent_after step t.publisher t.sent }))

-- Every pending tag is the broker's number of the message whose result channel it leads to.
abbrev pub Numbered : List (ℕ × ℕ) → List ℕ → Type 0
Numbered [] sent = Unit
Numbered ((tag, chan) ∷ pending) sent =
    (0 < tag) × (get_elem? sent (tag - 1) ≡ some chan) × Numbered pending sent

pub record InStep (t : Traffic) : Type 0 where
  pub sound : IsSound t.publisher
  pub numbered : Numbered t.publisher.pending t.sent
  pub counted : t.publisher.delivery_tag ≡ length t.sent

Numbered-skip :
    (skip : Bool) (tag chan : ℕ) (rest : List (ℕ × ℕ)) (sent : List ℕ)
    → 0 < tag
    → get_elem? sent (tag - 1) ≡ some chan
    → Numbered rest sent
    → Numbered (if skip then rest else (tag, chan) ∷ rest) sent
Numbered-skip true tag chan rest sent p h n = n
Numbered-skip false tag chan rest sent p h n = (p, h, n)

Numbered-remove :
    (tag : ℕ) (pending : List (ℕ × ℕ)) (sent : List ℕ)
    → Numbered pending sent
    → Numbered (remove tag pending) sent
unfolding remove
Numbered-remove tag [] sent n = tt
Numbered-remove tag ((t, c) ∷ pending) sent n =
    Numbered-skip (t == tag) t c (remove tag pending) sent n.0 n.1
      (Numbered-remove tag pending sent n.2)

Numbered-append :
    (chan : ℕ) (pending : List (ℕ × ℕ)) (sent : List ℕ)
    → Numbered pending sent
    → Numbered pending (sent ++ chan ∷ [])
Numbered-append chan [] sent n = tt
Numbered-append chan ((t, c) ∷ pending) sent n =
    (n.0, (get_elem?-append (t - 1) chan c sent n.1).0, Numbered-append chan pending sent n.2)

number_skip :
    (skip : Bool) (i t c chan : ℕ) (sent : List ℕ) (o : Option ℕ)
    → (t == suc i) ≡ skip
    → get_elem? sent (t - 1) ≡ some c
    → (o ≡ some chan → get_elem? sent i ≡ some chan)
    → (if skip then some c else o) ≡ some chan
    → get_elem? sent i ≡ some chan
number_skip true i t c chan sent o same here later h =
    let place : t - 1 ≡ i = ground arith in
    let found : c ≡ chan = ground arith in ap (get_elem? sent) (sym place) ∙ here ∙ ap some found
number_skip false i t c chan sent o same here later h = later h

-- What is found under a number is the channel of the message with that number.
found_number :
    (i chan : ℕ) (pending : List (ℕ × ℕ)) (sent : List ℕ)
    → Numbered pending sent
    → find (suc i) pending ≡ some chan
    → get_elem? sent i ≡ some chan
unfolding find
found_number i chan [] sent n h = absurd (ground arith)
found_number i chan ((t, c) ∷ pending) sent n h =
    number_skip (t == suc i) i t c chan sent (find (suc i) pending) refl n.1
      (found_number i chan pending sent n.2) h

-- A step on a publisher whose messages have the numbers in `sent`.
take-InStep :
    (step : Step) (p : Publisher) (sent : List ℕ)
    → InStep (record { publisher = p; sent = sent })
    → length sent + 1 < 2 ^ 64
    → (p' : Publisher) × (take step p ≡ ok p')
      × InStep (record { publisher = p'; sent = sent_after step p sent })
unfolding take
take-InStep registered p sent s few =
    let tag : ((p.delivery_tag + 1) % 2 ^ 64) ≡ length sent + 1 = omega (arith, s.counted) in
    (
      (register p).1,
      refl,
      record {
        sound = register-Sound p s.sound;
        numbered =
            unfold register in
            rw tag (
              omega arith,
              rw (place (length sent)) (get_elem?-last (length p.results) sent),
              Numbered-append (length p.results) (remove (length sent + 1) p.pending) sent
                  (Numbered-remove (length sent + 1) p.pending sent s.numbered),
            );
        counted =
            unfold register in tag ∙ sym (length-append sent (length p.results ∷ []) ∙ omega arith);
      },
    )
  where
    place : (n : ℕ) → n + 1 - 1 ≡ n
    place n = omega arith
take-InStep (gave_up tag) p sent s few = (
  unregister tag p,
  refl,
  record {
    sound = unregister-Sound tag p s.sound;
    numbered = unfold unregister in Numbered-remove tag p.pending sent s.numbered;
    counted = unfold unregister in s.counted;
  },
)
take-InStep (confirmed tag ack) p sent s few =
    let (p', h, sound, same, either) = confirm-Sound tag ack p s.sound in
    (
      p',
      h,
      record {
        sound = sound;
        numbered = elim either [
          | inl kept ↦ rw kept s.numbered
          | inr removed ↦ rw removed (Numbered-remove tag p.pending sent s.numbered)
        ];
        counted = same ∙ s.counted;
      },
    )
take-InStep lost p sent s few =
    let (p', h, sound, same, empty) = confirms_closed-Sound p s.sound in
    (p', h, record { sound = sound; numbered = rw empty tt; counted = same ∙ s.counted })

length-sent_after :
    (step : Step) (p : Publisher) (sent : List ℕ)
    → length (sent_after step p sent) ≤ length sent + 1
length-sent_after registered p sent = omega (arith, length-append sent ((register p).0.1 ∷ []))
length-sent_after (gave_up tag) p sent = omega arith
length-sent_after (confirmed tag ack) p sent = omega arith
length-sent_after lost p sent = omega arith

-- Whatever the order of publishes, give-ups and confirmations, as long as each registration is
-- followed at once by a send that succeeds, and there are fewer than 2 ^ 64: nothing panics or
-- blocks, and every pending tag stays the broker's number of the message that waits under it.
pub run-InStep :
    (steps : List Step) (t : Traffic)
    → InStep t
    → length t.sent + length steps < 2 ^ 64
    → (t' : Traffic) × (run steps t ≡ ok t') × InStep t'
unfolding run
run-InStep [] t s few = (t, refl, s)
run-InStep (step ∷ steps) t s few =
    let (p', h, s') = take-InStep step t.publisher t.sent s (omega arith) in
    let (t', rest, end) =
      run-InStep steps (record { publisher = p'; sent = sent_after step t.publisher t.sent }) s'
        (omega (arith, length-sent_after step t.publisher t.sent)) in
    (t', rw h rest, end)

pub new_publisher-InStep : (v : View) → InStep (record { publisher = new_publisher v; sent = [] })
unfolding new_publisher
new_publisher-InStep v = record { sound = new_publisher-Sound v; numbered = tt; counted = refl }

-- While tags and numbers agree, the broker's answer to a message reaches the publisher of that
-- message or, if it has given up, nobody; no other publisher is affected.
pub answer_reaches :
    (t : Traffic) (i chan other : ℕ) (ack : Bool)
    → InStep t
    → get_elem? t.sent i ≡ some chan
    → (other == chan) ≡ false
    → (p' : Publisher) × (confirm (suc i) ack t.publisher ≡ ok p')
      × ((p' ≡ t.publisher) ⊎ (get_elem? p'.results chan ≡ some (closed (some ack))))
      × (get_elem? p'.results other ≡ get_elem? t.publisher.results other)
      × (find (suc i) p'.pending ≡ none)
unfolding IsSound
answer_reaches t i chan other ack s here apart =
    let p = t.publisher in
    elim (Option-cases (find (suc i) p.pending)) [
      | inl gone ↦ (p, unfold confirm in rw (gone, confirm) refl, inl refl, refl, gone)
      | inr (c, waits) ↦
          let same : c ≡ chan =
            ground (arith, found_number i c p.pending t.sent s.numbered waits) in
          let (p', h, got, frame, done) =
            confirm_reaches (suc i) c other ack p s.sound waits (rw same apart) in
          (p', h, inr (rw (sym same) got), frame, done)
    ]
