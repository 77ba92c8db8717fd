-- ===== src/Broker/Publisher/Races.antt =====
-- Tags and numbers that part: the tag is taken under one step, and the message sent in another.
mod Examples
use rabbitmq_kit_go.Prelude.{
  ℕ, suc, ◌+◌, ◌%◌, ◌^◌, ◌<◌, ◌≡◌, refl, sym, ap, ◌∙◌, Bool, true, false, Option, none, some, List,
  [], ◌∷◌, ◌++◌, length, length-append, get_elem?, get_elem?-append, get_elem?-last, if◌then◌else◌,
  ◌==◌, arith,
}
use rabbitmq_kit_go.Broker.Publisher.{Publisher, register, unregister, confirm}
use rabbitmq_kit_go.Broker.Publisher.Channels.{ok, open_, closed, find, remove}
use rabbitmq_kit_go.Broker.Publisher.Confirm.{confirm_reaches}
use rabbitmq_kit_go.Broker.Publisher.Steps.{IsSound, register-Sound}
use rabbitmq_kit_go.Broker.Publisher.Tags.{Traffic, InStep}

pub find-remove_other :
    (tag other : ℕ) (pending : List (ℕ × ℕ))
    → find other (remove tag pending) ≡ (if tag == other then none else find other pending)
unfolding find remove
find-remove_other tag other [] = ground arith
find-remove_other tag other ((t, c) ∷ pending) = ground (arith, find-remove_other tag other pending)

find-register :
    (p : Publisher) (j : ℕ)
    → find j (register p).1.pending
      ≡ (if (register p).0.0 == j then some (register p).0.1 else find j p.pending)
unfolding register find
find-register p j = ground (arith, find-remove_other ((p.delivery_tag + 1) % 2 ^ 64) j p.pending)

results-register :
    (p : Publisher) → get_elem? (register p).1.results (register p).0.1 ≡ some (open_ none)
unfolding register
results-register p = get_elem?-last (open_ none) p.results

chan-register : (p : Publisher) → ((register (register p).1).0.1 == (register p).0.1) ≡ false
unfolding register
chan-register p = ground (arith, length-append p.results (open_ none ∷ []))

chan-unregister : (tag : ℕ) (p : Publisher) → (register (unregister tag p)).0.1 ≡ (register p).0.1
unfolding register unregister
chan-unregister tag p = refl

register_tag :
    (p : Publisher) (n : ℕ)
    → p.delivery_tag ≡ n
    → n + 1 < 2 ^ 64
    → ((register p).0.0 ≡ suc n) × ((register p).1.delivery_tag ≡ suc n)
unfolding register
register_tag p n h few = (omega arith, omega arith)

first_waits :
    (t : Traffic)
    → InStep t
    → length t.sent + 2 < 2 ^ 64
    → find (suc (length t.sent)) (register (register t.publisher).1).1.pending
      ≡ some (register t.publisher).0.1
first_waits t s few =
    let (tag1, next1) = register_tag t.publisher (length t.sent) s.counted (omega arith) in
    let (tag2, next2) =
      register_tag (register t.publisher).1 (suc (length t.sent)) next1 (omega arith) in
    ground (
      arith,
      find-register (register t.publisher).1 (suc (length t.sent)),
      find-register t.publisher (suc (length t.sent)),
    )

-- Two publishers take their tags, and then send in the other order: the broker's answer to the
-- message that it numbers first goes to the publisher of the other message, and the publisher of the
-- answered message goes on waiting.
pub crossed :
    (t : Traffic) (ack : Bool)
    → InStep t
    → length t.sent + 2 < 2 ^ 64
    → let ((tag1, chan1), p1) = register t.publisher in
      let ((tag2, chan2), p2) = register p1 in
      (get_elem? (t.sent ++ chan2 ∷ chan1 ∷ []) (length t.sent) ≡ some chan2)
      × ((p' : Publisher) × (confirm (suc (length t.sent)) ack p2 ≡ ok p')
          × (get_elem? p'.results chan1 ≡ some (closed (some ack)))
          × (get_elem? p'.results chan2 ≡ some (open_ none)))
unfolding IsSound
crossed t ack s few =
    let ((tag1, chan1), p1) = register t.publisher in
    let ((tag2, chan2), p2) = register p1 in
    let waits = first_waits t s few in
    let sound = register-Sound p1 (register-Sound t.publisher s.sound) in
    let (p', h, got, frame, gone) =
      confirm_reaches (suc (length t.sent)) chan1 chan2 ack p2 sound waits
        (chan-register t.publisher) in
    (at_length chan2 (chan1 ∷ []) t.sent, (p', h, got, frame ∙ results-register p1))
  where
    at_length : (x : ℕ) (ys xs : List ℕ) → get_elem? (xs ++ x ∷ ys) (length xs) ≡ some x
    at_length x ys [] = refl
    at_length x ys (y ∷ xs) = at_length x ys xs

find-unregister :
    (tag j : ℕ) (p : Publisher)
    → find j (unregister tag p).pending ≡ (if tag == j then none else find j p.pending)
unfolding unregister
find-unregister tag j p = find-remove_other tag j p.pending

tag-unregister : (tag : ℕ) (p : Publisher) → (unregister tag p).delivery_tag ≡ p.delivery_tag
unfolding unregister
tag-unregister tag p = refl

unregistered :
    (t : Traffic)
    → InStep t
    → length t.sent + 2 < 2 ^ 64
    → let ((tag1, chan1), p1) = register t.publisher in
      find (suc (length t.sent)) (register (unregister tag1 p1)).1.pending ≡ none
unregistered t s few =
    let ((tag1, chan1), p1) = register t.publisher in
    let (first, next1) = register_tag t.publisher (length t.sent) s.counted (omega arith) in
    let (second, next2) =
      register_tag (unregister tag1 p1) (suc (length t.sent)) (tag-unregister tag1 p1 ∙ next1)
        (omega arith) in
    ground (
      arith,
      find-register (unregister tag1 p1) (suc (length t.sent)),
      find-unregister tag1 (suc (length t.sent)) p1,
    )

-- A message takes a tag, and sending it fails: the next message, which is sent, has a tag that is
-- one above the broker's number. The broker's answer to it is dropped, and its publisher goes on
-- waiting.
pub failed_send_shifts :
    (t : Traffic) (ack : Bool)
    → InStep t
    → length t.sent + 2 < 2 ^ 64
    → let ((tag1, chan1), p1) = register t.publisher in
      let ((tag2, chan2), p2) = register (unregister tag1 p1) in
      (get_elem? (t.sent ++ chan2 ∷ []) (length t.sent) ≡ some chan2)
      × (confirm (suc (length t.sent)) ack p2 ≡ ok p2)
      × (get_elem? p2.results chan2 ≡ some (open_ none))
failed_send_shifts t ack s few =
    let ((tag1, chan1), p1) = register t.publisher in
    let ((tag2, chan2), p2) = register (unregister tag1 p1) in
    (
      get_elem?-last chan2 t.sent,
      (unfold confirm in rw (unregistered t s few, confirm) refl),
      results-register (unregister tag1 p1),
    )
