-- ===== src/Broker/Publisher/Steps.antt =====
-- The steps of the goroutines that share a publisher, in any order.
use rabbitmq_kit_go.Prelude.{
  get_elem?-set_at_here, get_elem?-last, set_at, ℕ, ◌+◌, ◌%◌, ◌^◌, ◌≡◌, refl, ◌∙◌, Bool, Option,
  none, some, List, [], ◌∷◌, ◌++◌, length, get_elem?, Option-cases, inl, inr, ◌⊎◌,
}
use rabbitmq_kit_go.Broker.Publisher.{
  Publisher, View, new_publisher, register, unregister, confirm, confirms_closed, drop_failed,
}
use rabbitmq_kit_go.Broker.Publisher.Channels.{
  Go, ok, panic, and_then, Result, open_, closed, find, remove, close_all, close_result,
}
use rabbitmq_kit_go.Broker.Publisher.Sound.{
  Waiting, Waiting-set_at, Waiting-append, Waiting-remove, found_lem,
}
use rabbitmq_kit_go.Broker.Publisher.Confirm.{close_all_lem, confirm_found, close_result_open}

-- A message is registered; its publisher gives up waiting; the broker confirms a tag, or its
-- channel of confirmations is closed.
pub data Step : Type 0 where
  registered : Step
  gave_up : (tag : ℕ) → Step
  confirmed : (tag : ℕ) → (ack : Bool) → Step
  lost : Step

unfoldable pub take : Step → Publisher → Go Publisher
take registered p = ok (register p).1
take (gave_up tag) p = ok (unregister tag p)
take (confirmed tag ack) p = confirm tag ack p
take lost p = confirms_closed p

unfoldable pub run : List Step → Publisher → Go Publisher
unfolding take
run [] p = ok p
run (step ∷ steps) p = and_then (take step p) (run steps)

-- The result channels that wait are open and each has one tag.
unfoldable pub IsSound : Publisher → Type 0
IsSound p = Waiting p.pending p.results

pub new_publisher-Sound : (v : View) → IsSound (new_publisher v)
unfolding IsSound new_publisher Waiting
new_publisher-Sound v = tt

pub register-Sound : (p : Publisher) → IsSound p → IsSound (register p).1
unfolding IsSound register Waiting
register-Sound p w =
    let tag = (p.delivery_tag + 1) % 2 ^ 64 in
    let (waiting, unused) =
      Waiting-append (remove tag p.pending) p.results (Waiting-remove tag p.pending p.results w) in
    (get_elem?-last (open_ none) p.results, unused, waiting)

pub unregister-Sound : (tag : ℕ) (p : Publisher) → IsSound p → IsSound (unregister tag p)
unfolding IsSound unregister
unregister-Sound tag p w = Waiting-remove tag p.pending p.results w

pub confirm-Sound :
    (tag : ℕ) (ack : Bool) (p : Publisher)
    → IsSound p
    → (p' : Publisher) × (confirm tag ack p ≡ ok p')
      × IsSound p'
      × (p'.delivery_tag ≡ p.delivery_tag)
      × ((p'.pending ≡ p.pending) ⊎ (p'.pending ≡ remove tag p.pending))
unfolding IsSound
confirm-Sound tag ack p w = elim (Option-cases (find tag p.pending)) [
  | inl h ↦ (p, unfold confirm in rw (h, confirm) refl, w, refl, inl refl)
  | inr (chan, h) ↦
      let (o, u) = found_lem tag chan p.pending p.results w h in
      let kept = Waiting-remove tag p.pending p.results w in
      (
        record p {
          results = set_at chan (closed (some ack)) (set_at chan (open_ (some ack)) p.results);
          pending = remove tag p.pending;
        },
        confirm_found tag chan ack p w h,
        Waiting-set_at chan (closed (some ack)) (remove tag p.pending)
            (set_at chan (open_ (some ack)) p.results) u
            (Waiting-set_at chan (open_ (some ack)) (remove tag p.pending) p.results u kept),
        refl,
        inr refl,
      )
]

pub confirms_closed-Sound :
    (p : Publisher)
    → IsSound p
    → (p' : Publisher) × (confirms_closed p ≡ ok p')
      × IsSound p'
      × (p'.delivery_tag ≡ p.delivery_tag)
      × (p'.pending ≡ [])
unfolding IsSound confirms_closed Waiting
confirms_closed-Sound p w =
    let (results', h, same) = close_all_lem p.pending p.results w in
    (record p { results = results'; pending = [] }, rw h refl, tt, refl, refl)

pub take-Sound :
    (step : Step) (p : Publisher)
    → IsSound p
    → (p' : Publisher) × (take step p ≡ ok p') × IsSound p'
unfolding take
take-Sound registered p w = ((register p).1, refl, register-Sound p w)
take-Sound (gave_up tag) p w = (unregister tag p, refl, unregister-Sound tag p w)
take-Sound (confirmed tag ack) p w =
    let (p', h, w', tag', rest) = confirm-Sound tag ack p w in (p', h, w')
take-Sound lost p w = let (p', h, w', tag', rest) = confirms_closed-Sound p w in (p', h, w')

-- When the messages that wait have open channels of their own, registrations, give-ups,
-- confirmations (of any tag, with any answer) and a closed channel of confirmations come through in
-- every order: no goroutine sends on a closed channel, closes one twice or waits at a full one, and
-- the messages that wait afterwards have open channels of their own.
pub run-Sound :
    (steps : List Step) (p : Publisher)
    → IsSound p
    → (p' : Publisher) × (run steps p ≡ ok p') × IsSound p'
unfolding run
run-Sound [] p w = (p, refl, w)
run-Sound (step ∷ steps) p w =
    let (p1, h, w1) = take-Sound step p w in
    let (p2, h', w2) = run-Sound steps p1 w1 in (p2, rw h h', w2)

closed_panics :
    (chan : ℕ) (value : Option Bool) (results : List Result)
    → get_elem? results chan ≡ some (closed value)
    → close_result chan results ≡ panic
unfolding close_result
closed_panics chan value results h = rw (h, close_result) refl

-- A pipelined message is registered; the connection is lost, and the processor of confirmations
-- closes its result channel; sending the message then fails, and closing the channel once more
-- panics. It holds wherever the messages that wait have open channels of their own.
pub drop_failed_panics :
    (p : Publisher)
    → IsSound p
    → and_then (confirms_closed (register p).1) (drop_failed (register p).0.0 (register p).0.1)
      ≡ panic
unfolding IsSound register confirms_closed drop_failed close_all
drop_failed_panics p w =
    let tag = (p.delivery_tag + 1) % 2 ^ 64 in
    let rest = remove tag p.pending in
    let made = p.results ++ open_ none ∷ [] in
    let chan = length p.results in
    let (waiting, unused) =
      Waiting-append rest p.results (Waiting-remove tag p.pending p.results w) in
    let here = get_elem?-last (open_ none) p.results in
    let shut = set_at chan (closed none) made in
    let (results', h, same) =
      close_all_lem rest shut (Waiting-set_at chan (closed none) rest made unused waiting) in
    let panicked =
      closed_panics chan none results'
        (same chan unused ∙ get_elem?-set_at_here chan (closed none) (open_ none) made here) in
    rw (close_result_open chan none made here, h, panicked) refl
