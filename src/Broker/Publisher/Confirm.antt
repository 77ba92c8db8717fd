-- ===== src/Broker/Publisher/Confirm.antt =====
-- Closing result channels, and the confirmation of a message that waits.
use rabbitmq_kit_go.Prelude.{
  get_elem?-set_at, get_elem?-set_at_here, set_at, ℕ, ◌≡◌, refl, ◌∙◌, Bool, true, false, Option,
  none, some, List, [], ◌∷◌, get_elem?, if◌then◌else◌, ◌==◌, arith,
}
use rabbitmq_kit_go.Broker.Publisher.{Publisher, confirm}
use rabbitmq_kit_go.Broker.Publisher.Channels.{
  ok, Result, open_, closed, send, close_result, find, remove, close_all,
}
use rabbitmq_kit_go.Broker.Publisher.Sound.{Unused, Waiting, Waiting-set_at, found_lem}

pub close_result_open :
    (chan : ℕ) (value : Option Bool) (results : List Result)
    → get_elem? results chan ≡ some (open_ value)
    → close_result chan results ≡ ok (set_at chan (closed value) results)
unfolding close_result
close_result_open chan value results h = rw (h, close_result) refl

send_open :
    (chan : ℕ) (ack : Bool) (results : List Result)
    → get_elem? results chan ≡ some (open_ none)
    → send chan ack results ≡ ok (set_at chan (open_ (some ack)) results)
unfolding send
send_open chan ack results h = rw (h, send) refl

-- Closing all channels that wait goes through and leaves the others as they are.
pub close_all_lem :
    (pending : List (ℕ × ℕ)) (results : List Result)
    → Waiting pending results
    → (results' : List Result) × (close_all pending results ≡ ok results')
      × ((c : ℕ) → Unused c pending → get_elem? results' c ≡ get_elem? results c)
unfolding close_all Waiting
close_all_lem [] results w = (results, refl, λ c u. refl)
close_all_lem ((tag, chan) ∷ pending) results w =
    let (results', h, same) =
      close_all_lem pending (set_at chan (closed none) results)
        (Waiting-set_at chan (closed none) pending results w.1 w.2) in
    (
      results',
      rw (close_result_open chan none results w.0) h,
      λ c u. same c u.1 ∙ get_elem?-set_at chan c (closed none) results (ground (arith, u.0)),
    )

-- The confirmation of a message that waits.
pub confirm_found :
    (tag chan : ℕ) (ack : Bool) (p : Publisher)
    → Waiting p.pending p.results
    → find tag p.pending ≡ some chan
    → confirm tag ack p
      ≡ ok (record p {
        results = set_at chan (closed (some ack)) (set_at chan (open_ (some ack)) p.results);
        pending = remove tag p.pending;
      })
unfolding confirm
confirm_found tag chan ack p w h =
    let (o, u) = found_lem tag chan p.pending p.results w h in
    let sent = get_elem?-set_at_here chan (open_ (some ack)) (open_ none) p.results o in
    rw
      (
        h,
        send_open chan ack p.results o,
        close_result_open chan (some ack) (set_at chan (open_ (some ack)) p.results) sent,
        confirm,
      )
      refl

pub find-remove : (tag : ℕ) (pending : List (ℕ × ℕ)) → find tag (remove tag pending) ≡ none
unfolding find remove
find-remove tag [] = refl
find-remove tag ((t, c) ∷ pending) =
    skip (t == tag) c (remove tag pending) refl (find-remove tag pending)
  where
    skip :
        (b : Bool) (c : ℕ) (rest : List (ℕ × ℕ))
        → (t == tag) ≡ b
        → find tag rest ≡ none
        → find tag (if b then rest else (t, c) ∷ rest) ≡ none
    skip true c rest h n = n
    skip false c rest h n = rw h n

-- When the messages that wait have open channels of their own, a confirmation reaches the publisher
-- that waits for its tag, with the broker's answer, and no other: any other result channel is as
-- it was, and the tag is no longer pending.
pub confirm_reaches :
    (tag chan other : ℕ) (ack : Bool) (p : Publisher)
    → Waiting p.pending p.results
    → find tag p.pending ≡ some chan
    → (other == chan) ≡ false
    → (p' : Publisher) × (confirm tag ack p ≡ ok p')
      × (get_elem? p'.results chan ≡ some (closed (some ack)))
      × (get_elem? p'.results other ≡ get_elem? p.results other)
      × (find tag p'.pending ≡ none)
confirm_reaches tag chan other ack p w h apart =
    let (o, u) = found_lem tag chan p.pending p.results w h in
    let sent = get_elem?-set_at_here chan (open_ (some ack)) (open_ none) p.results o in
    (
      record p {
        results = set_at chan (closed (some ack)) (set_at chan (open_ (some ack)) p.results);
        pending = remove tag p.pending;
      },
      confirm_found tag chan ack p w h,
      get_elem?-set_at_here chan (closed (some ack)) (open_ (some ack))
          (set_at chan (open_ (some ack)) p.results) sent,
      get_elem?-set_at chan other (closed (some ack)) (set_at chan (open_ (some ack)) p.results)
            apart
          ∙ get_elem?-set_at chan other (open_ (some ack)) p.results apart,
      find-remove tag p.pending,
    )
