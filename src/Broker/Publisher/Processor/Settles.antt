-- ===== src/Broker/Publisher/Processor/Settles.antt =====
-- What confirmations and the end of the stream do to the messages that wait.
use rabbitmq_kit_go.Prelude.{
  get_elem?-set_at, get_elem?-set_at_here, set_at, ℕ, ◌≡◌, refl, sym, ◌∙◌, Bool, false, Option,
  none, some, List, [], ◌∷◌, get_elem?, if◌then◌else◌, ◌==◌, arith, Bool-cases, Option-cases, inl,
  inr,
}
use rabbitmq_kit_go.Broker.Publisher.{Publisher, confirm, confirms_closed}
use rabbitmq_kit_go.Broker.Publisher.Channels.{ok, Result, open_, closed, find, remove, close_all}
use rabbitmq_kit_go.Broker.Publisher.Sound.{
  Unused, Waiting, Waiting-set_at, Waiting-remove, found_lem,
}
use rabbitmq_kit_go.Broker.Publisher.Confirm.{close_result_open, confirm_found}
use rabbitmq_kit_go.Broker.Publisher.Steps.{IsSound}
use rabbitmq_kit_go.Broker.Publisher.Races.{find-remove_other}

-- The first answer to a tag.
abbrev pub answer : ℕ → List (ℕ × Bool) → Option Bool
answer tag [] = none
answer tag ((t, ack) ∷ queue) = if t == tag then some ack else answer tag queue

-- Every message that waits in `p` is settled with its answer in `results`, and what was settled
-- before is left.
pub record Settles (p : Publisher) (queue : List (ℕ × Bool)) (results : List Result) : Type 0 where
  pub waiting :
      (tag chan : ℕ)
      → find tag p.pending ≡ some chan
      → get_elem? results chan ≡ some (closed (answer tag queue))
  pub settled :
      (chan : ℕ) (value : Option Bool)
      → get_elem? p.results chan ≡ some (closed value)
      → get_elem? results chan ≡ some (closed value)

open_apart :
    (c d : ℕ) (value : Option Bool) (results : List Result)
    → get_elem? results c ≡ some (open_ none)
    → get_elem? results d ≡ some (closed value)
    → (d == c) ≡ false
open_apart c d value results o h = elim (Bool-cases (d == c)) [
  | inr apart ↦ apart
  | inl same ↦
      let e : d ≡ c = ground arith in
      let h' : get_elem? results c ≡ some (closed value) = rw (sym e) h in
      absurd (ground (arith, o, h'))
]

-- A confirmation: the messages of other tags go on waiting, that of its tag has its answer, and
-- what was settled is left.
pub record Routed (tag : ℕ) (ack : Bool) (p p' : Publisher) : Type 0 where
  pub sound : IsSound p'
  pub done : p'.done ≡ p.done
  pub dones : p'.dones ≡ p.dones
  pub others : (other : ℕ) → (tag == other) ≡ false → find other p'.pending ≡ find other p.pending
  pub here :
      (chan : ℕ)
      → find tag p.pending ≡ some chan
      → get_elem? p'.results chan ≡ some (closed (some ack))
  pub settled :
      (chan : ℕ) (value : Option Bool)
      → get_elem? p.results chan ≡ some (closed value)
      → get_elem? p'.results chan ≡ some (closed value)

abbrev pub routed : (tag chan : ℕ) → Bool → Publisher → Publisher
routed tag chan ack p = record p {
  results = set_at chan (closed (some ack)) (set_at chan (open_ (some ack)) p.results);
  pending = remove tag p.pending;
}

pub confirm-Routed :
    (tag : ℕ) (ack : Bool) (p : Publisher)
    → IsSound p
    → (p' : Publisher) × (confirm tag ack p ≡ ok p') × Routed tag ack p p'
confirm-Routed tag ack p sound = elim (Option-cases (find tag p.pending)) [
  | inl h ↦ (
    p,
    unfold confirm in rw (h, confirm) refl,
    record {
      sound = sound;
      done = refl;
      dones = refl;
      others = λ other apart. refl;
      here = λ chan found. absurd (ground (arith, h, found));
      settled = λ chan value before. before;
    },
  )
  | inr (chan, h) ↦
      let (o, u) = found_lem tag chan p.pending p.results (unfold IsSound in sound) h in
      (
        routed tag chan ack p,
        confirm_found tag chan ack p (unfold IsSound in sound) h,
        record {
          sound =
              unfold IsSound in
              Waiting-set_at chan (closed (some ack)) (remove tag p.pending)
                (set_at chan (open_ (some ack)) p.results) u
                (Waiting-set_at chan (open_ (some ack)) (remove tag p.pending) p.results u
                  (Waiting-remove tag p.pending p.results sound));
          done = refl;
          dones = refl;
          others = λ other apart. find-remove_other tag other p.pending ∙ rw apart refl;
          here = λ c found.
              let e : chan ≡ c = ground (arith, h, found) in
              rw (sym e) (
                get_elem?-set_at_here chan (closed (some ack)) (open_ (some ack))
                  (set_at chan (open_ (some ack)) p.results)
                  (get_elem?-set_at_here chan (open_ (some ack)) (open_ none) p.results o));
          settled = λ c value before.
              let apart = open_apart chan c value p.results o before in
              get_elem?-set_at chan c (closed (some ack)) (set_at chan (open_ (some ack)) p.results)
                apart
              ∙ get_elem?-set_at chan c (open_ (some ack)) p.results apart
              ∙ before;
        },
      )
]

-- What closing all channels does to those that wait and to those that were settled.
close_all-Settles :
    (pending : List (ℕ × ℕ)) (results : List Result)
    → Waiting pending results
    → (results' : List Result) × (close_all pending results ≡ ok results')
      × ((c : ℕ) → Unused c pending → get_elem? results' c ≡ get_elem? results c)
      × ((tag chan : ℕ)
          → find tag pending ≡ some chan
          → get_elem? results' chan ≡ some (closed none))
      × ((chan : ℕ) (value : Option Bool)
          → get_elem? results chan ≡ some (closed value)
          → get_elem? results' chan ≡ some (closed value))
unfolding close_all Waiting find
close_all-Settles [] results w = (
  results,
  refl,
  λ c u. refl,
  λ tag chan found. absurd (ground arith),
  λ chan value before. before,
)
close_all-Settles ((t, c) ∷ pending) results w =
    let (results', h, same, waiting, settled) =
      close_all-Settles pending (set_at c (closed none) results)
        (Waiting-set_at c (closed none) pending results w.1 w.2) in
    (
      results',
      rw (close_result_open c none results w.0) h,
      λ d u. same d u.1 ∙ get_elem?-set_at c d (closed none) results (ground (arith, u.0)),
      λ tag chan found. elim (Bool-cases (t == tag)) [
        | inl same_tag ↦
            let e : c ≡ chan = ground (arith, found) in
            rw (sym e) (same c w.1 ∙ get_elem?-set_at_here c (closed none) (open_ none) results w.0)
        | inr other_tag ↦ waiting tag chan (ground (arith, found))
      ],
      λ chan value before. settled chan value (
          get_elem?-set_at c chan (closed none) results (open_apart c chan value results w.0 before)
          ∙ before),
    )

pub confirms_closed-Settles :
    (p : Publisher)
    → IsSound p
    → (p' : Publisher) × (confirms_closed p ≡ ok p') × (p'.pending ≡ []) × Settles p [] p'.results
unfolding IsSound confirms_closed
confirms_closed-Settles p sound =
    let (results', h, same, waiting, settled) = close_all-Settles p.pending p.results sound in
    (
      record p { results = results'; pending = [] },
      rw h refl,
      refl,
      record { waiting = waiting; settled = settled },
    )

-- The answers behind a first confirmation, and that confirmation.
pub Settles-Routed :
    (tag : ℕ) (ack : Bool) (queue : List (ℕ × Bool)) (p p' : Publisher) (results : List Result)
    → Routed tag ack p p'
    → Settles p' queue results
    → Settles p ((tag, ack) ∷ queue) results
Settles-Routed tag ack queue p p' results r s = record {
  waiting = λ other chan found. elim (Bool-cases (tag == other)) [
    | inl same ↦
        let e : tag ≡ other = ground arith in
        rw same (s.settled chan (some ack) (r.here chan (rw e found)))
    | inr apart ↦ rw apart (s.waiting other chan (r.others other apart ∙ found))
  ];
  settled = λ chan value before. s.settled chan value (r.settled chan value before);
}
