-- ===== src/EventBus/Requeue/Laws.antt =====
-- How many deliveries a requeueing takes, and what it returns.
use rabbitmq_kit_go.Prelude.{
  ℕ, suc, ◌+◌, ◌≤◌, ◌≡◌, refl, ◌∙◌, ap, Bool, true, false, ◌&&◌, String, List, [], ◌∷◌, length, All,
  arith, if◌then◌else◌, Bool-cases, inl, inr, ◌⊎◌,
}
use rabbitmq_kit_go.Prelude.Int.{ℤ, pos, negsuc, pos_part, leb_int, ltb_int}
use rabbitmq_kit_go.Errors.{Error, nil, is_nil, new_consume_error}
use rabbitmq_kit_go.Router.Dlq.{new_dlq_message}
use rabbitmq_kit_go.Broker.Retry.{Publish}
use rabbitmq_kit_go.Broker.Consumer.{Settlement, ack, nack}
use rabbitmq_kit_go.EventBus.Requeue.{
  Arrival, Ending, closed, waiting, Outcome, returned, blocked, requeue_from_dlq, requeue_loop,
  requeue_all_from_dlq,
}

-- How many deliveries were acknowledged.
pub acks : List Settlement → ℕ
acks [] = 0
acks (ack ∷ settled) = suc (acks settled)
acks (nack b ∷ settled) = acks settled

-- What a result says of the acknowledgements.
record Counted (max : ℤ) (n taken : ℕ) (outcome : Outcome) (settled : List Settlement)
    : Type 0 where
  pub count : (c : ℕ) (err : Error) → outcome ≡ returned c err → c ≡ n + acks settled
  pub limit : ltb_int (pos 0) max ≡ true → n ≤ pos_part max → n + acks settled ≤ pos_part max
  pub each : length settled ≤ taken

-- The count that is returned, if the requeueing returns.
abbrev pub Returns : ℕ → Outcome → Type 0
Returns n (returned c err) = c ≡ n
Returns n blocked = Unit

count_in : Outcome → ℕ
count_in (returned c err) = c
count_in blocked = 0

returned_count : (n c : ℕ) (err err' : Error) → returned n err ≡ returned c err' → n ≡ c
unfolding count_in
returned_count n c err err' h = ap count_in h

-- Below a limit there is room for one more.
limit_room :
    (max : ℤ) (n : ℕ)
    → (ltb_int (pos 0) max && leb_int max (pos n)) ≡ false
    → ltb_int (pos 0) max ≡ true
    → n + 1 ≤ pos_part max
limit_room (pos m) n room positive = ground arith
limit_room (negsuc m) n room positive = ground arith

-- With room for one more the limit is not reached.
room_limit :
    (max : ℤ) (n k : ℕ)
    → (ltb_int (pos 0) max ≡ false) ⊎ (n + suc k ≤ pos_part max)
    → (ltb_int (pos 0) max && leb_int max (pos n)) ≡ false
room_limit (pos m) n k room = ground arith
room_limit (negsuc m) n k room = ground arith

next_room :
    (max : ℤ) (n k : ℕ) (done : Bool)
    → (ltb_int (pos 0) max ≡ false) ⊎ (n + suc k ≤ pos_part max)
    → (ltb_int (pos 0) max ≡ false) ⊎ ((if done then n + 1 else n) + k ≤ pos_part max)
next_room max n k done (inl h) = inl h
next_room max n k done (inr h) = inr (ground arith)

-- A loop that stops without an acknowledgement.
stop-Counted :
    (max : ℤ) (n taken : ℕ) (err : Error) (settled : List Settlement)
    → acks settled ≡ 0
    → length settled ≤ taken
    → Counted max n taken (returned n err) settled
stop-Counted max n taken err settled none_acked each = record {
  count = λ c e h. omega (arith, returned_count n c err e h, none_acked);
  limit = λ positive below. omega arith;
  each = each;
}

-- A delivery that is settled, and the rest of the loop.
take-Counted :
    (max : ℤ) (n taken : ℕ) (outcome : Outcome) (settled : List Settlement) (done : Bool)
    → (ltb_int (pos 0) max && leb_int max (pos n)) ≡ false
    → Counted max (if done then n + 1 else n) taken outcome settled
    → Counted max n (suc taken) outcome ((if done then ack else nack true) ∷ settled)
take-Counted max n taken outcome settled true room h = record {
  count = λ c e eq. unfold acks in omega (arith, h.count c e eq);
  limit = λ positive below.
      unfold acks in omega (arith, h.limit positive (limit_room max n room positive));
  each = omega (arith, h.each);
}
take-Counted max n taken outcome settled false room h = record {
  count = λ c e eq. unfold acks in h.count c e eq;
  limit = λ positive below. unfold acks in h.limit positive below;
  each = omega (arith, h.each);
}

Returns-Counted :
    (max : ℤ) (taken : ℕ) (outcome : Outcome) (settled : List Settlement)
    → Counted max 0 taken outcome settled
    → Returns (acks settled) outcome
      × ((ltb_int (pos 0) max ≡ false) ⊎ (acks settled ≤ pos_part max))
      × (length settled ≤ taken)
Returns-Counted max taken outcome settled h = (
  count outcome h,
  elim (Bool-cases (ltb_int (pos 0) max)) [
    | inl positive ↦ inr (omega (arith, h.limit positive (omega arith)))
    | inr none_ ↦ inl none_
  ],
  h.each,
)
  where
    count :
        (outcome : Outcome) → Counted max 0 taken outcome settled → Returns (acks settled) outcome
    count (returned c err) h = omega (arith, h.count c err refl)
    count blocked h = tt

-- A requeueing that fails before its loop.
stopped :
    (max : ℤ) (taken : ℕ) (err : Error)
    → Returns (acks []) (returned 0 err)
      × ((ltb_int (pos 0) max ≡ false) ⊎ (acks [] ≤ pos_part max))
      × (0 ≤ taken)
unfolding acks
stopped max taken err = (refl, inr (omega arith), omega arith)

module _ {S : Type 0} (publish : Publish S) (reset : Bool) (max : ℤ) where
  -- A delivery within the limit, while the context is live, is requeued and settled.
  taken_lem :
      (a : Arrival) (arrivals : List Arrival) (ending : Ending) (n : ℕ) (s : S)
      → (ltb_int (pos 0) max && leb_int max (pos n)) ≡ false
      → is_nil a.cancelled ≡ true
      → let (err, s') = requeue_from_dlq publish a.now (new_dlq_message a.delivery) reset s in
        let rest =
          requeue_loop publish reset max arrivals ending (if is_nil err then n + 1 else n) s' in
        requeue_loop publish reset max (a ∷ arrivals) ending n s
        ≡ ((rest.0.0, (if is_nil err then ack else nack true) ∷ rest.0.1), rest.1)
  unfolding requeue_loop
  taken_lem a arrivals ending n s room live = rw (room, live)

  requeue_loop-Counted :
      (arrivals : List Arrival) (ending : Ending) (n : ℕ) (s : S)
      → Counted max n
          (length arrivals)
          (requeue_loop publish reset max arrivals ending n s).0.0
          (requeue_loop publish reset max arrivals ending n s).0.1
  requeue_loop-Counted [] closed n s =
      unfold requeue_loop in stop-Counted max n 0 nil [] (unfold acks in refl) (omega arith)
  requeue_loop-Counted [] waiting n s =
      unfold requeue_loop in
      record {
        count = λ c err h. absurd (ground arith);
        limit = λ positive below. unfold acks in omega arith;
        each = omega arith;
      }
  requeue_loop-Counted (a ∷ arrivals) ending n s =
      elim (Bool-cases (ltb_int (pos 0) max && leb_int max (pos n))) [
        | inl full ↦
            unfold requeue_loop in
            rw full (
              stop-Counted max n (suc (length arrivals)) nil (nack true ∷ []) (unfold acks in refl)
                (omega arith))
        | inr room ↦ elim (Bool-cases (is_nil a.cancelled)) [
          | inl live ↦
              let (err, s') = requeue_from_dlq publish a.now (new_dlq_message a.delivery) reset s in
              let next : ℕ = (if is_nil err then n + 1 else n) in
              rw (taken_lem a arrivals ending n s room live) (
                take-Counted max n (length arrivals)
                  (requeue_loop publish reset max arrivals ending next s').0.0
                  (requeue_loop publish reset max arrivals ending next s').0.1 (is_nil err) room
                  (requeue_loop-Counted arrivals ending next s'))
          | inr dead ↦
              unfold requeue_loop in
              rw (room, dead)
                (stop-Counted max n (suc (length arrivals)) a.cancelled (nack true ∷ [])
                  (unfold acks in refl) (omega arith))
        ]
      ]

  requeue_loop_waits :
      (arrivals : List Arrival) (n : ℕ) (s : S)
      → All (λ a. a.cancelled ≡ nil) arrivals
      → (ltb_int (pos 0) max ≡ false) ⊎ (n + length arrivals ≤ pos_part max)
      → (requeue_loop publish reset max arrivals waiting n s).0.0 ≡ blocked
  requeue_loop_waits [] n s h room = unfold requeue_loop in refl
  requeue_loop_waits (a ∷ arrivals) n s h room =
      let (err, s') = requeue_from_dlq publish a.now (new_dlq_message a.delivery) reset s in
      let next : ℕ = (if is_nil err then n + 1 else n) in
      ap (λ x. x.0.0)
        (taken_lem a arrivals waiting n s (room_limit max n (length arrivals) room) (ap is_nil h.0))
      ∙ requeue_loop_waits arrivals next s' h.1
          (next_room max n (length arrivals) (is_nil err) room)

  -- A requeueing of a whole queue: the count that it returns is the number of deliveries that it
  -- acknowledged; that number is at most a limit that is positive; and it settles no more
  -- deliveries than came.
  pub requeue_all_from_dlq-Returns :
      (no_channel refused : Error) (dlq_name : String) (arrivals : List Arrival) (ending : Ending)
      (s : S)
      → let ((outcome, settled), s') =
          requeue_all_from_dlq publish no_channel refused dlq_name reset max arrivals ending s in
        Returns (acks settled) outcome
        × ((ltb_int (pos 0) max ≡ false) ⊎ (acks settled ≤ pos_part max))
        × (length settled ≤ length arrivals)
  requeue_all_from_dlq-Returns no_channel refused dlq_name arrivals ending s =
      elim (Bool-cases (is_nil no_channel)) [
        | inl open_ ↦ elim (Bool-cases (is_nil refused)) [
          | inl consuming ↦
              unfold requeue_all_from_dlq in
              rw (open_, consuming)
                (Returns-Counted max (length arrivals)
                  (requeue_loop publish reset max arrivals ending 0 s).0.0
                  (requeue_loop publish reset max arrivals ending 0 s).0.1
                  (requeue_loop-Counted arrivals ending 0 s))
          | inr h ↦
              unfold requeue_all_from_dlq in
              rw (open_, h) (stopped max (length arrivals) (new_consume_error dlq_name refused))
        ]
        | inr h ↦ unfold requeue_all_from_dlq in rw h (stopped max (length arrivals) no_channel)
      ]

  -- While the stream stays open and the context is live, a requeueing whose limit is not passed by
  -- the deliveries that came, or that has none, does not return: it waits for another delivery.
  pub requeue_waits :
      (dlq_name : String) (arrivals : List Arrival) (s : S)
      → All (λ a. a.cancelled ≡ nil) arrivals
      → (ltb_int (pos 0) max ≡ false) ⊎ (length arrivals ≤ pos_part max)
      → (requeue_all_from_dlq publish nil nil dlq_name reset max arrivals waiting s).0.0 ≡ blocked
  unfolding requeue_all_from_dlq
  requeue_waits dlq_name arrivals s live room =
      requeue_loop_waits arrivals 0 s live (elim room [ inl h ↦ inl h | inr h ↦ inr (omega arith) ])
