-- ===== src/EventBus/FailFast.antt =====
-- What fail-fast means in the two modes of `PublishBatch`.
use rabbitmq_kit_go.Prelude.{
  ℕ, ◌+◌, ◌≡◌, refl, Bool, true, false, not, List, [], ◌∷◌, length, if◌then◌else◌, ◌==◌, arith,
  Bool-cases, inl, inr,
}
use rabbitmq_kit_go.Errors.{Error, nil, is_nil}
use rabbitmq_kit_go.EventBus.{
  Ids, Event, BatchResult, Outside, add_success, create_default_publishing, publish,
  publish_sequential, serialize, publish_batch_pipeline, publish_batch_sequential,
}
use rabbitmq_kit_go.EventBus.Batch.{unserialized, sequential-Accounts}
use rabbitmq_kit_go.EventBus.Pipeline.{empty_result}

abbrev ends : {A S : Type 0} (early fatal : Bool) (x y z : A) (s s' : S) → A × S
ends early fatal x y z s s' = if early then (x, s) else (if fatal then (y, s') else (z, s'))

-- Counting the results changes nothing outside.
ends_in_same :
    {A S : Type 0} (early fatal : Bool) (x y z z' : A) (s s' : S)
    → (ends early fatal x y z s s').1 ≡ (ends early fatal x y z' s s').1
ends_in_same true fatal x y z z' s s' = refl
ends_in_same false true x y z z' s s' = refl
ends_in_same false false x y z z' s s' = refl

module _ {S : Type 0} (o : Outside S) where
  -- The events up to the first whose publish fails, and the error of that.
  unfoldable pub until_failure : List (Ids × Event) → S → List (Ids × Event)
  until_failure [] s = []
  until_failure ((ids, event) ∷ events) s =
      let (err, s') = publish o ids event s in
      let rest = until_failure events s' in
      if is_nil err then (ids, event) ∷ rest else (ids, event) ∷ []

  unfoldable pub first_error : List (Ids × Event) → S → Error
  first_error [] s = nil
  first_error ((ids, event) ∷ events) s =
      let (err, s') = publish o ids event s in
      let rest = first_error events s' in if is_nil err then rest else err

  abbrev pub tried : Bool → List (Ids × Event) → S → List (Ids × Event)
  tried fail_fast es s = if fail_fast then until_failure es s else es

  stops :
      (i : ℕ) (es : List (Ids × Event)) (r : BatchResult) (s : S)
      → publish_sequential o true i es r s ≡ (
        ((publish_sequential o false i (until_failure es s) r s).0.0, first_error es s),
        (publish_sequential o false i (until_failure es s) r s).1,
      )
  unfolding publish_sequential until_failure first_error
  stops i [] r s = refl
  stops i ((ids, e) ∷ es) r s = elim (Bool-cases (is_nil (publish o ids e s).0)) [
    | inl h ↦ rw (h, h) (stops (i + 1) es (add_success r) (publish o ids e s).1)
    | inr h ↦ rw (h, h) refl
  ]

  -- With fail-fast, the messages of a batch that serializes are those without.
  serialize_all :
      (i : ℕ) (es : List (Ids × Event)) (r : BatchResult)
      → (unserialized o es == 0) ≡ true
      → serialize o true i es r ≡ serialize o false i es r
  unfolding serialize unserialized
  serialize_all i [] r h = refl
  serialize_all i ((ids, e) ∷ es) r h =
      elim (Bool-cases (is_nil (create_default_publishing o.marshal ids e).0)) [
        | inl g ↦ rw (g, serialize_all (i + 1) es r (ground (arith, g, h))) refl
        | inr g ↦ absurd (ground (arith, g, h))
      ]

  serialize_stops :
      (i : ℕ) (es : List (Ids × Event)) (r : BatchResult)
      → (unserialized o es == 0) ≡ false
      → is_nil (serialize o true i es r).0.1 ≡ false
  unfolding serialize unserialized
  serialize_stops i [] r h = absurd (ground (arith, h))
  serialize_stops i ((ids, e) ∷ es) r h =
      elim (Bool-cases (is_nil (create_default_publishing o.marshal ids e).0)) [
        | inl g ↦ rw g (serialize_stops (i + 1) es r (ground (arith, g, h)))
        | inr g ↦ rw g g
      ]

  pipelined_state :
      (es : List (Ids × Event)) (r : BatchResult) (s : S)
      → (publish_batch_pipeline o true es r s).1
        ≡ (if unserialized o es == 0 then (publish_batch_pipeline o false es r s).1 else s)
  unfolding publish_batch_pipeline
  pipelined_state es r s = elim (Bool-cases (unserialized o es == 0)) [
    | inr h ↦ rw (h, serialize_stops 0 es r h) refl
    | inl h ↦
        rw (h, serialize_all 0 es r h)
          (ends_in_same (not (is_nil (serialize o false 0 es r).0.1))
            (not (is_nil (o.publish_pipeline (serialize o false 0 es r).0.0 s).0.1)) _ _ _ _ s
            (o.publish_pipeline (serialize o false 0 es r).0.0 s).1)
  ]

  -- The sequential mode, with fail-fast, does with the batch what it does without with the events up
  -- to the first failure, and returns the error of that; without fail-fast it tries every event and
  -- returns no error; in both cases the successes and the failures add up to the events that were
  -- tried, and each failure has its entry. The pipelined mode with fail-fast sends nothing if an
  -- event does not serialize, and otherwise sends as much as it does without fail-fast.
  pub fail_fast_lem :
      (fail_fast : Bool) (es : List (Ids × Event)) (s : S)
      → let ((r, err), s') = publish_batch_sequential o fail_fast es (empty_result es) s in
        let ((r1, err1), s1) =
          publish_batch_sequential o false (tried fail_fast es s) (empty_result es) s in
        ◌≡◌ {A = BatchResult × S} (r, s') (r1, s1)
        × (err ≡ (if fail_fast then first_error es s else nil))
        × (r.success + r.failed ≡ length (tried fail_fast es s))
        × (length r.errors ≡ r.failed)
        × ((publish_batch_pipeline o true es (empty_result es) s).1 ≡ (
            if unserialized o es == 0
            then (publish_batch_pipeline o false es (empty_result es) s).1
            else s))
  unfolding publish_batch_sequential
  fail_fast_lem true es s =
      let (a, done) = sequential-Accounts o 0 (until_failure es s) (empty_result es) s refl in
      rw (stops 0 es (empty_result es) s)
        (refl, refl, omega (arith, a.sum), a.errors, pipelined_state es (empty_result es) s)
  fail_fast_lem false es s =
      let (a, done) = sequential-Accounts o 0 es (empty_result es) s refl in
      (refl, done, omega (arith, a.sum), a.errors, pipelined_state es (empty_result es) s)
