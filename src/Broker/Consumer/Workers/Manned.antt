-- ===== src/Broker/Consumer/Workers/Manned.antt =====
-- Closing time: while deliveries wait, a worker is in its loop.
use rabbitmq_kit_go.Prelude.{
  length-set_at, ℕ, zero, suc, ◌<◌, ◌≡◌, ◌⊎◌, Bool, true, false, ◌||◌, ◌==◌, get_elem?-set_at,
  get_elem?-set_at_here, refl, sym, ◌∙◌, Option, none, some, List, [], ◌∷◌, All, length, get_elem?,
  arith, Option-cases, Bool-cases, inl, inr,
}
use rabbitmq_kit_go.Amqp.{Delivery}
use rabbitmq_kit_go.Broker.Consumer.{Services, Consumer, Env, World}
use rabbitmq_kit_go.Broker.Consumer.Workers.{
  Phase, idle, taken, admitted, failing, retrying, retried, acked, turn,
}
use rabbitmq_kit_go.Broker.Consumer.Workers.Ending.{Leaving, last_turn, step, run}
use rabbitmq_kit_go.Broker.Consumer.Workers.Budget.{all_left, in_progress}

-- No delivery waits, or a worker is in its loop.
abbrev pub Manned : {S : Type 0} → Leaving S → Type 0
Manned s = (s.queue ≡ []) ⊎ ((i : ℕ) × (p : Phase) × (get_elem? s.workers i ≡ some (some p)))

-- The worker has a turn among these.
abbrev pub appears : ℕ → List (ℕ × Env) → Bool
appears i [] = false
appears i ((j, e) ∷ turns) = i == j || appears i turns

-- Every one of the first `n` workers has a turn.
abbrev pub Covers : ℕ → List (ℕ × Env) → Type 0
Covers n round = (i : ℕ) → i < n → appears i round ≡ true

pub live_or_gone :
    (os : List (Option Phase))
    → (All (λ o. o ≡ none) os) ⊎ ((i : ℕ) × (p : Phase) × (get_elem? os i ≡ some (some p)))
live_or_gone [] = inl tt
live_or_gone (some p ∷ os) = inr (0, p, refl)
live_or_gone (none ∷ os) = elim (live_or_gone os) [
  | inl all ↦ inl (refl, all)
  | inr (i, p, h) ↦ inr (suc i, p, h)
]

pub all_left-none : (os : List (Option Phase)) → All (λ o. o ≡ none) os → all_left os ≡ 0
all_left-none [] all = refl
all_left-none (o ∷ os) all = rw (all.0) (omega (arith, all_left-none os all.1))

pub none-all_left : (os : List (Option Phase)) → all_left os ≡ 0 → All (λ o. o ≡ none) os
none-all_left [] h = tt
none-all_left (none ∷ os) h = (refl, none-all_left os (omega (arith, h)))
none-all_left (some idle ∷ os) h = absurd (omega (arith, h))
none-all_left (some acked ∷ os) h = absurd (omega (arith, h))
none-all_left (some (retried err d) ∷ os) h = absurd (omega (arith, h))
none-all_left (some (retrying d) ∷ os) h = absurd (omega (arith, h))
none-all_left (some (failing d) ∷ os) h = absurd (omega (arith, h))
none-all_left (some (admitted d) ∷ os) h = absurd (omega (arith, h))
none-all_left (some (taken d) ∷ os) h = absurd (omega (arith, h))

pub in_progress-none : (os : List (Option Phase)) → All (λ o. o ≡ none) os → in_progress os ≡ 0
in_progress-none [] all = refl
in_progress-none (o ∷ os) all = rw (all.0) (omega (arith, in_progress-none os all.1))

pub gone_elem :
    (i : ℕ) (o : Option Phase) (os : List (Option Phase))
    → All (λ o. o ≡ none) os
    → get_elem? os i ≡ some o
    → o ≡ none
gone_elem i o [] all h = absurd (ground arith)
gone_elem zero o (x ∷ os) all h = let same : x ≡ o = ground arith in sym same ∙ all.0
gone_elem (suc i) o (x ∷ os) all h = gone_elem i o os all.1 h

module _ {S H : Type 0} (v : Services S H) (c : Consumer H) where
  last_turn-empty : (e : Env) (p : Phase) (w : World S) → (last_turn v c e p [] w).0.1 ≡ []
  unfolding last_turn turn
  last_turn-empty e idle w = refl
  last_turn-empty e (taken d) w = refl
  last_turn-empty e (admitted d) w = refl
  last_turn-empty e (failing d) w = refl
  last_turn-empty e (retrying d) w = refl
  last_turn-empty e (retried err d) w = refl
  last_turn-empty e acked w = refl

  -- A worker leaves only when no delivery waits.
  last_turn-stays :
      (e : Env) (p : Phase) (queue : List Delivery) (w : World S)
      → (queue ≡ []) ⊎ ((p' : Phase) × ((last_turn v c e p queue w).0.0 ≡ some p'))
  unfolding last_turn
  last_turn-stays e idle [] w = inl refl
  last_turn-stays e idle (d ∷ queue) w = inr ((turn v c e idle (d ∷ queue) w).0.0, refl)
  last_turn-stays e (taken d) queue w = inr ((turn v c e (taken d) queue w).0.0, refl)
  last_turn-stays e (admitted d) queue w = inr ((turn v c e (admitted d) queue w).0.0, refl)
  last_turn-stays e (failing d) queue w = inr ((turn v c e (failing d) queue w).0.0, refl)
  last_turn-stays e (retrying d) queue w = inr ((turn v c e (retrying d) queue w).0.0, refl)
  last_turn-stays e (retried err d) queue w = inr ((turn v c e (retried err d) queue w).0.0, refl)
  last_turn-stays e acked queue w = inr ((turn v c e acked queue w).0.0, refl)

  step-length :
      (i : ℕ) (e : Env) (s : Leaving S) → length (step v c i e s).workers ≡ length s.workers
  unfolding step
  step-length i e s = elim (Option-cases (get_elem? s.workers i)) [
    | inl h ↦ rw (h, step) refl
    | inr (none, h) ↦ rw (h, step) refl
    | inr (some p, h) ↦
        rw (h, step) (length-set_at i (last_turn v c e p s.queue s.world).0.0 s.workers)
  ]

  -- Another worker's turn leaves a worker where it is.
  pub step-other :
      (i j : ℕ) (e : Env) (s : Leaving S)
      → (i == j) ≡ false
      → get_elem? (step v c j e s).workers i ≡ get_elem? s.workers i
  unfolding step
  step-other i j e s apart = elim (Option-cases (get_elem? s.workers j)) [
    | inl h ↦ rw (h, step) refl
    | inr (none, h) ↦ rw (h, step) refl
    | inr (some p, h) ↦
        rw (h, step) (get_elem?-set_at j i (last_turn v c e p s.queue s.world).0.0 s.workers apart)
  ]

  step-empty : (i : ℕ) (e : Env) (s : Leaving S) → s.queue ≡ [] → (step v c i e s).queue ≡ []
  unfolding step
  step-empty i e s empty = elim (Option-cases (get_elem? s.workers i)) [
    | inl h ↦ rw (h, step) empty
    | inr (none, h) ↦ rw (h, step) empty
    | inr (some p, h) ↦ rw (h, step) (rw empty (last_turn-empty e p s.world))
  ]

  step-own :
      (i : ℕ) (e : Env) (s : Leaving S) (p p' : Phase)
      → get_elem? s.workers i ≡ some (some p)
      → (last_turn v c e p s.queue s.world).0.0 ≡ some p'
      → get_elem? (step v c i e s).workers i ≡ some (some p')
  unfolding step
  step-own i e s p p' h h' =
      rw (h, step, h') (get_elem?-set_at_here i (some p') (some p) s.workers h)

  step-Manned : (i : ℕ) (e : Env) (s : Leaving S) → Manned s → Manned (step v c i e s)
  step-Manned i e s (inl empty) = inl (step-empty i e s empty)
  step-Manned i e s (inr (j, p, h)) = elim (Bool-cases (j == i)) [
    | inr apart ↦ inr (j, p, step-other j i e s apart ∙ h)
    | inl same ↦
        let e' : j ≡ i = ground arith in
        let own : get_elem? s.workers i ≡ some (some p) = rw (sym e') h in
        elim (last_turn-stays e p s.queue s.world) [
          | inl empty ↦ inl (step-empty i e s empty)
          | inr (p', h') ↦ inr (i, p', step-own i e s p p' own h')
        ]
  ]

  pub run-Manned : (turns : List (ℕ × Env)) (s : Leaving S) → Manned s → Manned (run v c turns s)
  unfolding run
  run-Manned [] s m = m
  run-Manned ((i, e) ∷ turns) s m = run-Manned turns (step v c i e s) (step-Manned i e s m)

  pub run-length :
      (turns : List (ℕ × Env)) (s : Leaving S) → length (run v c turns s).workers ≡ length s.workers
  unfolding run
  run-length [] s = refl
  run-length ((i, e) ∷ turns) s = run-length turns (step v c i e s) ∙ step-length i e s
