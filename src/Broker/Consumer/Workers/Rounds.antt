-- ===== src/Broker/Consumer/Workers/Rounds.antt =====
-- The workers of a closed channel, round after round.
use rabbitmq_kit_go.Prelude.{
  get_elem?_below, length_zero, ℕ, ◌+◌, ◌≤◌, ◌≡◌, ◌⊎◌, true, ◌==◌, refl, sym, ◌∙◌, none, some, List,
  [], ◌∷◌, All, length, get_elem?, arith, Option-cases, Bool-cases, inl, inr,
}
use rabbitmq_kit_go.Broker.Consumer.{Services, Consumer, Env}
use rabbitmq_kit_go.Broker.Consumer.Workers.{Phase}
use rabbitmq_kit_go.Broker.Consumer.Workers.Ending.{Leaving, step, run, turns_of, run_rounds}
use rabbitmq_kit_go.Broker.Consumer.Workers.Budget.{budget, in_progress, load, run-spends}
use rabbitmq_kit_go.Broker.Consumer.Workers.Manned.{
  Manned, appears, Covers, live_or_gone, all_left-none, none-all_left, in_progress-none, gone_elem,
  step-other, run-Manned, run-length,
}

module _ {S H : Type 0} (v : Services S H) (c : Consumer H) where
  -- A worker in its loop that has a turn in a round makes the round count.
  round-counts :
      (i : ℕ) (p : Phase) (round : List (ℕ × Env)) (s : Leaving S)
      → get_elem? s.workers i ≡ some (some p)
      → appears i round ≡ true
      → 1 ≤ turns_of v c round s
  unfolding turns_of
  round-counts i p [] s h a = absurd (ground (arith, a))
  round-counts i p ((j, e) ∷ round) s h a = elim (Bool-cases (i == j)) [
    | inl same ↦
        let e' : i ≡ j = ground arith in
        let own : get_elem? s.workers j ≡ some (some p) = rw (sym e') h in rw own (omega arith)
    | inr apart ↦
        let later : appears i round ≡ true = ground (arith, a, apart) in
        omega
          (arith, round-counts i p round (step v c j e s) (step-other v c i j e s apart ∙ h) later)
  ]

  round-live :
      (i : ℕ) (p : Phase) (round : List (ℕ × Env)) (s : Leaving S)
      → get_elem? s.workers i ≡ some (some p)
      → Covers (length s.workers) round
      → budget (run v c round s) + 1 ≤ budget s
  round-live i p round s h covers =
      let once = round-counts i p round s h (covers i (get_elem?_below i (some p) s.workers h)) in
      let (spent, kept) = run-spends v c round s in omega (arith, once, spent)

  -- A round spends something, until nothing is left.
  round-spends :
      (round : List (ℕ × Env)) (s : Leaving S)
      → Manned s
      → Covers (length s.workers) round
      → (budget (run v c round s) + 1 ≤ budget s) ⊎ (budget s ≡ 0)
  round-spends round s (inr (i, p, h)) covers = inl (round-live i p round s h covers)
  round-spends round s (inl empty) covers = elim (live_or_gone s.workers) [
    | inr (i, p, h) ↦ inl (round-live i p round s h covers)
    | inl all ↦ inr (rw empty (omega (arith, all_left-none s.workers all)))
  ]

  rounds-spend :
      (rounds : List (List (ℕ × Env))) (s : Leaving S)
      → Manned s
      → All (Covers (length s.workers)) rounds
      → budget s ≤ length rounds
      → let s' = run_rounds v c rounds s in (budget s' ≡ 0) × (load v c s' ≡ load v c s)
  unfolding run_rounds
  rounds-spend [] s m covers enough = (omega (arith, enough), refl)
  rounds-spend (round ∷ rounds) s m covers enough =
      let s1 = run v c round s in
      let (spent, kept) = run-spends v c round s in
      let fewer : budget s1 ≤ length rounds = (elim (round-spends round s m covers.0) [
        | inl less ↦ omega (arith, less, enough)
        | inr done ↦ omega (arith, done, spent)
      ]) in
      let (left, kept') =
        rounds-spend rounds s1 (run-Manned v c round s m) (rw (run-length v c round s) covers.1)
          fewer in
      (left, kept' ∙ kept)

  step-left : (i : ℕ) (e : Env) (s : Leaving S) → All (λ o. o ≡ none) s.workers → step v c i e s ≡ s
  unfolding step
  step-left i e s all = elim (Option-cases (get_elem? s.workers i)) [
    | inl h ↦ rw (h, step) refl
    | inr (o, h) ↦ rw (h, step, gone_elem i o s.workers all h) refl
  ]

  run-left :
      (turns : List (ℕ × Env)) (s : Leaving S) → All (λ o. o ≡ none) s.workers → run v c turns s ≡ s
  unfolding run
  run-left [] s all = refl
  run-left ((i, e) ∷ turns) s all = rw (step-left i e s all) (run-left turns s all)

  -- Once the channel of deliveries is closed, and if a worker is in its loop while deliveries wait:
  -- rounds in each of which every worker has a turn, in any order and any number of times, bring
  -- all workers out of their loops. Six rounds for each delivery that waits, and as many as the
  -- workers have turns left, are enough. By then every delivery that was taken or waited is
  -- settled, and no worker ever does anything again.
  pub workers_leave :
      (rounds : List (List (ℕ × Env))) (s : Leaving S)
      → Manned s
      → All (Covers (length s.workers)) rounds
      → budget s ≤ length rounds
      → let s' = run_rounds v c rounds s in
        All (λ o. o ≡ none) s'.workers
        × (s'.queue ≡ [])
        × (length s'.world.settled
            ≡ length s.world.settled + in_progress s.workers + length s.queue)
        × ((more : List (ℕ × Env)) → run v c more s' ≡ s')
  workers_leave rounds s m covers enough =
      let s' = run_rounds v c rounds s in
      let (left, kept) = rounds-spend rounds s m covers enough in
      let all = none-all_left s'.workers (omega (arith, left)) in
      (
        all,
        length_zero s'.queue (omega (arith, left)),
        omega (arith, kept, in_progress-none s'.workers all, left),
        λ more. run-left more s' all,
      )
