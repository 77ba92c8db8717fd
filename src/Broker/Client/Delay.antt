-- ===== src/Broker/Client/Delay.antt =====
-- internal/broker/client.go: `handleReconnect` against the clock. A connect takes no time of its own.
-- `closed` says whether the client is closed at a time, and a list of answers what the connects to
-- come would return on a client that is open; the account ends where the list does.
use rabbitmq_kit_go.Prelude.{
  ℕ, zero, suc, ◌+◌, ◌*◌, ◌≤◌, ◌<◌, ◌≡◌, ◌⊎◌, refl, sym, ap, ◌∙◌, Bool, true, false, not, ◌&&◌,
  some, List, [], ◌∷◌, ◌++◌, All, get_elem?, if◌then◌else◌, ltb, arith, Bool-cases, inl, inr,
}

-- How the inner loop ends: connected, with the answers that are left; returned; or still trying.
pub data Ending : Type 0 where
  connected : (at : ℕ) → (answers : List Bool) → Ending
  returned : Ending
  trying : Ending

-- What the goroutine does after the inner loop.
abbrev and_on : List ℕ × Ending → (List Bool → ℕ → List ℕ) → List ℕ
and_on (times, connected at answers) next = times ++ next answers at
and_on (times, returned) next = times
and_on (times, trying) next = times

module _ (delay : ℕ) (closed : ℕ → Bool) where
  -- The inner loop from its first connect at the time `now`: the times of the connects.
  unfoldable pub connect_until : List Bool → (now : ℕ) → List ℕ × Ending
  connect_until [] now = ([], trying)
  connect_until (answer ∷ answers) now =
      let (times, ending) = connect_until answers (now + delay) in
      if answer && not (closed now)
      then (now ∷ [], connected now answers)
      else (if closed (now + delay) then (now ∷ [], returned) else (now ∷ times, ending))

  -- The goroutine, from when it is free: `signals` are the times, in order, at which the watcher or
  -- `Reconnect` tries to send. It gives the times of the connects.
  unfoldable pub handle_reconnect : (signals : List ℕ) → List Bool → (free : ℕ) → List ℕ
  unfolding connect_until
  handle_reconnect [] answers free = []
  handle_reconnect (t ∷ signals) answers free =
      let dropped = handle_reconnect signals answers free in
      if ltb t free
      then dropped
      else (if closed t
          then []
          else and_on (connect_until answers (t + delay)) (handle_reconnect signals))

  abbrev turn : (ends closes : Bool) → (now : ℕ) → (ok next : Ending) → List ℕ → List ℕ × Ending
  turn ends closes now ok next times =
      if ends
      then (now ∷ [], ok)
      else (if closes then (now ∷ [], returned) else (now ∷ times, next))

  turn-times :
      (ends closes : Bool) (now k x : ℕ) (ok next : Ending) (times : List ℕ)
      → get_elem? (turn ends closes now ok next times).0 k ≡ some x
      → ((k ≡ 0) × (x ≡ now)) ⊎ ((j : ℕ) × (k ≡ suc j) × (get_elem? times j ≡ some x))
  turn-times true closes now zero x ok next times h = inl (refl, ground (arith, h))
  turn-times true closes now (suc k) x ok next times h = absurd (ground (arith, h))
  turn-times false true now zero x ok next times h = inl (refl, ground (arith, h))
  turn-times false true now (suc k) x ok next times h = absurd (ground (arith, h))
  turn-times false false now zero x ok next times h = inl (refl, ground (arith, h))
  turn-times false false now (suc k) x ok next times h = inr (k, refl, h)

  turn-ending :
      (ends closes : Bool) (now at : ℕ) (next : Ending) (answers rest : List Bool) (times : List ℕ)
      → (turn ends closes now (connected now answers) next times).1 ≡ connected at rest
      → (next ≡ connected at rest → now ≤ at)
      → now ≤ at
  turn-ending true closes now at next answers rest times h later = omega (arith, now_at h)
    where
      now_at : connected now answers ≡ connected at rest → now ≡ at
      now_at e = ground (arith, e)
  turn-ending false true now at next answers rest times h later = absurd (ground (arith, h))
  turn-ending false false now at next answers rest times h later = later h

  -- The inner loop connects at its start, and then every `delay`.
  times_lem :
      (answers : List Bool) (now k x : ℕ)
      → get_elem? (connect_until answers now).0 k ≡ some x
      → x ≡ now + k * delay
  unfolding connect_until
  times_lem [] now k x h = absurd (ground arith)
  times_lem (answer ∷ answers) now k x h =
      let (times, ending) = connect_until answers (now + delay) in
      elim (turn-times (answer && not (closed now)) (closed (now + delay)) now k x
        (connected now answers) ending times h) [
          | inl (first, at) ↦ rw first (omega (arith, at))
          | inr (j, after, h') ↦
              let later = times_lem answers (now + delay) j x h' in rw after (omega (arith, later))
        ]

  -- When it ends with a connection, its start is past.
  ending_lem :
      (answers : List Bool) (now at : ℕ) (rest : List Bool)
      → (connect_until answers now).1 ≡ connected at rest
      → now ≤ at
  unfolding connect_until
  ending_lem [] now at rest h = absurd (ground arith)
  ending_lem (answer ∷ answers) now at rest h =
      turn-ending (answer && not (closed now)) (closed (now + delay)) now at
        (connect_until answers (now + delay)).1 answers rest (connect_until answers (now + delay)).0
        h (λ e. let later = ending_lem answers (now + delay) at rest e in omega (arith, later))

  -- Signals that come before the handler is free are dropped.
  busy_lem :
      (early later : List ℕ) (answers : List Bool) (free : ℕ)
      → All (λ t. t < free) early
      → handle_reconnect (early ++ later) answers free ≡ handle_reconnect later answers free
  unfolding handle_reconnect
  busy_lem [] later answers free h = refl
  busy_lem (t ∷ early) later answers free h =
      let before : ltb t free ≡ true = ground (arith, h.0) in
      rw before (busy_lem early later answers free h.1)

  All-append : (P : ℕ → Type 0) (xs ys : List ℕ) → All P xs → All P ys → All P (xs ++ ys)
  All-append P [] ys a b = b
  All-append P (x ∷ xs) ys a b = (a.0, All-append P xs ys a.1 b)

  All-turn :
      (P : ℕ → Type 0) (ends closes : Bool) (now : ℕ) (ok next : Ending) (times : List ℕ)
      → P now
      → All P times
      → All P (turn ends closes now ok next times).0
  All-turn P true closes now ok next times p a = (p, tt)
  All-turn P false true now ok next times p a = (p, tt)
  All-turn P false false now ok next times p a = (p, a)

  connects_from :
      (answers : List Bool) (now low : ℕ)
      → low ≤ now
      → All (λ x. low ≤ x) (connect_until answers now).0
  unfolding connect_until
  connects_from [] now low h = tt
  connects_from (answer ∷ answers) now low h =
      All-turn (λ x. low ≤ x) (answer && not (closed now)) (closed (now + delay)) now
        (connected now answers) (connect_until answers (now + delay)).1
        (connect_until answers (now + delay)).0 h
        (connects_from answers (now + delay) low (omega arith))

  All-and_on :
      (low : ℕ) (r : List ℕ × Ending) (next : List Bool → ℕ → List ℕ)
      → All (λ x. low ≤ x) r.0
      → ((at : ℕ) (rest : List Bool) → r.1 ≡ connected at rest → All (λ x. low ≤ x) (next rest at))
      → All (λ x. low ≤ x) (and_on r next)
  All-and_on low (times, connected at rest) next a b =
      All-append (λ x. low ≤ x) times (next rest at) a (b at rest refl)
  All-and_on low (times, returned) next a b = a
  All-and_on low (times, trying) next a b = a

  -- No connect comes before the handler is free and has slept.
  handle_from :
      (signals : List ℕ) (answers : List Bool) (free low : ℕ)
      → low ≤ free + delay
      → All (λ x. low ≤ x) (handle_reconnect signals answers free)
  unfolding handle_reconnect
  handle_from [] answers free low h = tt
  handle_from (t ∷ signals) answers free low h = elim (Bool-cases (ltb t free)) [
    | inl early ↦ rw early (handle_from signals answers free low h)
    | inr late ↦ elim (Bool-cases (closed t)) [
      | inl shut ↦ rw (late, shut) tt
      | inr open_ ↦
          rw (late, open_)
            (All-and_on low (connect_until answers (t + delay)) (handle_reconnect signals)
              (connects_from answers (t + delay) low (ground (arith, late, h)))
              (λ at rest e.
                let after = ending_lem answers (t + delay) at rest e in
                handle_from signals rest at low (ground (arith, late, h, after))))
    ]
  ]

  received :
      (t : ℕ) (signals : List ℕ) (answers : List Bool) (free : ℕ)
      → free ≤ t
      → closed t ≡ false
      → handle_reconnect (t ∷ signals) answers free
        ≡ and_on (connect_until answers (t + delay)) (handle_reconnect signals)
  unfolding handle_reconnect
  received t signals answers free idle open_ =
      let late : ltb t free ≡ false = ground arith in rw (late, open_) refl

  All-below :
      (low high : ℕ) (ts : List ℕ) → low ≤ high → All (λ e. e < low) ts → All (λ e. e < high) ts
  All-below low high [] h a = tt
  All-below low high (t ∷ ts) h a = (omega (arith, h, a.0), All-below low high ts h a.1)

  and_on_same :
      (early later : List ℕ) (low : ℕ) (r : List ℕ × Ending)
      → All (λ e. e < low) early
      → ((at : ℕ) (rest : List Bool) → r.1 ≡ connected at rest → low ≤ at)
      → and_on r (handle_reconnect (early ++ later)) ≡ and_on r (handle_reconnect later)
  and_on_same early later low (times, connected at rest) asleep after =
      ap (λ l. times ++ l)
        (busy_lem early later rest at (All-below low at early (after at rest refl) asleep))
  and_on_same early later low (times, returned) asleep after = refl
  and_on_same early later low (times, trying) asleep after = refl

  and_on_first :
      (ends closes : Bool) (now : ℕ) (rest : List Bool) (later : Ending) (times : List ℕ)
      (next : List Bool → ℕ → List ℕ)
      → get_elem? (and_on (turn ends closes now (connected now rest) later times) next) 0 ≡ some now
  and_on_first true closes now rest later times next = refl
  and_on_first false true now rest later times next = refl
  and_on_first false false now rest (connected at left) times next = refl
  and_on_first false false now rest returned times next = refl
  and_on_first false false now rest trying times next = refl

  -- When the handler is free for a signal, and the client is not closed at that time: signals that
  -- come within `delay` after it change nothing, so that `Reconnect` does not hasten a reconnect that
  -- waits; the first connect comes `delay` after that signal, each later one of that signal `delay`
  -- after the one before, and none at all comes sooner.
  pub delay_lem :
      (t : ℕ) (early later : List ℕ) (answer : Bool) (answers : List Bool) (free : ℕ)
      → free ≤ t
      → closed t ≡ false
      → All (λ e. e < t + delay) early
      → (handle_reconnect (t ∷ early ++ later) (answer ∷ answers) free
          ≡ handle_reconnect (t ∷ later) (answer ∷ answers) free)
        × (get_elem? (handle_reconnect (t ∷ early ++ later) (answer ∷ answers) free) 0
            ≡ some (t + delay))
        × ((k x : ℕ)
            → get_elem? (connect_until (answer ∷ answers) (t + delay)).0 k ≡ some x
            → x ≡ t + suc k * delay)
        × All (λ x. t + delay ≤ x) (handle_reconnect (t ∷ early ++ later) (answer ∷ answers) free)
  delay_lem t early later answer answers free idle open_ asleep =
      let all = answer ∷ answers in
      let here = received t (early ++ later) all free idle open_ in
      (
        here
            ∙ and_on_same early later (t + delay) (connect_until all (t + delay)) asleep
                (ending_lem all (t + delay))
            ∙ sym (received t later all free idle open_),
        rw here (
            unfold connect_until in
            and_on_first (answer && not (closed (t + delay))) (closed (t + delay + delay))
              (t + delay) answers (connect_until answers (t + delay + delay)).1
              (connect_until answers (t + delay + delay)).0 (handle_reconnect (early ++ later))),
        λ k x h. let e = times_lem all (t + delay) k x h in omega (arith, e),
        rw here (
            All-and_on (t + delay) (connect_until all (t + delay))
              (handle_reconnect (early ++ later))
              (connects_from all (t + delay) (t + delay) (omega arith))
              (λ at rest e.
                let after = ending_lem all (t + delay) at rest e in
                handle_from (early ++ later) rest at (t + delay) (omega (arith, after)))),
      )
