-- ===== src/CircuitBreaker/Trail.antt =====
-- The calls of `OnStateChange` against the history of the state.
use rabbitmq_kit_go.Prelude.{◌≡◌, ◌⊎◌, Bool, true, false, List, [], ◌∷◌, ◌++◌}
use rabbitmq_kit_go.CircuitBreaker.{State, closed, open_, half_open, CircuitBreaker}

-- The changes that the breaker may make: the three of the pattern, the relapse, and the manual
-- reset of an open breaker.
pub data Edge : State → State → Type 0 where
  trip : Edge closed open_
  probe : Edge open_ half_open
  recover : Edge half_open closed
  relapse : Edge half_open open_
  manual : Edge open_ closed

-- The notified changes lead from `closed` to the state, each from where the last one ended.
pub data Trail : List (State × State) → State → Type 0 where
  start : Trail [] closed
  next :
      {l : List (State × State)} {s t : State} → Trail l s → Edge s t → Trail (l ++ (s, t) ∷ []) t

abbrev is_edge : State → State → Bool
is_edge closed open_ = true
is_edge open_ half_open = true
is_edge half_open closed = true
is_edge half_open open_ = true
is_edge open_ closed = true
is_edge _ _ = false

-- One call adds no notice and keeps the state, or adds the one notice of its edge.
abbrev Moved : CircuitBreaker → CircuitBreaker → Type 0
Moved a b =
    ((b.changes ≡ a.changes) × (b.state ≡ a.state))
    ⊎ ((is_edge a.state b.state ≡ true) × (b.changes ≡ a.changes ++ (a.state, b.state) ∷ []))
