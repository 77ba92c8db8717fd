-- ===== src/Broker/Publisher/Channels.antt =====
-- Go's channels as the publisher uses them, and its map from delivery tags to result channels.
use rabbitmq_kit_go.Prelude.{
  ◌≡◌, refl, set_at, ℕ, Bool, true, false, Option, none, some, List, [], ◌∷◌, get_elem?,
  if◌then◌else◌, ◌==◌,
}

-- What a piece of code does: it goes on, it panics, or it waits for ever.
pub data Go {ℓ} (A : Type ℓ) : Type ℓ where
  ok : A → Go A
  panic : Go A
  blocked : Go A

abbrev pub and_then {ℓ κ} : {A : Type ℓ} {B : Type κ} → Go A → (A → Go B) → Go B
and_then (ok a) f = f a
and_then panic f = panic
and_then blocked f = blocked

pub and_then_assoc :
    {A B C : Type 0} (a : Go A) (f : A → Go B) (g : B → Go C)
    → and_then (and_then a f) g ≡ and_then a (λ x. and_then (f x) g)
and_then_assoc (ok x) f g = refl
and_then_assoc panic f g = refl
and_then_assoc blocked f g = refl

-- A channel of capacity 1, with the value in its buffer.
pub data Result : Type 0 where
  open_ : Option Bool → Result
  closed : Option Bool → Result

-- results[chan] <- ack. A nil channel blocks.
unfoldable pub send : ℕ → Bool → List Result → Go (List Result)
send chan ack results = elim (get_elem? results chan) [
  | some (open_ none) ↦ ok (set_at chan (open_ (some ack)) results)
  | some (open_ (some b)) ↦ blocked
  | some (closed b) ↦ panic
  | none ↦ blocked
]

-- close(results[chan])
unfoldable pub close_result : ℕ → List Result → Go (List Result)
close_result chan results = elim (get_elem? results chan) [
  | some (open_ value) ↦ ok (set_at chan (closed value) results)
  | some (closed b) ↦ panic
  | none ↦ panic
]

-- close(dones[i])
unfoldable pub close_done : ℕ → List Bool → Go (List Bool)
close_done i dones = elim (get_elem? dones i) [
  | some false ↦ ok (set_at i true dones)
  | some true ↦ panic
  | none ↦ panic
]

-- v, ok := pending[tag]
unfoldable pub find : ℕ → List (ℕ × ℕ) → Option ℕ
find tag [] = none
find tag ((t, chan) ∷ pending) = if t == tag then some chan else find tag pending

-- delete(pending, tag)
unfoldable pub remove : ℕ → List (ℕ × ℕ) → List (ℕ × ℕ)
remove tag [] = []
remove tag ((t, chan) ∷ pending) =
    let rest = remove tag pending in if t == tag then rest else (t, chan) ∷ rest

-- for _, chan := range pending { close(chan) }
unfoldable pub close_all : List (ℕ × ℕ) → List Result → Go (List Result)
unfolding close_result
close_all [] results = ok results
close_all ((tag, chan) ∷ pending) results = and_then (close_result chan results) (close_all pending)
