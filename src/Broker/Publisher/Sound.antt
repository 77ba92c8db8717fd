-- ===== src/Broker/Publisher/Sound.antt =====
-- The result channels of the messages that wait, and the map from tags to them.
use rabbitmq_kit_go.Prelude.{
  get_elem?-set_at, get_elem?-append, set_at, ℕ, ◌≡◌, sym, ◌∙◌, Bool, true, false, Option, none,
  some, List, [], ◌∷◌, ◌++◌, length, get_elem?, All, if◌then◌else◌, ◌==◌, arith,
}
use rabbitmq_kit_go.Broker.Publisher.Channels.{Result, open_, find, remove}

-- No entry of `pending` has this result channel.
abbrev pub Unused : ℕ → List (ℕ × ℕ) → Type 0
Unused chan pending = All (λ e. (e.1 == chan) ≡ false) pending

-- The result channels of `pending` are open and empty, and no two are the same.
unfoldable pub Waiting : List (ℕ × ℕ) → List Result → Type 0
Waiting [] results = Unit
Waiting ((tag, chan) ∷ pending) results =
    (get_elem? results chan ≡ some (open_ none)) × Unused chan pending × Waiting pending results

pub Waiting-set_at :
    (chan : ℕ) (r : Result) (pending : List (ℕ × ℕ)) (results : List Result)
    → Unused chan pending
    → Waiting pending results
    → Waiting pending (set_at chan r results)
unfolding Waiting
Waiting-set_at chan r [] results u w = tt
Waiting-set_at chan r ((tag, c) ∷ pending) results u w = (
  get_elem?-set_at chan c r results u.0 ∙ w.0,
  w.1,
  Waiting-set_at chan r pending results u.1 w.2,
)

pub Waiting-append :
    (pending : List (ℕ × ℕ)) (results : List Result)
    → Waiting pending results
    → Waiting pending (results ++ open_ none ∷ []) × Unused (length results) pending
unfolding Waiting
Waiting-append [] results w = (tt, tt)
Waiting-append ((tag, c) ∷ pending) results w =
    let (same, below) = get_elem?-append c (open_ none) (open_ none) results w.0 in
    let (rest, unused) = Waiting-append pending results w.2 in
    ((same, w.1, rest), (ground arith, unused))

Unused-skip :
    (skip : Bool) (tag chan c : ℕ) (rest : List (ℕ × ℕ))
    → (c == chan) ≡ false
    → Unused chan rest
    → Unused chan (if skip then rest else (tag, c) ∷ rest)
Unused-skip true tag chan c rest h u = u
Unused-skip false tag chan c rest h u = (h, u)

Unused-remove :
    (tag chan : ℕ) (pending : List (ℕ × ℕ)) → Unused chan pending → Unused chan (remove tag pending)
unfolding remove
Unused-remove tag chan [] u = tt
Unused-remove tag chan ((t, c) ∷ pending) u =
    Unused-skip (t == tag) t chan c (remove tag pending) u.0 (Unused-remove tag chan pending u.1)

Waiting-skip :
    (skip : Bool) (tag chan : ℕ) (rest : List (ℕ × ℕ)) (results : List Result)
    → get_elem? results chan ≡ some (open_ none)
    → Unused chan rest
    → Waiting rest results
    → Waiting (if skip then rest else (tag, chan) ∷ rest) results
unfolding Waiting
Waiting-skip true tag chan rest results h u w = w
Waiting-skip false tag chan rest results h u w = (h, u, w)

pub Waiting-remove :
    (tag : ℕ) (pending : List (ℕ × ℕ)) (results : List Result)
    → Waiting pending results
    → Waiting (remove tag pending) results
unfolding remove Waiting
Waiting-remove tag [] results w = tt
Waiting-remove tag ((t, c) ∷ pending) results w =
    Waiting-skip (t == tag) t c (remove tag pending) results w.0 (Unused-remove tag c pending w.1)
      (Waiting-remove tag pending results w.2)

some_skip :
    (skip : Bool) (c d chan : ℕ) (o : Option ℕ)
    → (if skip then some c else o) ≡ some chan
    → (c == d) ≡ false
    → (o ≡ some chan → (chan == d) ≡ false)
    → (chan == d) ≡ false
some_skip true c d chan o h apart rest = ground arith
some_skip false c d chan o h apart rest = rest h

found_apart :
    (tag c chan : ℕ) (pending : List (ℕ × ℕ))
    → Unused c pending
    → find tag pending ≡ some chan
    → (chan == c) ≡ false
unfolding find
found_apart tag c chan [] u h = absurd (ground arith)
found_apart tag c chan ((t, d) ∷ pending) u h =
    some_skip (t == tag) d c chan (find tag pending) h u.0 (found_apart tag c chan pending u.1)

found_skip :
    (skip : Bool) (tag c chan : ℕ) (rest : List (ℕ × ℕ)) (results : List Result) (o : Option ℕ)
    → get_elem? results c ≡ some (open_ none)
    → Unused c rest
    → (o ≡ some chan → (get_elem? results chan ≡ some (open_ none)) × Unused chan rest)
    → (o ≡ some chan → (chan == c) ≡ false)
    → (if skip then some c else o) ≡ some chan
    → (get_elem? results chan ≡ some (open_ none))
      × Unused chan (if skip then rest else (tag, c) ∷ rest)
found_skip true tag c chan rest results o w u later apart h =
    let same : c ≡ chan = ground arith in rw (sym same) (w, u)
found_skip false tag c chan rest results o w u later apart h =
    ((later h).0, (ground (arith, apart h), (later h).1))

-- What `find` finds is open and empty, and in no other entry.
pub found_lem :
    (tag chan : ℕ) (pending : List (ℕ × ℕ)) (results : List Result)
    → Waiting pending results
    → find tag pending ≡ some chan
    → (get_elem? results chan ≡ some (open_ none)) × Unused chan (remove tag pending)
unfolding find Waiting remove
found_lem tag chan [] results w h = absurd (ground arith)
found_lem tag chan ((t, c) ∷ pending) results w h =
    found_skip (t == tag) t c chan (remove tag pending) results (find tag pending) w.0
      (Unused-remove tag c pending w.1) (found_lem tag chan pending results w.2)
      (found_apart tag c chan pending w.1) h
