-- ===== src/Broker/Client/Blocked.antt =====
-- internal/broker/client.go: the goroutine of `connect` that watches for alarms of the broker, and the
-- goroutines that it starts for the callbacks of the user.
use rabbitmq_kit_go.Prelude.{
  ◌≡◌, refl, ap, ◌∙◌, Bool-cases, inl, inr, Bool, true, String, Option, none, some, List, [], ◌∷◌,
  ◌++◌, if◌then◌else◌,
}
use rabbitmq_kit_go.Config.{Config}

-- amqp.Blocking
pub record Blocking : Type 0 where
  pub active : Bool
  pub reason : String

-- What the goroutine does: it writes a log line, with a reason where it has one, or starts a
-- goroutine for a callback.
pub data Effect : Type 0 where
  warns : (msg reason : String) → Effect
  informs : (msg : String) → Effect
  starts_blocked : (reason : String) → Effect
  starts_unblocked : Effect

-- One notification.
unfoldable pub notify : Config → Blocking → List Effect
notify c b =
    if b.active
    then warns "RabbitMQ connection blocked by broker" b.reason
      ∷ (if c.has_on_connection_blocked then starts_blocked b.reason ∷ [] else [])
    else informs "RabbitMQ connection unblocked"
      ∷ (if c.has_on_connection_unblocked then starts_unblocked ∷ [] else [])

-- The loop, until the channel of notifications is closed.
unfoldable pub watch_blocked : Config → List Blocking → List Effect
unfolding notify
watch_blocked c [] = []
watch_blocked c (b ∷ bs) = notify c b ++ watch_blocked c bs

-- A goroutine of a callback, on the user's state: `callback` gives the value of a panic, if any.
-- What is recovered goes to a log line.
unfoldable pub run_callback :
    {S V : Type 0} (name : String) (callback : S → Option V × S) → S → List (String × V) × S
run_callback name callback s =
    let (panicked, s') = callback s in (elim panicked [ none ↦ [] | some v ↦ (name, v) ∷ [] ], s')

-- The callbacks among the effects, and what they are told: the reason, or none for the end of an
-- alarm.
abbrev pub told : List Effect → List (Option String)
told [] = []
told (warns msg reason ∷ es) = told es
told (informs msg ∷ es) = told es
told (starts_blocked reason ∷ es) = some reason ∷ told es
told (starts_unblocked ∷ es) = none ∷ told es

abbrev pub alarms : List Blocking → List (Option String)
alarms [] = []
alarms (b ∷ bs) = (if b.active then some b.reason else none) ∷ alarms bs

told-append : (xs ys : List Effect) → told (xs ++ ys) ≡ told xs ++ told ys
told-append [] ys = refl
told-append (warns msg reason ∷ xs) ys = told-append xs ys
told-append (informs msg ∷ xs) ys = told-append xs ys
told-append (starts_blocked reason ∷ xs) ys = ap (λ l. some reason ∷ l) (told-append xs ys)
told-append (starts_unblocked ∷ xs) ys = ap (λ l. none ∷ l) (told-append xs ys)

told-notify :
    (c : Config) (b : Blocking)
    → c.has_on_connection_blocked ≡ true
    → c.has_on_connection_unblocked ≡ true
    → told (notify c b) ≡ (if b.active then some b.reason else none) ∷ []
unfolding notify
told-notify c b on off = elim (Bool-cases b.active) [
  | inl alarm ↦ rw (alarm, on) refl
  | inr over ↦ rw (over, off) refl
]

-- When both callbacks are set, they are started for every notification, in its order.
pub told-watch_blocked :
    (c : Config) (bs : List Blocking)
    → c.has_on_connection_blocked ≡ true
    → c.has_on_connection_unblocked ≡ true
    → told (watch_blocked c bs) ≡ alarms bs
unfolding watch_blocked
told-watch_blocked c [] on off = refl
told-watch_blocked c (b ∷ bs) on off =
    told-append (notify c b) (watch_blocked c bs)
    ∙ rw (told-notify c b on off, told-watch_blocked c bs on off) refl
