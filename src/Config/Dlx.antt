-- ===== src/Config/Dlx.antt =====
-- `WithDLX` of config/queue.go on a heap of shared argument maps.
use rabbitmq_kit_go.Prelude.{
  ℕ, zero, suc, ◌<◌, ◌≡◌, refl, ◌∙◌, ap, ◌≢◌, true, false, String, none, some, [], ◌∷◌, ◌++◌,
  length, length-append, arith, if◌then◌else◌, Bool, sym, Bool-cases, inl, inr,
}
use rabbitmq_kit_go.Prelude.GoMap.{GoMap, lookup, insert, lookup-insert}
use rabbitmq_kit_go.Amqp.{Value, string}
use rabbitmq_kit_go.Config.Topology.{
  Heap, MapRef, read, write, QueueConfig, dead_letter_exchange, dead_letter_routing_key, has_key,
  is_set, ensure_map, with_dlx,
}

-- The reference names a map of the heap, or is nil.
abbrev pub IsRef : MapRef → Heap → Type 0
IsRef none h = Unit
IsRef (some r) h = r < length h

read-write_self :
    (h : Heap) (r : ℕ) (m : GoMap Value) → r < length h → read (write h r m) (some r) ≡ m
read-write_self [] r m l = absurd (omega arith)
read-write_self (x ∷ h) zero m l = refl
read-write_self (x ∷ h) (suc r) m l = read-write_self h r m (omega arith)

read-write_ne :
    (h : Heap) (r k : ℕ) (m : GoMap Value) → r ≢ k → read (write h r m) (some k) ≡ read h (some k)
read-write_ne [] r k m l = refl
read-write_ne (x ∷ h) zero zero m l = absurd (l refl)
read-write_ne (x ∷ h) zero (suc k) m l = refl
read-write_ne (x ∷ h) (suc r) zero m l = refl
read-write_ne (x ∷ h) (suc r) (suc k) m l = read-write_ne h r k m (λ e. l (ap suc e))

read-append_new : (h : Heap) → read (h ++ [] ∷ []) (some (length h)) ≡ []
read-append_new [] = refl
read-append_new (x ∷ h) = read-append_new h

read-append_old : (h : Heap) (k : ℕ) → k < length h → read (h ++ [] ∷ []) (some k) ≡ read h (some k)
read-append_old [] k l = absurd (omega arith)
read-append_old (x ∷ h) zero l = refl
read-append_old (x ∷ h) (suc k) l = read-append_old h k (omega arith)

-- The two arguments as `WithDLX` would write them.
abbrev pub dlx_args : String → String → GoMap Value → GoMap Value
dlx_args dlx_exchange routing_key args =
    if has_key dead_letter_exchange args
    then args
    else insert dead_letter_routing_key (string routing_key)
        (insert dead_letter_exchange (string dlx_exchange) args)

ensure-read :
    (a : MapRef) (h : Heap)
    → IsRef a h
    → read (ensure_map a h).1 (some (ensure_map a h).0) ≡ read h a
ensure-read none h l = read-append_new h
ensure-read (some r) h l = refl

ensure-IsRef : (a : MapRef) (h : Heap) → IsRef a h → (ensure_map a h).0 < length (ensure_map a h).1
ensure-IsRef none h l = omega (arith, length-append h ([] ∷ []))
ensure-IsRef (some r) h l = l

read-write_if :
    (b : Bool) (h : Heap) (r : ℕ) (m : GoMap Value)
    → r < length h
    → read (if b then h else write h r m) (some r) ≡ (if b then read h (some r) else m)
read-write_if true h r m l = refl
read-write_if false h r m l = read-write_self h r m l

-- After `WithDLX` the queue's arguments are those it had, with the exchange and the routing key
-- added unless a dead letter exchange was among them.
pub read-with_dlx :
    (x k : String) (q : QueueConfig) (h : Heap)
    → IsRef q.args h
    → read (with_dlx x k q h).1 (with_dlx x k q h).0.args ≡ dlx_args x k (read h q.args)
unfolding with_dlx
read-with_dlx x k q h l =
    read-write_if _ (ensure_map q.args h).1 (ensure_map q.args h).0 _ (ensure-IsRef q.args h l)
    ∙ ap (dlx_args x k) (ensure-read q.args h l)

dlx_args_old :
    (x k : String) (m : GoMap Value) → has_key dead_letter_exchange m ≡ true → dlx_args x k m ≡ m
dlx_args_old x k m e = rw e

dlx_args_new :
    (x k : String) (m : GoMap Value)
    → has_key dead_letter_exchange m ≡ false
    → dlx_args x k m
      ≡ insert dead_letter_routing_key (string k) (insert dead_letter_exchange (string x) m)
dlx_args_new x k m e = rw e

pub lookup-new_args :
    (x k : String) (m : GoMap Value)
    → lookup dead_letter_exchange
        (insert dead_letter_routing_key (string k) (insert dead_letter_exchange (string x) m))
      ≡ some (string x)
lookup-new_args x k m = simp lookup-insert

has_key-dlx_args :
    (x k : String) (m : GoMap Value) → has_key dead_letter_exchange (dlx_args x k m) ≡ true
has_key-dlx_args x k m = elim (Bool-cases (has_key dead_letter_exchange m)) [
  | inl has ↦ ap (has_key dead_letter_exchange) (dlx_args_old x k m has) ∙ has
  | inr new ↦
      ap (has_key dead_letter_exchange) (dlx_args_new x k m new) ∙ ap is_set (lookup-new_args x k m)
]

with_dlx_done :
    (x k : String) (q : QueueConfig) (h : Heap) (r : ℕ)
    → q.args ≡ some r
    → has_key dead_letter_exchange (read h (some r)) ≡ true
    → with_dlx x k q h ≡ (q, h)
unfolding with_dlx
with_dlx_done x k q h r e has = ground arith

args-with_dlx :
    (x k : String) (q : QueueConfig) (h : Heap)
    → (with_dlx x k q h).0.args ≡ some (ensure_map q.args h).0
unfolding with_dlx
args-with_dlx x k q h = refl

-- `WithDLX` is idempotent: a second call, with whatever names, changes nothing.
pub with_dlx_idem :
    (x k x' k' : String) (q : QueueConfig) (h : Heap)
    → IsRef q.args h
    → with_dlx x' k' (with_dlx x k q h).0 (with_dlx x k q h).1 ≡ with_dlx x k q h
with_dlx_idem x k x' k' q h l =
    let e = args-with_dlx x k q h in
    with_dlx_done x' k' (with_dlx x k q h).0 (with_dlx x k q h).1 (ensure_map q.args h).0 e (
      ap (λ a. has_key dead_letter_exchange (read (with_dlx x k q h).1 a)) (sym e)
      ∙ ap (has_key dead_letter_exchange) (read-with_dlx x k q h l)
      ∙ has_key-dlx_args x k (read h q.args))

-- The map that a queue's own reference names is written, and so is seen by all that share it.
read-with_dlx_shared :
    (x k : String) (a : QueueConfig) (h : Heap) (r : ℕ)
    → a.args ≡ some r
    → r < length h
    → read (with_dlx x k a h).1 (some r) ≡ dlx_args x k (read h (some r))
unfolding with_dlx
read-with_dlx_shared x k a h r e l = rw e (read-write_if _ h r _ l)

-- Two queues that were configured with one map of arguments, without a dead letter exchange: the
-- second is declared with the routing key of the first, so its dead letters go to the first's DLQ.
pub with_dlx_shared :
    (x k1 k2 : String) (a b : QueueConfig) (h : Heap) (r : ℕ)
    → a.args ≡ some r
    → b.args ≡ some r
    → r < length h
    → has_key dead_letter_exchange (read h (some r)) ≡ false
    → let (a', h') = with_dlx x k1 a h in
      let (b', h'') = with_dlx x k2 b h' in
      lookup dead_letter_routing_key (read h'' b'.args) ≡ some (string k1)
with_dlx_shared x k1 k2 a b h r ea eb l n =
    let h' = (with_dlx x k1 a h).1 in
    let m = read-with_dlx_shared x k1 a h r ea l in
    let done =
      with_dlx_done x k2 b h' r eb
        (ap (has_key dead_letter_exchange) m ∙ has_key-dlx_args x k1 (read h (some r))) in
    ap (λ (p : QueueConfig × Heap). lookup dead_letter_routing_key (read p.1 p.0.args)) done
    ∙ ap (λ a. lookup dead_letter_routing_key (read h' a)) eb
    ∙ ap (lookup dead_letter_routing_key) (m ∙ dlx_args_new x k1 (read h (some r)) n)
    ∙ (simp lookup-insert)
