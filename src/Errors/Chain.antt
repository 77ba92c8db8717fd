-- ===== src/Errors/Chain.antt =====
-- An error and what it wraps.
use rabbitmq_kit_go.Prelude.{◌≡◌, refl, ◌↔◌, true, false, arith}
use rabbitmq_kit_go.Errors.{
  Sentinel, Error, nil, sentinel, config_error, connection_error, publish_error, consume_error,
  topology_error, handler_error, expected_retry_error, foreign, is_nil, unwrap, is,
  is_expected_retry, sentinel_eq,
}

-- `Wraps e x`: `x` is `e`, or an error that `Unwrap` reaches from `e` through errors that are
-- not nil.
pub data Wraps : Error → Error → Type 0 where
  itself : {e : Error} → Wraps e e
  deeper : {e x : Error} → is_nil e ≡ false → Wraps (unwrap e) x → Wraps e x

sentinel_eq→eq : (s t : Sentinel) → sentinel_eq s t ≡ true → s ≡ t
sentinel_eq→eq s t h = ground arith

sentinel_eq_refl : (t : Sentinel) → sentinel_eq t t ≡ true
sentinel_eq_refl t = ground arith

is_to : (e : Error) (t : Sentinel) → is e t ≡ true → Wraps e (sentinel t)
unfolding is unwrap
is_to nil t h = cc
is_to (sentinel s) t h = rw (sentinel_eq→eq s t h) itself
is_to (config_error a b) t h = cc
is_to (connection_error a c) t h = deeper refl (is_to c t h)
is_to (publish_error a b c) t h = deeper refl (is_to c t h)
is_to (consume_error a c) t h = deeper refl (is_to c t h)
is_to (topology_error a b c) t h = deeper refl (is_to c t h)
is_to (handler_error a b c) t h = deeper refl (is_to c t h)
is_to (expected_retry_error c) t h = deeper refl (is_to c t h)
is_to (foreign a c) t h = deeper refl (is_to c t h)

is-unwrap : (e : Error) (t : Sentinel) → is (unwrap e) t ≡ true → is e t ≡ true
unfolding is unwrap
is-unwrap nil t h = h
is-unwrap (sentinel s) t h = cc
is-unwrap (config_error a b) t h = cc
is-unwrap _ t h = h

is_from : {e x : Error} (t : Sentinel) → x ≡ sentinel t → Wraps e x → is e t ≡ true
is_from t q itself = rw q (unfold is in sentinel_eq_refl t)
is_from {e} t q (deeper h w) = is-unwrap e t (is_from t q w)

-- `errors.Is` with a sentinel holds exactly when the error is the sentinel or wraps it, at any
-- depth and behind any of the library's error types.
pub is_iff_Wraps : (e : Error) (t : Sentinel) → (is e t ≡ true) ↔ Wraps e (sentinel t)
is_iff_Wraps e t = (is_to e t, is_from t refl)

-- The error is marked, or wraps a marked one.
abbrev pub Marked : Error → Type 0
Marked e = (c : Error) × Wraps e (expected_retry_error c)

Marked-deeper : (e : Error) → is_nil e ≡ false → Marked (unwrap e) → Marked e
Marked-deeper e h (c, w) = (c, deeper h w)

expected_to : (e : Error) → is_expected_retry e ≡ true → Marked e
unfolding is_expected_retry unwrap
expected_to nil h = cc
expected_to (sentinel s) h = cc
expected_to (config_error a b) h = cc
expected_to (connection_error a c) h = Marked-deeper (connection_error a c) refl (expected_to c h)
expected_to (publish_error a b c) h = Marked-deeper (publish_error a b c) refl (expected_to c h)
expected_to (consume_error a c) h = Marked-deeper (consume_error a c) refl (expected_to c h)
expected_to (topology_error a b c) h = Marked-deeper (topology_error a b c) refl (expected_to c h)
expected_to (handler_error a b c) h = Marked-deeper (handler_error a b c) refl (expected_to c h)
expected_to (expected_retry_error c) h = (c, itself)
expected_to (foreign a c) h = Marked-deeper (foreign a c) refl (expected_to c h)

expected-unwrap : (e : Error) → is_expected_retry (unwrap e) ≡ true → is_expected_retry e ≡ true
unfolding is_expected_retry unwrap
expected-unwrap nil h = h
expected-unwrap (sentinel s) h = cc
expected-unwrap (config_error a b) h = cc
expected-unwrap (expected_retry_error c) h = refl
expected-unwrap _ h = h

expected_from :
    {e x : Error} (c : Error) → x ≡ expected_retry_error c → Wraps e x → is_expected_retry e ≡ true
expected_from c q itself = rw q (unfold is_expected_retry in refl)
expected_from {e} c q (deeper h w) = expected-unwrap e (expected_from c q w)

-- `IsExpectedRetry` holds exactly when the error is marked, or wraps a marked error at any depth.
pub is_expected_retry_iff_Marked : (e : Error) → (is_expected_retry e ≡ true) ↔ Marked e
is_expected_retry_iff_Marked e = (expected_to e, λ m. expected_from m.0 refl m.1)
