-- ===== src/EventBus/Batch.antt =====
-- The accounts of a batch.
use rabbitmq_kit_go.Prelude.{
  ℕ, suc, ◌+◌, ◌≡◌, refl, ◌∙◌, ap, Bool, false, not, ◌&&◌, List, [], ◌∷◌, length, length-append,
  arith, if◌then◌else◌,
}
use rabbitmq_kit_go.Errors.{Error, nil, is_nil}
use rabbitmq_kit_go.EventBus.{
  Event, Ids, Outside, BatchResult, add_failure, account, create_default_publishing, publish,
  publish_sequential, serialize, publish_batch_sequential,
}

-- The events of the batch that `json.Marshal` refuses.
unfoldable pub unserialized : {S : Type 0} → Outside S → List (Ids × Event) → ℕ
unserialized o [] = 0
unserialized o ((ids, event) ∷ events) =
    (if is_nil (create_default_publishing o.marshal ids event).0 then 0 else 1)
    + unserialized o events

pub account_sum :
    (i : ℕ) (e : Event) (err : Error) (r : BatchResult)
    → ((account i e err r).success + (account i e err r).failed ≡ r.success + r.failed + 1)
      × ((account i e err r).total ≡ r.total)
account_sum i e err r = ground arith

pub account_errors :
    (i : ℕ) (e : Event) (err : Error) (r : BatchResult)
    → length r.errors ≡ r.failed
    → length (account i e err r).errors ≡ (account i e err r).failed
account_errors i e err r h =
    ground (arith, length-append r.errors ((record { index = i; event = e; error = err }) ∷ []))

pub and_false : (b : Bool) → (b && false) ≡ false
and_false b = ground arith

-- The counts of a result: all that a loop adds is `n` events, none lost and none twice.
pub record Accounts (n : ℕ) (r r' : BatchResult) : Type 0 where
  pub sum : r'.success + r'.failed ≡ r.success + r.failed + n
  pub total : r'.total ≡ r.total
  pub errors : length r'.errors ≡ r'.failed

module _ {S : Type 0} (o : Outside S) where
  pub sequential_step :
      (i : ℕ) (ids : Ids) (e : Event) (es : List (Ids × Event)) (r : BatchResult) (s : S)
      → publish_sequential o false i ((ids, e) ∷ es) r s
        ≡ publish_sequential o false
            (i + 1)
            es
            (account i e (publish o ids e s).0 r)
            (publish o ids e s).1
  unfolding publish_sequential
  sequential_step i ids e es r s = rw (and_false (not (is_nil (publish o ids e s).0)))

  pub sequential-Accounts :
      (i : ℕ) (es : List (Ids × Event)) (r : BatchResult) (s : S)
      → length r.errors ≡ r.failed
      → Accounts (length es) r (publish_sequential o false i es r s).0.0
        × ((publish_sequential o false i es r s).0.1 ≡ nil)
  sequential-Accounts i [] r s h = (
    unfold publish_sequential in record { sum = omega arith; total = refl; errors = h },
    unfold publish_sequential in refl,
  )
  sequential-Accounts i ((ids, e) ∷ es) r s h =
      let err = (publish o ids e s).0 in
      let (sum', total') = account_sum i e err r in
      let (rest, done) =
        sequential-Accounts (i + 1) es (account i e err r) (publish o ids e s).1
          (account_errors i e err r h) in
      rw (sequential_step i ids e es r s) (
        record {
          sum = omega (arith, rest.sum, sum');
          total = rest.total ∙ total';
          errors = rest.errors;
        },
        done,
      )

  -- Without fail-fast, a sequential batch attempts every event and accounts for each once: the
  -- successes and the failures add up to the total, each failure has its entry, and no error is
  -- returned.
  pub sequential_accounts :
      (es : List (Ids × Event)) (s : S)
      → let result : BatchResult = record {
        total = length es;
        success = 0;
        failed = 0;
        errors = [];
      } in
        let ((r, err), s') = publish_batch_sequential o false es result s in
        (r.success + r.failed ≡ r.total)
        × (r.total ≡ length es)
        × (length r.errors ≡ r.failed)
        × (err ≡ nil)
  unfolding publish_batch_sequential
  sequential_accounts es s =
      let result : BatchResult = record {
        total = length es;
        success = 0;
        failed = 0;
        errors = [];
      } in
      let (a, done) = sequential-Accounts 0 es result s refl in
      (omega (arith, a.sum, a.total), a.total, a.errors, done)

  serialize_step :
      (i : ℕ) (ids : Ids) (e : Event) (es : List (Ids × Event)) (r : BatchResult)
      → let err = (create_default_publishing o.marshal ids e).0 in
        let rest = serialize o false (i + 1) es (if is_nil err then r else add_failure i e err r) in
        ((serialize o false i ((ids, e) ∷ es) r).1 ≡ rest.1)
        × ((serialize o false i ((ids, e) ∷ es) r).0.1 ≡ rest.0.1)
        × (length (serialize o false i ((ids, e) ∷ es) r).0.0 ≡ suc (length rest.0.0))
  unfolding serialize
  serialize_step i ids e es r =
      let b = and_false (not (is_nil (create_default_publishing o.marshal ids e).0)) in
      (rw b, rw b, rw b)

  pub serialize_sum :
      (i : ℕ) (es : List (Ids × Event)) (r : BatchResult)
      → length r.errors ≡ r.failed
      → let ((ms, early), r') = serialize o false i es r in
        (r'.success ≡ r.success)
        × (r'.failed ≡ r.failed + unserialized o es)
        × (r'.total ≡ r.total)
        × (length r'.errors ≡ r'.failed)
        × (length ms ≡ length es)
        × (early ≡ nil)
  serialize_sum i [] r h = unfold serialize unserialized in (refl, omega arith, refl, h, refl, refl)
  serialize_sum i ((ids, e) ∷ es) r h =
      let err = (create_default_publishing o.marshal ids e).0 in
      let next : BatchResult = (if is_nil err then r else add_failure i e err r) in
      let (counted, kept, same, listed) = refused i e err r h in
      let (s, f, t, n, m, done) = serialize_sum (i + 1) es next listed in
      let (result', early', size') = serialize_step i ids e es r in
      (
        ap (λ (x : BatchResult). x.success) result' ∙ s ∙ kept,
        ap (λ (x : BatchResult). x.failed) result' ∙ f ∙ sum_of ids e es r next counted,
        ap (λ (x : BatchResult). x.total) result' ∙ t ∙ same,
        rw result' n,
        size' ∙ ap suc m,
        early' ∙ done,
      )
    where
      refused :
          (i : ℕ) (e : Event) (err : Error) (r : BatchResult)
          → length r.errors ≡ r.failed
          → let next : BatchResult = (if is_nil err then r else add_failure i e err r) in
            (next.failed ≡ r.failed + (if is_nil err then 0 else 1))
            × (next.success ≡ r.success)
            × (next.total ≡ r.total)
            × (length next.errors ≡ next.failed)
      refused i e err r h =
          ground
            (arith, length-append r.errors ((record { index = i; event = e; error = err }) ∷ []))

      sum_of :
          (ids : Ids) (e : Event) (es : List (Ids × Event)) (r next : BatchResult)
          → next.failed
            ≡ r.failed + (if is_nil (create_default_publishing o.marshal ids e).0 then 0 else 1)
          → next.failed + unserialized o es ≡ r.failed + unserialized o ((ids, e) ∷ es)
      sum_of ids e es r next h = unfold unserialized in omega arith
