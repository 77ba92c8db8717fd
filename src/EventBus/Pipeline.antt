-- ===== src/EventBus/Pipeline.antt =====
-- The accounts of a pipelined batch.
use rabbitmq_kit_go.Prelude.{ℕ, ◌+◌, ◌≡◌, refl, ◌∙◌, false, not, List, [], ◌∷◌, length, arith}
use rabbitmq_kit_go.Errors.{Error, nil, is_nil}
use rabbitmq_kit_go.EventBus.{
  Event, Ids, Outside, BatchResult, account, serialize, tally, publish_batch_pipeline,
}
use rabbitmq_kit_go.EventBus.Batch.{
  unserialized, Accounts, account_sum, account_errors, and_false, serialize_sum,
}

pub tally_step :
    (i : ℕ) (err : Error) (errs : List Error) (ids : Ids) (e : Event) (es : List (Ids × Event))
    (r : BatchResult)
    → tally false i (err ∷ errs) ((ids, e) ∷ es) r ≡ tally false (i + 1) errs es (account i e err r)
unfolding tally
tally_step i err errs ids e es r = rw (and_false (not (is_nil err)))

tally-Accounts :
    (i : ℕ) (errs : List Error) (es : List (Ids × Event)) (r : BatchResult)
    → length errs ≡ length es
    → length r.errors ≡ r.failed
    → Accounts (length es) r (tally false i errs es r).0 × ((tally false i errs es r).1 ≡ nil)
tally-Accounts i [] [] r n h =
    (unfold tally in record { sum = omega arith; total = refl; errors = h }, unfold tally in refl)
tally-Accounts i [] (e ∷ es) r n h = absurd (omega arith)
tally-Accounts i (err ∷ errs) [] r n h = absurd (omega arith)
tally-Accounts i (err ∷ errs) ((ids, e) ∷ es) r n h =
    let (sum', total') = account_sum i e err r in
    let (rest, done) =
      tally-Accounts (i + 1) errs es (account i e err r) (omega arith)
        (account_errors i e err r h) in
    rw (tally_step i err errs ids e es r) (
      record {
        sum = omega (arith, rest.sum, sum');
        total = rest.total ∙ total';
        errors = rest.errors;
      },
      done,
    )

-- The result that a batch starts from.
abbrev pub empty_result : List (Ids × Event) → BatchResult
empty_result es = record { total = length es; success = 0; failed = 0; errors = [] }

-- Without fail-fast and without a fatal error, with one error for each message: the pipelined
-- batch counts an event that could not be serialized twice, once as failed and once for the empty
-- message that was published in its place, so the counts add up to the total only if every event
-- was serialized.
pub pipeline_accounts :
    {S : Type 0} (o : Outside S) (es : List (Ids × Event)) (s : S)
    → (o.publish_pipeline (serialize o false 0 es (empty_result es)).0.0 s).0.1 ≡ nil
    → length (o.publish_pipeline (serialize o false 0 es (empty_result es)).0.0 s).0.0 ≡ length es
    → let ((r, err), s') = publish_batch_pipeline o false es (empty_result es) s in
      (r.success + r.failed ≡ r.total + unserialized o es)
      × (r.total ≡ length es)
      × (length r.errors ≡ r.failed)
      × (err ≡ nil)
unfolding publish_batch_pipeline
pipeline_accounts o es s fatal n =
    let (success', failed', total', listed, size, done) =
      serialize_sum o 0 es (empty_result es) refl in
    let sent = (o.publish_pipeline (serialize o false 0 es (empty_result es)).0.0 s).0.0 in
    let (a, ended) =
      tally-Accounts 0 sent es (serialize o false 0 es (empty_result es)).1 n listed in
    rw (done, fatal)
      (omega (arith, a.sum, a.total, success', failed', total'), a.total ∙ total', a.errors, ended)
