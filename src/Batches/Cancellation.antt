-- ===== src/Batches/Cancellation.antt =====
-- control-plane/src/batches/batches.service.ts: cancelBatch.
use mastermind_7dtd_ai_serve.Base.{
  ℕ, suc, Bool, true, false, not, ◌&&◌, Option, none, some, List, [], ◌∷◌, ◌==◌, ltb, if◌then◌else◌,
  found_is, find_first, update_where, select,
}
use mastermind_7dtd_ai_serve.Base.Int.{pos, ◌+ℤ◌, ◌-ℤ◌}
use mastermind_7dtd_ai_serve.Base.Result.{Result, ok, ◌>>=◌, ◌>>◌, require, or_throw}
use mastermind_7dtd_ai_serve.Schema.{RunStatus, is_status, JobRun, Job, BatchStatus, JobBatch}
use mastermind_7dtd_ai_serve.World.{QueueEntry, Action, World}
use mastermind_7dtd_ai_serve.Batches.{
  BatchError, audit, emit_progress, batch_not_found, batch_not_running,
}

-- `jobRuns: { orderBy: { createdAt: 'desc' }, take: 1 }`; of runs created at one instant, the first.
unfoldable pub latest_run : ℕ → List JobRun → Option JobRun
latest_run job [] = none
latest_run job (r ∷ rs) =
    let rest = latest_run job rs in
    if r.job_id == job
    then elim rest [
      | none ↦ some r
      | some best ↦ if ltb r.created_at best.created_at then some best else some r
    ]
    else rest

abbrev pub cancel_run : ℕ → JobRun → JobRun
cancel_run now r = record r { status = RunStatus.cancelled; finished_at = some now }

-- `bullJob.remove()`; a job that a worker holds stays, which the environment decides.
abbrev pub remove_entry : (QueueEntry → Bool) → ℕ → ℕ → List QueueEntry → List QueueEntry
remove_entry removable org run =
    select (λ e. not (e.org_id == org && e.contents.job_run_id == run && removable e))

-- The loop of `cancelBatch`. `seen` is what the query has read before the loop began.
unfoldable pub cancel_jobs :
    (QueueEntry → Bool) → ℕ → ℕ → List JobRun → List Job → World → World × ℕ
cancel_jobs removable org now seen [] w = (w, 0)
cancel_jobs removable org now seen (j ∷ js) w = elim (latest_run j.id seen) [
  | none ↦ cancel_jobs removable org now seen js w
  | some r ↦ elim (is_status RunStatus.pending r.status) [
    | false ↦ cancel_jobs removable org now seen js w
    | true ↦
        let (w', n) = cancel_jobs removable org now seen js (record w {
          runs = update_where (λ x. x.id == r.id) (cancel_run now) w.runs;
          queue = remove_entry removable org r.id w.queue;
        }) in
        (w', suc n)
  ]
]

abbrev pub is_running : BatchStatus → Bool
is_running BatchStatus.running = true
is_running _ = false

unfoldable pub count_cancelled : ℕ → ℕ → JobBatch → JobBatch
count_cancelled now n b = record b {
  status = BatchStatus.cancelled;
  pending_count = b.pending_count -ℤ pos n;
  cancelled_count = b.cancelled_count +ℤ pos n;
  completed_at = some now;
}

unfoldable pub cancel_batch :
    (QueueEntry → Bool) → World → ℕ → ℕ → ℕ → Result BatchError (World × JobBatch)
unfolding cancel_jobs count_cancelled audit emit_progress
cancel_batch removable w org batch now = do
  b ← or_throw (find_first (λ x. x.id == batch && x.org_id == org) w.batches) batch_not_found
  require (is_running b.status) batch_not_running
  let (w', n) =
      cancel_jobs removable org now w.runs (select (λ j. found_is j.batch_id batch) w.jobs) w
  let updated = count_cancelled now n b
  ok (
    emit_progress org updated none (
        audit org none (Action.batch_cancelled (b.pending_count -ℤ pos n) n) batch (record w' {
          batches = update_where (λ x. x.id == batch) (count_cancelled now n) w'.batches;
        })),
    updated,
  )
