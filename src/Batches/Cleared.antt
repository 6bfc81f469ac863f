-- ===== src/Batches/Cleared.antt =====
-- batches.service.ts `cancelBatch`: no run of the batch stays pending.
use mastermind_7dtd_ai_serve.Base.{
  ℕ, ◌+◌, ◌≡◌, ◌∙◌, subst, ◌≢◌, Bool, false, ◌&&◌, List, arith, ◌==◌, found_is, find_first, select,
  All-map, All-found, HasDistinct,
}
use mastermind_7dtd_ai_serve.Base.Result.{ok, or_throw->>=, require->>=, ok-injective}
use mastermind_7dtd_ai_serve.Schema.{RunStatus, JobRun, Job, JobBatch}
use mastermind_7dtd_ai_serve.World.{World, QueueEntry}
use mastermind_7dtd_ai_serve.Runs.{RunsAdvance}
use mastermind_7dtd_ai_serve.Batches.{audit, emit_progress, batch_not_found, batch_not_running}
use mastermind_7dtd_ai_serve.Batches.Cancellation.{is_running, cancel_batch}
use mastermind_7dtd_ai_serve.Batches.Tally.{tally, IsSound}
use mastermind_7dtd_ai_serve.Batches.CancelLoop.{IsCancelled}
use mastermind_7dtd_ai_serve.Batches.Cancel.{looped, cancel_batch-IsSound}
use mastermind_7dtd_ai_serve.Batches.Clearing.{
  latest_run_only, AreLatest, cancel_jobs_done, tally_none,
}

-- The runs of the batch that were pending are cancelled; its other tallies stay.
abbrev pub CancelsPending : World → World → ℕ → Type 0
CancelsPending w w' batch =
    (tally w.jobs w'.runs batch RunStatus.pending ≡ 0)
    × (tally w.jobs w'.runs batch RunStatus.cancelled
        ≡ tally w.jobs w.runs batch RunStatus.cancelled
          + tally w.jobs w.runs batch RunStatus.pending)
    × (tally w.jobs w'.runs batch RunStatus.running ≡ tally w.jobs w.runs batch RunStatus.running)
    × (tally w.jobs w'.runs batch RunStatus.success ≡ tally w.jobs w.runs batch RunStatus.success)
    × (tally w.jobs w'.runs batch RunStatus.failed ≡ tally w.jobs w.runs batch RunStatus.failed)

abbrev pub KeepsTallies : World → World → ℕ → Type 0
KeepsTallies w w' batch =
    (s : RunStatus) → tally w.jobs w'.runs batch s ≡ tally w.jobs w.runs batch s

-- In a sound state in which a job has one run at most, as the services make them, cancelling a batch
-- keeps the state sound, lets runs only advance, and cancels all pending runs of the batch: none of
-- them stays pending, and the running and finished ones stay as many. The runs of any other batch stay
-- as many in each status.
pub cancel_batch_pending :
    (removable : QueueEntry → Bool) (w w' : World) (org batch other now : ℕ) (b : JobBatch)
    → IsSound w
    → HasDistinct (λ (r : JobRun). r.job_id) w.runs
    → other ≢ batch
    → cancel_batch removable w org batch now ≡ ok (w', b)
    → IsSound w' × RunsAdvance w.runs w'.runs × CancelsPending w w' batch × KeepsTallies w w' other
unfolding cancel_batch audit emit_progress
cancel_batch_pending removable w w' org batch other now b sound single apart e =
    let (kept, advance, (n, pending, cancelled, running, success, failed)) =
      cancel_batch-IsSound removable w w' org batch now b sound e in
    let (b0, found, e1) =
      or_throw->>= (find_first (λ (x : JobBatch). x.id == batch && x.org_id == org) w.batches)
        batch_not_found _ e in
    let (_, e2) = require->>= (is_running b0.status) batch_not_running _ e1 in
    let members = select (λ (j : Job). found_is j.batch_id batch) w.jobs in
    let cleared =
      tally_none w.jobs batch _
        (cancel_jobs_done removable org now w.runs members w (latest_at w.runs single)) in
    let done : tally w.jobs w'.runs batch RunStatus.pending ≡ 0 =
      subst (λ (q : World × JobBatch). tally w.jobs q.0.runs batch RunStatus.pending ≡ 0)
        (ok-injective e2) cleared in
    let distinct : (batch == other) ≡ false = ground arith in
    let c = rw distinct at (looped removable w org batch now sound other).0 in
    (
      kept,
      advance,
      (done, omega (arith, done, pending, cancelled), running, success, failed),
      subst (λ (q : World × JobBatch). KeepsTallies w q.0 other) (ok-injective e2) (same c),
    )
  where
    same :
        {runs' : List JobRun}
        → IsCancelled w.jobs other 0 w.runs runs'
        → (s : RunStatus) → tally w.jobs runs' other s ≡ tally w.jobs w.runs other s
    same c RunStatus.pending = omega (arith, c.pending)
    same c RunStatus.running = c.running
    same c RunStatus.success = c.success
    same c RunStatus.failed = c.failed
    same c RunStatus.cancelled = omega (arith, c.cancelled)

    latest_at :
        (runs : List JobRun)
        → HasDistinct (λ (r : JobRun). r.job_id) runs
        → AreLatest removable org now runs runs
    latest_at runs d =
        All-map (λ r f pending. latest_run_only r.job_id runs d ∙ f) runs
          (All-found (λ (r : JobRun). r.job_id) runs d)
