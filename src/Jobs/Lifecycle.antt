-- ===== src/Jobs/Lifecycle.antt =====
-- The handlers of the job services as the steps of one system, and what holds of every history.
use mastermind_7dtd_ai_serve.Base.{ℕ, ◌≡◌, refl, sym, subst, Bool, Option, some}
use mastermind_7dtd_ai_serve.Base.Text.{Text}
use mastermind_7dtd_ai_serve.Base.Result.{ok}
use mastermind_7dtd_ai_serve.Schema.{Fields, JobRun, JobBatch}
use mastermind_7dtd_ai_serve.World.{World, QueueEntry, add_job, find_run}
use mastermind_7dtd_ai_serve.Runs.{
  here, IsFinal, final_stays, RunsAdvance, RunsAdvance-refl, RunsAdvance-trans, RunsAdvance-append,
  RunsAdvance-update,
}
use mastermind_7dtd_ai_serve.Batches.{CreateBatch, create_batch}
use mastermind_7dtd_ai_serve.Batches.Cancellation.{cancel_batch}
use mastermind_7dtd_ai_serve.Batches.Tally.{IsSound}
use mastermind_7dtd_ai_serve.Batches.Create.{create_batch-IsSound}
use mastermind_7dtd_ai_serve.Batches.Cancel.{cancel_batch-IsSound}
use mastermind_7dtd_ai_serve.Queue.{QueueClient}
use mastermind_7dtd_ai_serve.Jobs.{insert_job, create_job}
use mastermind_7dtd_ai_serve.Jobs.AgentCalls.{
  ReportResult, report_job_result, report_job_progress, progress_fields, non_empty, poll,
}
use mastermind_7dtd_ai_serve.Jobs.Create.{create_job_inv, create_job-IsSound}
use mastermind_7dtd_ai_serve.Jobs.Soundness.{
  mark_job_run_started-IsSound, report_job_result-IsSound,
}
use mastermind_7dtd_ai_serve.Jobs.RunMoves.{
  touched-IsSound, mark_job_run_started-RunsAdvance, report_job_result-RunsAdvance, progress_inv,
  poll_cases, requeued,
}

-- One handler of the job services that runs to its end: creating a job or a batch, cancelling a
-- batch, and the calls of the agents. `failStaleRunningJobs` and `HostsService.remove`, which deletes
-- runs, are not among them.
pub data Step (w : World) : World → Type 0 where
  create :
      {w' : World} (org user i : ℕ) (t : Text) (payload : Option Fields) (now : ℕ) (ids : ℕ × ℕ)
      → create_job w org user i t payload now ≡ ok (w', ids)
      → Step w w'
  create_wave :
      {w' : World} (org : ℕ) (user : Option ℕ) (dto : CreateBatch) (now : ℕ) (b : JobBatch)
      → create_batch w org user dto now ≡ ok (w', b)
      → Step w w'
  cancel_wave :
      {w' : World} (removable : QueueEntry → Bool) (org batch now : ℕ) (b : JobBatch)
      → cancel_batch removable w org batch now ≡ ok (w', b)
      → Step w w'
  polled :
      {w' : World} (client : QueueClient) (org host : ℕ) (busy : Bool) (now : ℕ)
      → w' ≡ (poll client w org host busy now).0
      → Step w w'
  progressed :
      {w' : World} (host run : ℕ) (phase : Text) (message : Option Text) (now : ℕ)
      → report_job_progress w host run phase message now ≡ ok w'
      → Step w w'
  reported :
      {w' : World} (host run : ℕ) (dto : ReportResult) (now : ℕ)
      → report_job_result w host run dto now ≡ ok w'
      → Step w w'

pub data Reach (w : World) : World → Type 0 where
  initial : Reach w w
  more : {u v : World} → Reach w u → Step u v → Reach w v

Step-IsSound : {w w' : World} → Step w w' → IsSound w → IsSound w'
Step-IsSound {w} {w'} (create org user i t payload now ids e) s =
    (create_job-IsSound w w' org user i t payload now ids s e).0
Step-IsSound {w} {w'} (create_wave org user dto now b e) s =
    (create_batch-IsSound w w' org user dto now b s e).0
Step-IsSound {w} {w'} (cancel_wave removable org batch now b e) s =
    (cancel_batch-IsSound removable w w' org batch now b s e).0
Step-IsSound {w} {w'} (polled client org host busy now e) s = subst IsSound (sym e) (
    poll_cases IsSound client w org host now busy (requeued w s) (λ q run.
      mark_job_run_started-IsSound (record w { queue = q }) host run now (requeued w s q)))
Step-IsSound {w} {w'} (progressed host run phase message now e) s =
    let (r, found, busy, after) = progress_inv w w' host run now phase message e in
    subst IsSound (sym after) (
      touched-IsSound w run
        (λ x. record x { result = some (progress_fields phase (non_empty message) now) }) r s found
        (λ x. refl) (λ x. refl) refl)
Step-IsSound {w} {w'} (reported host run dto now e) s =
    report_job_result-IsSound w w' host run now dto s e

pub Reach-IsSound : {w w' : World} → Reach w w' → IsSound w → IsSound w'
Reach-IsSound initial s = s
Reach-IsSound (more h e) s = Step-IsSound e (Reach-IsSound h s)

Step-RunsAdvance : {w w' : World} → Step w w' → IsSound w → RunsAdvance w.runs w'.runs
Step-RunsAdvance {w} {w'} (create org user i t payload now ids e) s =
    let c = (create_job_inv w w' org user i t payload now ids e).0 in
    rw c.after (unfold insert_job add_job in RunsAdvance-append w.runs _)
Step-RunsAdvance {w} {w'} (create_wave org user dto now b e) s =
    (create_batch-IsSound w w' org user dto now b s e).3
Step-RunsAdvance {w} {w'} (cancel_wave removable org batch now b e) s =
    (cancel_batch-IsSound removable w w' org batch now b s e).1
Step-RunsAdvance {w} {w'} (polled client org host busy now e) s =
    subst (λ (v : World). RunsAdvance w.runs v.runs) (sym e)
      (poll_cases (λ (v : World). RunsAdvance w.runs v.runs) client w org host now busy
        (λ q. RunsAdvance-refl w.runs)
        (λ q run. mark_job_run_started-RunsAdvance (record w { queue = q }) host run now))
Step-RunsAdvance {w} {w'} (progressed host run phase message now e) s =
    let (r, found, busy, after) = progress_inv w w' host run now phase message e in
    rw after (
      RunsAdvance-update run
        (λ x. record x { result = some (progress_fields phase (non_empty message) now) }) w.runs r
        (λ x. refl) found here refl refl)
Step-RunsAdvance {w} {w'} (reported host run dto now e) s =
    report_job_result-RunsAdvance w w' host run now dto e

-- Over any history of the handlers of `Step`, which leaves out the sweep of stale runs and the
-- deletion of hosts (and with them their runs), from a sound state a run only goes from pending to running to success
-- or failed, or from pending to cancelled, and it is never lost nor given to another job or host.
pub Reach-RunsAdvance : {w w' : World} → Reach w w' → IsSound w → RunsAdvance w.runs w'.runs
Reach-RunsAdvance {w} initial s = RunsAdvance-refl w.runs
Reach-RunsAdvance {w} {w'} (more {u} h e) s =
    RunsAdvance-trans w.runs u.runs w'.runs (Reach-RunsAdvance h s)
      (Step-RunsAdvance e (Reach-IsSound h s))

-- In a sound state, a run that has ended keeps its status over any history of the handlers of `Step`,
-- which leaves out the sweep of stale runs and the deletion of hosts (and with them their runs), whatever the
-- agents report and the users ask later.
pub final_run_stays :
    (w w' : World) (i : ℕ) (r : JobRun)
    → Reach w w'
    → IsSound w
    → find_run i w.runs ≡ some r
    → IsFinal r.status
    → (r' : JobRun) × (find_run i w'.runs ≡ some r') × (r'.status ≡ r.status)
final_run_stays w w' i r h s e f =
    let (r', found, moved, _, _) = Reach-RunsAdvance h s i r e in (r', found, final_stays moved f)
