-- ===== src/Jobs/Reported.antt =====
-- The report of a running run's result: what it does to the run's batch.
use mastermind_7dtd_ai_serve.Base.{
  ℕ, leb, if◌then◌else◌, suc, ◌≡◌, refl, ap, ◌∙◌, true, some, List, arith, ◌==◌, is_some, ==_refl,
  ==_iff, find_first_holds, find_first-update_self,
}
use mastermind_7dtd_ai_serve.Base.Int.{pos, ◌-ℤ◌}
use mastermind_7dtd_ai_serve.Base.Result.{ok}
use mastermind_7dtd_ai_serve.Schema.{RunStatus, BatchStatus, JobRun, Job, JobBatch}
use mastermind_7dtd_ai_serve.World.{World, find_run, find_job, find_batch}
use mastermind_7dtd_ai_serve.Batches.{
  batch_of_job, count_completed, finish_batch, record_job_run_completed,
}
use mastermind_7dtd_ai_serve.Batches.Tally.{tally, IsSound}
use mastermind_7dtd_ai_serve.Batches.CounterRows.{
  batch_of_job_lem, finish_batch-id, count_completed-id,
}
use mastermind_7dtd_ai_serve.Jobs.AgentCalls.{
  ReportResult, final_status, completed, report_job_result,
}
use mastermind_7dtd_ai_serve.Jobs.Asides.{told, aside, find_job_aside}
use mastermind_7dtd_ai_serve.Jobs.Soundness.{report_job_result_inv, report_job_result-IsSound}

pub pos-injective : {m n : ℕ} → pos m ≡ pos n → m ≡ n
pos-injective h = ground arith

pub row_id : (i : ℕ) (bs : List JobBatch) {b : JobBatch} → find_batch i bs ≡ some b → b.id ≡ i
row_id i bs {b} e = (==_iff b.id i).0 (find_first_holds (λ (x : JobBatch). x.id == i) bs e)

-- The result of a running run is accepted.
pub report_accepted :
    (w : World) (dto : ReportResult) (now : ℕ) (r : JobRun) (j : Job)
    → find_run r.id w.runs ≡ some r
    → find_job r.job_id w.jobs ≡ some j
    → r.status ≡ RunStatus.running
    → report_job_result w r.host_id r.id dto now
      ≡ ok (completed (told w r.host_id r.id now dto j) r.job_id j (final_status dto.succeeded) now)
unfolding report_job_result
report_accepted w dto now r j found job busy =
    rw (found, report_job_result)
      (rw (job, report_job_result)
        (rw (==_refl r.host_id, report_job_result) (rw (busy, report_job_result) refl)))

-- The row of the run's batch after that. The job may have been read before the state that is written to.
pub reported_row :
    (w : World) (host run : ℕ) (dto : ReportResult) (now i : ℕ) (j j0 : Job) (b : JobBatch)
    → find_job i w.jobs ≡ some j0
    → j0.org_id ≡ j.org_id
    → j0.batch_id ≡ j.batch_id
    → j.batch_id ≡ some b.id
    → find_batch b.id w.batches ≡ some b
    → find_batch b.id
        (completed (told w host run now dto j) i j (final_status dto.succeeded) now).batches
      ≡ some (finish_batch now (count_completed (final_status dto.succeeded) RunStatus.running b))
unfolding completed record_job_run_completed
reported_row w host run dto now i j j0 b job same_org same_batch of_batch row =
    let m = told w host run now dto j in
    let a = aside w host run now dto j in
    let s = final_status dto.succeeded in
    let batched : is_some j.batch_id ≡ true = rw of_batch refl in
    let (j', e, o, q) = find_job_aside i a job in
    let stored : find_batch b.id m.batches ≡ some b = rw a.batches row in
    let known : batch_of_job m j.org_id i ≡ some b =
      batch_of_job_lem m j.org_id i e (o ∙ same_org) ∙ (rw (q ∙ same_batch ∙ of_batch) stored) in
    rw batched (
      rw (known, record_job_run_completed)
        (find_first-update_self (λ (x : JobBatch). x.id)
          (λ x. finish_batch now (count_completed s RunStatus.running x)) b.id m.batches
          (λ x.
            finish_batch-id now (count_completed s RunStatus.running x)
            ∙ count_completed-id s RunStatus.running x)
          stored))

-- What the counters of a batch are after a run of it has ended.
pub counted_down :
    (s : RunStatus) (now n : ℕ) (b : JobBatch)
    → b.pending_count ≡ pos 0
    → b.running_count ≡ pos (suc n)
    → let b1 = finish_batch now (count_completed s RunStatus.running b) in
      (b1.pending_count ≡ pos 0) × (b1.running_count ≡ pos n) × (b1.total_count ≡ b.total_count)
unfolding finish_batch count_completed ◌-ℤ◌
counted_down s now n b hp hr = (ground arith, ground arith, ground arith)

ended :
    (s : RunStatus) (now f : ℕ) (b : JobBatch)
    → b.pending_count ≡ pos 0
    → b.running_count ≡ pos 1
    → (finish_batch now (count_completed s RunStatus.running b)).failed_count ≡ pos f
    → (finish_batch now (count_completed s RunStatus.running b)).status
      ≡ (if leb 1 f then BatchStatus.completed_with_failures else BatchStatus.completed)
unfolding finish_batch count_completed ◌-ℤ◌
ended s now f b hp hr hf = ground arith

-- In a sound state, when the result of a batch's last open run is accepted: the batch, also one that was
-- cancelled, gets the status `completed_with_failures` if a run of it has failed, and `completed` if none has.
pub last_report_ends :
    (w w' : World) (host run now : ℕ) (dto : ReportResult) (r : JobRun) (j : Job) (b : JobBatch)
    → IsSound w
    → find_run run w.runs ≡ some r
    → find_job r.job_id w.jobs ≡ some j
    → j.batch_id ≡ some b.id
    → find_batch b.id w.batches ≡ some b
    → tally w.jobs w.runs b.id RunStatus.pending ≡ 0
    → tally w.jobs w.runs b.id RunStatus.running ≡ 1
    → report_job_result w host run dto now ≡ ok w'
    → (b' : JobBatch) × (find_batch b.id w'.batches ≡ some b')
      × (b'.status ≡ (
          if leb 1 (tally w'.jobs w'.runs b.id RunStatus.failed)
          then BatchStatus.completed_with_failures
          else BatchStatus.completed))
last_report_ends w w' host run now dto r j b s found job of_batch row waiting busy e =
    let (r', j', found', job', host_is, runs, after) =
      report_job_result_inv w w' host run now dto e in
    let same_run : r' ≡ r = cc in
    let same_job : j' ≡ j = cc in
    let status = final_status dto.succeeded in
    let b1 = finish_batch now (count_completed status RunStatus.running b) in
    let row1 : find_batch b.id w'.batches ≡ some b1 =
      rw (after, same_run, same_job)
        (reported_row w host run dto now r.job_id j j b job refl refl of_batch row) in
    let t = s.tallied b.id b row in
    let t1 = (report_job_result-IsSound w w' host run now dto s e).tallied b.id b1 row1 in
    let waits : b.pending_count ≡ pos 0 = t.pending ∙ ap pos waiting in
    let runs_one : b.running_count ≡ pos 1 = t.running ∙ ap pos busy in
    (b1, row1, ended status now _ b waits runs_one (rw (row_id b.id w'.batches row1) at t1.failed))
