-- ===== src/Jobs/Races.antt =====
-- jobs.service.ts reportJobResult: two requests with one result, whose checks both come before their writes.
use mastermind_7dtd_ai_serve.Base.{
  ℕ, suc, ◌+◌, ◌≡◌, refl, sym, ap, subst, ◌∙◌, Bool, false, some, arith, ◌==◌, update_where,
  HasDistinct, HasDistinct-update_where, List, ==_refl, find_first-update_self,
}
use mastermind_7dtd_ai_serve.Base.Int.{pos, ◌+ℤ◌, ◌-ℤ◌}
use mastermind_7dtd_ai_serve.Base.Result.{ok}
use mastermind_7dtd_ai_serve.Schema.{RunStatus, is_status, JobRun, Job, JobBatch}
use mastermind_7dtd_ai_serve.World.{World, find_run, find_job, find_batch}
use mastermind_7dtd_ai_serve.Batches.{count_completed, finish_batch}
use mastermind_7dtd_ai_serve.Batches.Tally.{batch_id_of, tally, tally-move, tally_key, IsSound}
use mastermind_7dtd_ai_serve.Jobs.AgentCalls.{ReportResult, final_status, finish_run}
use mastermind_7dtd_ai_serve.Jobs.Reported.{reported_row, row_id}
use mastermind_7dtd_ai_serve.Jobs.ReportSteps.{
  admit_report, write_report, admit_report_inv, written, job_written,
}

-- One run fewer counts as running after each.
one_less :
    (s : RunStatus) (now : ℕ) (b : JobBatch)
    → (finish_batch now (count_completed s RunStatus.running b)).running_count
      ≡ b.running_count -ℤ pos 1
unfolding finish_batch count_completed
one_less s now b = ground arith

two_less : (m : ℕ) → ((pos (suc m) -ℤ pos 1) -ℤ pos 1) +ℤ pos 1 ≡ pos m
unfolding ◌-ℤ◌ ◌+ℤ◌
two_less m = ground arith

batch_id_found :
    (jobs : List Job) (i : ℕ) {j : Job} → find_job i jobs ≡ some j → batch_id_of jobs i ≡ j.batch_id
unfolding batch_id_of
batch_id_found jobs i e = rw (e, batch_id_of) refl

final_ended : (b : Bool) → is_status RunStatus.running (final_status b) ≡ false
final_ended b = ground arith

-- The runs of the batch after the writes of both.
tally_after :
    (jobs : List Job) (runs : List JobRun) (run i now now' : ℕ) (dto dto' : ReportResult)
    (r : JobRun)
    → HasDistinct (λ (x : JobRun). x.id) runs
    → find_run run runs ≡ some r
    → r.status ≡ RunStatus.running
    → batch_id_of jobs r.job_id ≡ some i
    → let once = update_where (λ x. x.id == run) (finish_run now dto) runs in
      tally jobs (update_where (λ x. x.id == run) (finish_run now' dto') once) i RunStatus.running
        + 1
      ≡ tally jobs runs i RunStatus.running
tally_after jobs runs run i now now' dto dto' r d found busy of_batch =
    let s = RunStatus.running in
    let once = update_where (λ x. x.id == run) (finish_run now dto) runs in
    let found1 : find_run run once ≡ some (finish_run now dto r) =
      find_first-update_self (λ (x : JobRun). x.id) (finish_run now dto) run runs (λ x. refl)
        found in
    let d1 : HasDistinct (λ (x : JobRun). x.id) once =
      HasDistinct-update_where (λ (x : JobRun). x.id) (λ x. x.id == run) (finish_run now dto) runs
        (λ x. refl) d in
    let first =
      tally-move jobs runs i run s s (final_status dto.succeeded) (finish_run now dto) d found busy
        refl refl in
    let second =
      tally-move jobs once i run s (final_status dto.succeeded) (final_status dto'.succeeded)
        (finish_run now' dto') d1 found1 refl refl refl in
    let first' = rw (of_batch, final_ended dto.succeeded, ==_refl i) at first in
    let second' = rw (of_batch, final_ended dto.succeeded, final_ended dto'.succeeded) at second in
    omega (arith, first', second')

-- Two reports of one run, with both checks before the writes of both: in a
-- sound state, when the run belongs to a batch, the batch then counts one run fewer as running than are running.
pub report_race_miscounts :
    (w : World) (host run now now' : ℕ) (dto dto' : ReportResult) (r : JobRun) (j : Job)
    (b : JobBatch)
    → IsSound w
    → admit_report w host run ≡ ok (r, j)
    → j.batch_id ≡ some b.id
    → find_batch b.id w.batches ≡ some b
    → let w2 = write_report host run dto' now' (r, j) (write_report host run dto now (r, j) w) in
      (b2 : JobBatch) × (find_batch b.id w2.batches ≡ some b2)
      × (b2.running_count +ℤ pos 1 ≡ pos (tally w2.jobs w2.runs b.id RunStatus.running))
report_race_miscounts w host run now now' dto dto' r j b sound admitted of_batch row =
    let (found, job, busy) = admit_report_inv w host run r j admitted in
    let w1 = write_report host run dto now (r, j) w in
    let w2 = write_report host run dto' now' (r, j) w1 in
    let b1 = finish_batch now (count_completed (final_status dto.succeeded) RunStatus.running b) in
    let b2 =
      finish_batch now' (count_completed (final_status dto'.succeeded) RunStatus.running b1) in
    let row1 : find_batch b.id w1.batches ≡ some b1 =
      unfold write_report in
      reported_row w host run dto now r.job_id j j b job refl refl of_batch row in
    let same : b1.id ≡ b.id = row_id b.id w1.batches row1 in
    let (j1, job1, o1, q1) = job_written w host run now dto r j job in
    let row2 : find_batch b.id w2.batches ≡ some b2 =
      subst (λ k. find_batch k w2.batches ≡ some b2) same
        (unfold write_report in
          reported_row w1 host run dto' now' r.job_id j j1 b1 job1 o1 q1
            (of_batch ∙ ap some (sym same))
            (subst (λ k. find_batch k w1.batches ≡ some b1) (sym same) row1)) in
    let running = RunStatus.running in
    let k1 = written w host run now dto r j in
    let k2 = written w1 host run now' dto' r j in
    let m = tally w2.jobs w2.runs b.id running in
    let batch_of : batch_id_of w.jobs r.job_id ≡ some b.id =
      batch_id_found w.jobs r.job_id job ∙ of_batch in
    let left : m
        ≡ tally w.jobs
            (update_where (λ x. x.id == run) (finish_run now' dto')
              (update_where (λ x. x.id == run) (finish_run now dto) w.runs))
            b.id running =
      tally_key w.jobs w2.jobs w2.runs b.id running (λ i. k2.1 i ∙ k1.1 i)
      ∙ ap (λ rs. tally w.jobs rs b.id running)
          (k2.0 ∙ ap (update_where (λ (x : JobRun). x.id == run) (finish_run now' dto')) k1.0) in
    let before : tally w.jobs w.runs b.id running ≡ suc m = omega (
      arith,
      left,
      tally_after w.jobs w.runs run b.id now now' dto dto' r sound.runs_distinct found busy
          batch_of,
    ) in
    let counted : b2.running_count ≡ (pos (suc m) -ℤ pos 1) -ℤ pos 1 =
      one_less (final_status dto'.succeeded) now' b1
      ∙ ap (λ z. z -ℤ pos 1)
          (one_less (final_status dto.succeeded) now b
            ∙ ap (λ z. z -ℤ pos 1) ((sound.tallied b.id b row).running ∙ ap pos before)) in
    (b2, row2, ap (λ z. z +ℤ pos 1) counted ∙ two_less m)
