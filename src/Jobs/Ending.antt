-- ===== src/Jobs/Ending.antt =====
-- The handlers of the job services as the steps of one system: no batch is left running without open runs.
use mastermind_7dtd_ai_serve.Base.{
  ℕ, ◌≡◌, refl, sym, subst, ◌&&◌, inl, inr, ◌==◌, Bool-cases, Option-cases, is_some, length,
}
use mastermind_7dtd_ai_serve.Base.Result.{ok}
use mastermind_7dtd_ai_serve.Schema.{RunStatus, is_status, Job}
use mastermind_7dtd_ai_serve.World.{World, find_run, find_job}
use mastermind_7dtd_ai_serve.Batches.{instances_in}
use mastermind_7dtd_ai_serve.Batches.Tally.{tally, IsSound}
use mastermind_7dtd_ai_serve.Batches.Create.{create_batch-batches}
use mastermind_7dtd_ai_serve.Batches.Ending.{
  NoneHangs, new_batch_live, appended-NoneHangs, cancel_batch-NoneHangs,
  record_job_run_started-NoneHangs, record_job_run_completed-NoneHangs,
}
use mastermind_7dtd_ai_serve.Jobs.AgentCalls.{
  started, mark_job_run_started, ReportResult, final_status, completed, report_job_result,
}
use mastermind_7dtd_ai_serve.Jobs.Asides.{told, aside}
use mastermind_7dtd_ai_serve.Jobs.Create.{create_job-IsSound}
use mastermind_7dtd_ai_serve.Jobs.Soundness.{report_job_result_inv}
use mastermind_7dtd_ai_serve.Jobs.RunMoves.{progress_inv, poll_cases, requeued}
use mastermind_7dtd_ai_serve.Jobs.Lifecycle.{
  Step, create, create_wave, cancel_wave, polled, progressed, reported, Reach, initial, more,
  Reach-IsSound,
}

started-NoneHangs :
    (w m : World) (i : ℕ) (j : Job)
    → IsSound w
    → NoneHangs w
    → m.batches ≡ w.batches
    → NoneHangs (started m i j)
unfolding started
started-NoneHangs w m i j s quiet same =
    let quiet_m : NoneHangs m = rw same quiet in
    elim (Bool-cases (is_some j.batch_id)) [
      | inr g ↦ rw g quiet_m
      | inl t ↦ rw t (
          record_job_run_started-NoneHangs m j.org_id i quiet_m (λ k b e.
            (tally w.jobs w.runs b.id RunStatus.running, (s.tallied k b (rw same at e)).running)))
    ]

mark_job_run_started-NoneHangs :
    (w : World) (host run now : ℕ)
    → IsSound w
    → NoneHangs w
    → NoneHangs (mark_job_run_started w host run now)
unfolding mark_job_run_started
mark_job_run_started-NoneHangs w host run now s quiet = elim (Option-cases (find_run run w.runs)) [
  | inl e ↦ rw (e, mark_job_run_started) quiet
  | inr (r, found) ↦ elim (Option-cases (find_job r.job_id w.jobs)) [
    | inl e ↦ rw (found, mark_job_run_started) (rw (e, mark_job_run_started) quiet)
    | inr (j, job) ↦
        rw (found, mark_job_run_started)
          (rw (job, mark_job_run_started)
            (elim (Bool-cases (r.host_id == host && is_status RunStatus.pending r.status)) [
              | inl h ↦ rw h (started-NoneHangs w _ r.job_id j s quiet refl)
              | inr h ↦ rw h quiet
            ]))
  ]
]

pub report_job_result-NoneHangs :
    (w w' : World) (host run now : ℕ) (dto : ReportResult)
    → NoneHangs w
    → report_job_result w host run dto now ≡ ok w'
    → NoneHangs w'
unfolding completed
report_job_result-NoneHangs w w' host run now dto quiet e =
    let (r, j, found, job, same, busy, after) = report_job_result_inv w w' host run now dto e in
    let m = told w host run now dto j in
    let quiet_m : NoneHangs m = rw (aside w host run now dto j).batches quiet in
    subst NoneHangs (sym after) (elim (Bool-cases (is_some j.batch_id)) [
      | inr g ↦ rw g quiet_m
      | inl t ↦ rw t (
          record_job_run_completed-NoneHangs m j.org_id r.job_id quiet_m
            (final_status dto.succeeded) RunStatus.running now)
    ])

Step-NoneHangs : {w w' : World} → Step w w' → IsSound w → NoneHangs w → NoneHangs w'
Step-NoneHangs {w} {w'} (create org user i t payload now ids e) s quiet =
    rw (create_job-IsSound w w' org user i t payload now ids s e).1 quiet
Step-NoneHangs {w} {w'} (create_wave org user dto now b e) s quiet =
    let (table, row) = create_batch-batches w w' org user dto now b s e in
    rw table (
      appended-NoneHangs b w quiet (
        rw row
          (new_batch_live w org user dto.type (length (instances_in w org dto.instance_ids)) now)))
Step-NoneHangs {w} {w'} (cancel_wave removable org batch now b e) s quiet =
    cancel_batch-NoneHangs removable w w' org batch now b quiet e
Step-NoneHangs {w} {w'} (polled client org host busy now e) s quiet = subst NoneHangs (sym e) (
    poll_cases NoneHangs client w org host now busy (λ q. quiet)
      (λ q run.
        mark_job_run_started-NoneHangs (record w { queue = q }) host run now (requeued w s q)
          quiet))
Step-NoneHangs {w} {w'} (progressed host run phase message now e) s quiet =
    let (r, found, busy, after) = progress_inv w w' host run now phase message e in
    subst NoneHangs (sym after) quiet
Step-NoneHangs {w} {w'} (reported host run dto now e) s quiet =
    report_job_result-NoneHangs w w' host run now dto quiet e

pub Reach-NoneHangs : {w w' : World} → Reach w w' → IsSound w → NoneHangs w → NoneHangs w'
Reach-NoneHangs initial s quiet = quiet
Reach-NoneHangs (more h e) s quiet =
    Step-NoneHangs e (Reach-IsSound h s) (Reach-NoneHangs h s quiet)
