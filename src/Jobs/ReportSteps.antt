-- ===== src/Jobs/ReportSteps.antt =====
-- jobs.service.ts reportJobResult: its check and its writes as two steps, between which other requests run.
use mastermind_7dtd_ai_serve.Base.{
  ℕ, ◌≡◌, refl, sym, ap, ◌∙◌, inl, inr, some, arith, ◌==◌, Bool-cases, Option-cases, is_some,
  update_where,
}
use mastermind_7dtd_ai_serve.Base.Result.{
  Result, ok, ◌>>=◌, ◌>>◌, require, or_throw, or_throw->>=, require->>=, ok-injective,
}
use mastermind_7dtd_ai_serve.Schema.{RunStatus, is_status, JobRun, Job}
use mastermind_7dtd_ai_serve.World.{World, find_run, find_job}
use mastermind_7dtd_ai_serve.Batches.Tally.{job_key}
use mastermind_7dtd_ai_serve.Batches.Counters.{record_job_run_completed-KeepsKeys}
use mastermind_7dtd_ai_serve.Jobs.{
  JobError, run_not_found, job_missing, run_of_other_host, run_not_running,
}
use mastermind_7dtd_ai_serve.Jobs.AgentCalls.{
  ReportResult, final_status, finish_run, completed, report_job_result,
}
use mastermind_7dtd_ai_serve.Jobs.Asides.{told, aside, running_of}

-- The run and its job, as they are read, where the result is accepted.
unfoldable pub admit_report : World → ℕ → ℕ → Result JobError (JobRun × Job)
admit_report w host run = do
  r ← or_throw (find_run run w.runs) run_not_found
  j ← or_throw (find_job r.job_id w.jobs) job_missing
  require (r.host_id == host) run_of_other_host
  require (is_status RunStatus.running r.status) run_not_running
  ok (r, j)

-- What is written after that, by the job that was read.
unfoldable pub write_report : ℕ → ℕ → ReportResult → ℕ → JobRun × Job → World → World
write_report host run dto now (r, j) w =
    completed (told w host run now dto j) r.job_id j (final_status dto.succeeded) now

-- The handler is its check and its writes.
report_job_result_lem :
    (w : World) (host run now : ℕ) (dto : ReportResult)
    → report_job_result w host run dto now
      ≡ (admit_report w host run >>= λ read. ok (write_report host run dto now read w))
unfolding report_job_result admit_report write_report
report_job_result_lem w host run now dto = elim (Option-cases (find_run run w.runs)) [
  | inl e ↦ rw (e, report_job_result, admit_report) refl
  | inr (r, e) ↦ elim (Option-cases (find_job r.job_id w.jobs)) [
    | inl f ↦ rw (e, f, report_job_result, admit_report) refl
    | inr (j, f) ↦ elim (Bool-cases (r.host_id == host)) [
      | inr g ↦ rw (e, f, g, report_job_result, admit_report) refl
      | inl g ↦ elim (Bool-cases (is_status RunStatus.running r.status)) [
        | inr k ↦ rw (e, f, g, k, report_job_result, admit_report) refl
        | inl k ↦ rw (e, f, g, k, report_job_result, admit_report) refl
      ]
    ]
  ]
]

pub admit_report_inv :
    (w : World) (host run : ℕ) (r : JobRun) (j : Job)
    → admit_report w host run ≡ ok (r, j)
    → (find_run run w.runs ≡ some r)
      × (find_job r.job_id w.jobs ≡ some j)
      × (r.status ≡ RunStatus.running)
unfolding admit_report
admit_report_inv w host run r j e =
    let (r1, found, e1) = or_throw->>= (find_run run w.runs) run_not_found _ e in
    let (j1, job, e2) = or_throw->>= (find_job r1.job_id w.jobs) job_missing _ e1 in
    let (same, e3) = require->>= (r1.host_id == host) run_of_other_host _ e2 in
    let (busy, e4) = require->>= (is_status RunStatus.running r1.status) run_not_running _ e3 in
    let pair = ok-injective e4 in
    let same_run : r1 ≡ r = ap (λ q. q.0) pair in
    let same_job : j1 ≡ j = ap (λ q. q.1) pair in
    let status : r1.status ≡ RunStatus.running = running_of r1.status busy in
    (
      found ∙ ap some same_run,
      ap (λ (x : JobRun). find_job x.job_id w.jobs) (sym same_run) ∙ job ∙ ap some same_job,
      ap (λ (x : JobRun). x.status) (sym same_run) ∙ status,
    )

-- What the writes do to the tables of runs and jobs.
pub written :
    (w : World) (host run now : ℕ) (dto : ReportResult) (r : JobRun) (j : Job)
    → let w1 = write_report host run dto now (r, j) w in
      (w1.runs ≡ update_where (λ x. x.id == run) (finish_run now dto) w.runs)
      × ((i : ℕ) → job_key w1.jobs i ≡ job_key w.jobs i)
unfolding write_report completed
written w host run now dto r j =
    let m = told w host run now dto j in
    let a = aside w host run now dto j in
    let s = final_status dto.succeeded in
    elim (Bool-cases (is_some j.batch_id)) [
      | inr g ↦ rw g (a.runs, a.keys)
      | inl t ↦
          let k = record_job_run_completed-KeepsKeys m j.org_id r.job_id s RunStatus.running now in
          rw t (k.1 ∙ a.runs, λ i. ap (λ js. job_key js i) k.0 ∙ a.keys i)
    ]

pub job_written :
    (w : World) (host run now : ℕ) (dto : ReportResult) (r : JobRun) (j : Job)
    → find_job r.job_id w.jobs ≡ some j
    → (j1 : Job) × (find_job r.job_id (write_report host run dto now (r, j) w).jobs ≡ some j1)
      × (j1.org_id ≡ j.org_id)
      × (j1.batch_id ≡ j.batch_id)
unfolding job_key
job_written w host run now dto r j job =
    let w1 = write_report host run dto now (r, j) w in
    let key = (written w host run now dto r j).1 r.job_id in
    elim (Option-cases (find_job r.job_id w1.jobs)) [
      | inl h ↦ cc
      | inr (j1, h) ↦ (j1, h, ground arith, ground arith)
    ]
