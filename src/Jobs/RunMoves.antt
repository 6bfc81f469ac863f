-- ===== src/Jobs/RunMoves.antt =====
-- jobs.service.ts and the poll of agent-jobs.controller.ts: how a handler moves the runs.
use mastermind_7dtd_ai_serve.Base.{
  ℕ, ◌≡◌, refl, sym, ◌∙◌, Bool, true, false, ◌&&◌, Option, some, List, arith, ◌==◌, is_some,
  update_where, Bool-cases, Option-cases, inl, inr, All-update_where, HasDistinct-update_where,
}
use mastermind_7dtd_ai_serve.Base.Text.{Text}
use mastermind_7dtd_ai_serve.Base.Result.{ok, or_throw->>=, require->>=, ok-injective}
use mastermind_7dtd_ai_serve.Schema.{RunStatus, is_status, JobRun, Job}
use mastermind_7dtd_ai_serve.World.{World, QueueEntry, find_run, find_job}
use mastermind_7dtd_ai_serve.Runs.{
  ◌⟶*◌, here, next, start, succeed, fail, RunsAdvance, RunsAdvance-refl, RunsAdvance-update,
}
use mastermind_7dtd_ai_serve.Batches.Tally.{HasKeys-same, IsSound, tally, tally-move}
use mastermind_7dtd_ai_serve.Batches.Counters.{
  record_job_run_started-KeepsKeys, record_job_run_completed-KeepsKeys,
}
use mastermind_7dtd_ai_serve.Queue.{QueueClient, get_next_job_for_host}
use mastermind_7dtd_ai_serve.Jobs.{run_not_found, run_of_other_host, run_not_running}
use mastermind_7dtd_ai_serve.Jobs.AgentCalls.{
  start_run, mark_job_run_started, started, ReportResult, finish_run, final_status, completed,
  report_job_result, report_job_progress, progress_fields, non_empty, poll,
}
use mastermind_7dtd_ai_serve.Jobs.Soundness.{started_lem, pending_of, report_job_result_inv}
use mastermind_7dtd_ai_serve.Jobs.Asides.{aside, told, running_of}

pub mark_job_run_started-RunsAdvance :
    (w : World) (host run now : ℕ) → RunsAdvance w.runs (mark_job_run_started w host run now).runs
unfolding mark_job_run_started
mark_job_run_started-RunsAdvance w host run now = elim (Option-cases (find_run run w.runs)) [
  | inl e ↦ rw (e, mark_job_run_started) (RunsAdvance-refl w.runs)
  | inr (r, found) ↦ elim (Option-cases (find_job r.job_id w.jobs)) [
    | inl e ↦
        rw (found, mark_job_run_started) (rw (e, mark_job_run_started) (RunsAdvance-refl w.runs))
    | inr (j, job) ↦
        rw (found, mark_job_run_started)
          (rw (job, mark_job_run_started)
            (elim (Bool-cases (r.host_id == host && is_status RunStatus.pending r.status)) [
              | inl h ↦ rw h (moved r j found job (pending_of (r.host_id == host) r.status h))
              | inr h ↦ rw h (RunsAdvance-refl w.runs)
            ]))
  ]
]
  where
    m : World
    m = record w { runs = update_where (λ x. x.id == run) (start_run now) w.runs }

    moved :
        (r : JobRun) (j : Job)
        → find_run run w.runs ≡ some r
        → find_job r.job_id w.jobs ≡ some j
        → r.status ≡ RunStatus.pending
        → RunsAdvance w.runs (started m r.job_id j).runs
    moved r j found job h =
        rw (started_lem m r.job_id job, (record_job_run_started-KeepsKeys m j.org_id r.job_id).1)
          (RunsAdvance-update run (start_run now) w.runs r (λ x. refl) found
            (rw h (next start here)) refl refl)

completed-runs :
    (w : World) (i now : ℕ) (s : RunStatus) (j : Job) → (completed w i j s now).runs ≡ w.runs
unfolding completed
completed-runs w i now s j = elim (Bool-cases (is_some j.batch_id)) [
  | inl t ↦ rw t (record_job_run_completed-KeepsKeys w j.org_id i s RunStatus.running now).1
  | inr g ↦ rw g
]

pub ended : (b : Bool) → RunStatus.running ⟶* final_status b
ended true = next succeed here
ended false = next fail here

pub report_job_result-RunsAdvance :
    (w w' : World) (host run now : ℕ) (dto : ReportResult)
    → report_job_result w host run dto now ≡ ok w'
    → RunsAdvance w.runs w'.runs
report_job_result-RunsAdvance w w' host run now dto e =
    let (r, j, found, job, same, busy, after) = report_job_result_inv w w' host run now dto e in
    let moved =
      completed-runs (told w host run now dto j) r.job_id now (final_status dto.succeeded) j
      ∙ (aside w host run now dto j).runs in
    rw (after, moved)
      (RunsAdvance-update run (finish_run now dto) w.runs r (λ x. refl) found
        (rw busy (ended dto.succeeded)) refl refl)

pub progress_inv :
    (w w' : World) (host run now : ℕ) (phase : Text) (message : Option Text)
    → report_job_progress w host run phase message now ≡ ok w'
    → (r : JobRun) × (find_run run w.runs ≡ some r)
      × (r.status ≡ RunStatus.running)
      × (w' ≡ record w {
        runs =
            update_where
              (λ x. x.id == run)
              (λ x. record x { result = some (progress_fields phase (non_empty message) now) })
              w.runs;
      })
unfolding report_job_progress
progress_inv w w' host run now phase message e =
    let (r, found, e1) = or_throw->>= (find_run run w.runs) run_not_found _ e in
    let (same, e2) = require->>= (r.host_id == host) run_of_other_host _ e1 in
    let (busy, e3) = require->>= (is_status RunStatus.running r.status) run_not_running _ e2 in
    (r, found, running_of r.status busy, sym (ok-injective e3))

-- A change of one run that keeps its status and job keeps the state sound.
module _ (w : World) (k : ℕ) (f : JobRun → JobRun) (r : JobRun) (sound : IsSound w)
    (found : find_run k w.runs ≡ some r) (f_id : (x : JobRun) → (f x).id ≡ x.id)
    (f_job : (x : JobRun) → (f x).job_id ≡ x.job_id) (f_status : (f r).status ≡ r.status) where
  abbrev touched : World
  touched = record w { runs = update_where (λ x. x.id == k) f w.runs }

  tally_touched :
      (b : ℕ) (s : RunStatus) → tally touched.jobs touched.runs b s ≡ tally w.jobs w.runs b s
  tally_touched b s = omega (
    arith,
    tally-move w.jobs w.runs b k s r.status r.status f sound.runs_distinct found refl f_status
        (f_job r),
  )

  pub touched-IsSound : IsSound touched
  touched-IsSound = record {
    keys = record {
      runs_distinct =
          HasDistinct-update_where (λ (x : JobRun). x.id) _ f w.runs f_id sound.runs_distinct;
      jobs_distinct = sound.jobs_distinct;
      jobs_fresh = sound.jobs_fresh;
      runs_fresh =
          All-update_where _ _ f w.runs (λ x (p, q). (rw (f_id x) p, rw (f_job x) q))
            sound.runs_fresh;
      batches_fresh = sound.batches_fresh;
      jobs_batched = sound.jobs_batched;
    };
    tallied = λ i b e.
        let old = sound.tallied i b e in
        record {
          pending = rw (tally_touched b.id RunStatus.pending) old.pending;
          running = rw (tally_touched b.id RunStatus.running) old.running;
          success = rw (tally_touched b.id RunStatus.success) old.success;
          failed = rw (tally_touched b.id RunStatus.failed) old.failed;
          cancelled = rw (tally_touched b.id RunStatus.cancelled) old.cancelled;
        };
  }

-- What one poll does besides the queue.
pub poll_cases {ℓ} :
    (P : World → Type ℓ) (client : QueueClient) (w : World) (org host now : ℕ) (busy : Bool)
    → ((q : List QueueEntry) → P (record w { queue = q }))
    → ((q : List QueueEntry) (run : ℕ)
        → P (mark_job_run_started (record w { queue = q }) host run now))
    → P (poll client w org host busy now).0
unfolding poll
poll_cases P client w org host now busy idle claimed =
    elim (Option-cases (get_next_job_for_host client w.queue org host busy).0) [
      | inl e ↦ rw (e, poll) (idle (get_next_job_for_host client w.queue org host busy).1)
      | inr (job, e) ↦
          rw (e, poll)
            (claimed (get_next_job_for_host client w.queue org host busy).1 job.job_run_id)
    ]

pub requeued : (w : World) → IsSound w → (q : List QueueEntry) → IsSound (record w { queue = q })
requeued w s q = record {
  keys = HasKeys-same w (record w { queue = q }) refl refl refl refl s.keys;
  tallied = s.tallied;
}
