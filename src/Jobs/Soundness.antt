-- ===== src/Jobs/Soundness.antt =====
-- jobs.service.ts: the agent's handlers keep the state sound: counters agree with the runs.
use mastermind_7dtd_ai_serve.Base.{
  ℕ, ◌<◌, ◌≡◌, refl, sym, ◌∙◌, ◌≢◌, Bool, true, false, ◌&&◌, some, arith, ◌==◌, update_where,
  Option-cases, Bool-cases, HasDistinct, HasDistinct-update_where, inl, inr, subst, All,
  All-update_where,
}
use mastermind_7dtd_ai_serve.Base.Result.{ok, or_throw->>=, require->>=, ok-injective}
use mastermind_7dtd_ai_serve.Schema.{RunStatus, is_status, JobRun, Job}
use mastermind_7dtd_ai_serve.World.{World, find_run, find_job}
use mastermind_7dtd_ai_serve.Batches.{record_job_run_completed, record_job_run_started}
use mastermind_7dtd_ai_serve.Batches.Tally.{AllTallied, IsSound}
use mastermind_7dtd_ai_serve.Batches.Counters.{
  record_job_run_unbatched, record_job_run_started-AllTallied, record_job_run_started-KeepsKeys,
  record_job_run_completed-AllTallied, record_job_run_completed-KeepsKeys, KeepsKeys,
}
use mastermind_7dtd_ai_serve.Jobs.{run_not_found, run_of_other_host, run_not_running, job_missing}
use mastermind_7dtd_ai_serve.Jobs.AgentCalls.{
  start_run, started, mark_job_run_started, ReportResult, final_status, finish_run, completed,
  report_job_result,
}
use mastermind_7dtd_ai_serve.Jobs.Asides.{find_job_aside, running_of, told, aside}

-- Soundness carried over a handler: `m` is the state after the run has been moved and its job
-- perhaps redacted, `w'` the state after the counters have followed.
module _ (w m w' : World) (k : ℕ) (f : JobRun → JobRun) (sound : IsSound w)
    (f_id : (r : JobRun) → (f r).id ≡ r.id) (f_job : (r : JobRun) → (f r).job_id ≡ r.job_id)
    (m_runs : m.runs ≡ update_where (λ x. x.id == k) f w.runs) (m_next : m.next_id ≡ w.next_id)
    (m_batches : m.batches ≡ w.batches) (jobs_distinct : HasDistinct (λ (j : Job). j.id) m.jobs)
    (jobs_fresh : All (λ (j : Job). j.id < w.next_id) m.jobs)
    (jobs_batched : All (λ (j : Job). (b : ℕ) → j.batch_id ≡ some b → b < w.next_id) m.jobs)
    (kept : KeepsKeys m w') (tallied : AllTallied w') where
  IsSound-carried : IsSound w'
  IsSound-carried = record {
    keys = record {
      runs_distinct =
          rw (kept.1, m_runs)
            (HasDistinct-update_where (λ (r : JobRun). r.id) _ f w.runs f_id sound.runs_distinct);
      jobs_distinct = rw kept.0 jobs_distinct;
      jobs_fresh = rw (kept.0, kept.2, m_next) jobs_fresh;
      runs_fresh =
          rw (kept.1, kept.2, m_next, m_runs)
            (All-update_where _ _ f w.runs (λ r (p, q). (rw (f_id r) p, rw (f_job r) q))
              sound.runs_fresh);
      batches_fresh = rw kept.2 (kept.3 (rw (m_next, m_batches) sound.batches_fresh));
      jobs_batched = rw (kept.0, kept.2, m_next) jobs_batched;
    };
    tallied = tallied;
  }

pub started_lem :
    (w : World) (i : ℕ) {j : Job}
    → find_job i w.jobs ≡ some j
    → started w i j ≡ record_job_run_started w j.org_id i
unfolding started
started_lem w i {j} e = elim (Option-cases j.batch_id) [
  | inl h ↦
      rw h (
        sym
          (record_job_run_unbatched w j.org_id i 0 RunStatus.success RunStatus.running e refl h).0)
  | inr (b, h) ↦ rw h
]

pub pending_of :
    (b : Bool) (s : RunStatus) → (b && is_status RunStatus.pending s) ≡ true → s ≡ RunStatus.pending
pending_of b s h = ground arith

final_ne : (b : Bool) → (final_status b ≢ RunStatus.pending) × (final_status b ≢ RunStatus.running)
final_ne true = (cc, cc)
final_ne false = (cc, cc)

-- Starting a run keeps the state sound: the counters of its batch follow it.
pub mark_job_run_started-IsSound :
    (w : World) (host run now : ℕ) → IsSound w → IsSound (mark_job_run_started w host run now)
unfolding mark_job_run_started
mark_job_run_started-IsSound w host run now sound = elim (Option-cases (find_run run w.runs)) [
  | inl e ↦ rw (e, mark_job_run_started) sound
  | inr (r, found) ↦ elim (Option-cases (find_job r.job_id w.jobs)) [
    | inl e ↦ rw (found, mark_job_run_started) (rw (e, mark_job_run_started) sound)
    | inr (j, job) ↦
        rw (found, mark_job_run_started)
          (rw (job, mark_job_run_started)
            (elim (Bool-cases (r.host_id == host && is_status RunStatus.pending r.status)) [
              | inl h ↦ rw h (moved r j found job (pending_of (r.host_id == host) r.status h))
              | inr h ↦ rw h sound
            ]))
  ]
]
  where
    m : World
    m = record w { runs = update_where (λ x. x.id == run) (start_run now) w.runs }

    moved :
        (r : JobRun) (j : Job)
        → find_run run w.runs ≡ some r
        → find_job r.job_id w.jobs ≡ some j
        → r.status ≡ RunStatus.pending
        → IsSound (started m r.job_id j)
    moved r j found job h = rw (started_lem m r.job_id job) (
        IsSound-carried w m (record_job_run_started m j.org_id r.job_id) run (start_run now) sound
          (λ r. refl) (λ r. refl) refl refl refl sound.jobs_distinct sound.jobs_fresh
          sound.jobs_batched (record_job_run_started-KeepsKeys m j.org_id r.job_id)
          (record_job_run_started-AllTallied m w.jobs w.runs run j.org_id (start_run now)
            sound.runs_distinct found refl (λ i. refl) refl job refl sound.tallied h refl))

completed_lem :
    (w : World) (i now : ℕ) (s : RunStatus) (j : Job) {j' : Job}
    → find_job i w.jobs ≡ some j'
    → j'.org_id ≡ j.org_id
    → j'.batch_id ≡ j.batch_id
    → completed w i j s now ≡ record_job_run_completed w j.org_id i s RunStatus.running now
unfolding completed
completed_lem w i now s j e o q = elim (Option-cases j.batch_id) [
  | inl h ↦ rw h (sym (record_job_run_unbatched w j.org_id i now s RunStatus.running e o (q ∙ h)).1)
  | inr (b, h) ↦ rw h
]

module _ (w : World) (host run now : ℕ) (dto : ReportResult) (r : JobRun) (j : Job)
    (sound : IsSound w) (found : find_run run w.runs ≡ some r)
    (job : find_job r.job_id w.jobs ≡ some j) (busy : r.status ≡ RunStatus.running) where
  report_moved :
      IsSound (completed (told w host run now dto j) r.job_id j (final_status dto.succeeded) now)
  report_moved =
      let tw = told w host run now dto j in
      let a = aside w host run now dto j in
      let (j', e, o, q) = find_job_aside r.job_id a job in
      let status = final_status dto.succeeded in
      rw (completed_lem tw r.job_id now status j e o q) (
        IsSound-carried w tw
          (record_job_run_completed tw j.org_id r.job_id status RunStatus.running now) run
          (finish_run now dto) sound (λ r. refl) (λ r. refl) a.runs a.next_id a.batches
          (a.distinct sound.jobs_distinct) (a.fresh w.next_id sound.jobs_fresh)
          (a.batched w.next_id sound.jobs_batched)
          (record_job_run_completed-KeepsKeys tw j.org_id r.job_id status RunStatus.running now)
          (record_job_run_completed-AllTallied tw w.jobs w.runs run j.org_id (finish_run now dto)
            sound.runs_distinct found refl a.keys a.runs e o (rw a.batches sound.tallied) status now
            (final_ne dto.succeeded).0 (final_ne dto.succeeded).1 busy refl))

-- What an accepted result says of the run, and the state that it leaves.
pub report_job_result_inv :
    (w w' : World) (host run now : ℕ) (dto : ReportResult)
    → report_job_result w host run dto now ≡ ok w'
    → (r : JobRun) × (j : Job) × (find_run run w.runs ≡ some r)
      × (find_job r.job_id w.jobs ≡ some j)
      × (r.host_id ≡ host)
      × (r.status ≡ RunStatus.running)
      × (w' ≡ completed (told w host run now dto j) r.job_id j (final_status dto.succeeded) now)
unfolding report_job_result
report_job_result_inv w w' host run now dto e =
    let (r, found, e1) = or_throw->>= (find_run run w.runs) run_not_found _ e in
    let (j, job, e2) = or_throw->>= (find_job r.job_id w.jobs) job_missing _ e1 in
    let (same, e3) = require->>= (r.host_id == host) run_of_other_host _ e2 in
    let (busy, e4) = require->>= (is_status RunStatus.running r.status) run_not_running _ e3 in
    (r, j, found, job, ground arith, running_of r.status busy, sym (ok-injective e4))

-- A result that is accepted keeps the state sound: the run's status, the counters of its batch and
-- the batch's own status move together.
pub report_job_result-IsSound :
    (w w' : World) (host run now : ℕ) (dto : ReportResult)
    → IsSound w
    → report_job_result w host run dto now ≡ ok w'
    → IsSound w'
report_job_result-IsSound w w' host run now dto sound e =
    let (r, j, found, job, same, busy, after) = report_job_result_inv w w' host run now dto e in
    subst IsSound (sym after) (report_moved w host run now dto r j sound found job busy)
