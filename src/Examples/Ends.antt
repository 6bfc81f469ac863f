-- ===== src/Examples/Ends.antt =====
-- The end of the batch's runs: a report, the cancellation of the rest, a stale run; and single jobs.
use mastermind_7dtd_ai_serve.Base.{
  HasDistinct, arith, ℕ, ◌⊎◌, ◌≡◌, refl, ◌<◌, true, false, none, some, find_first, select,
  update_where, any, or_default,
}
use mastermind_7dtd_ai_serve.Base.Int.{pos}
use mastermind_7dtd_ai_serve.Base.Text.{lit, text_eq}
use mastermind_7dtd_ai_serve.Base.Result.{ok}
use mastermind_7dtd_ai_serve.Schema.{get_field, RunStatus, JobRun, JobBatch}
use mastermind_7dtd_ai_serve.World.{World, add_entry, find_run, find_batch}
use mastermind_7dtd_ai_serve.Runs.{IsFinal, RunsAdvance}
use mastermind_7dtd_ai_serve.Batches.{
  create_batch, enqueue_instances, enqueue_instance, new_batch, audit, emit_progress,
  job_type_of_batch, record_job_run_started, record_job_run_completed,
}
use mastermind_7dtd_ai_serve.Batches.Cancellation.{cancel_batch, cancel_jobs}
use mastermind_7dtd_ai_serve.Batches.Tally.{IsSound, batch_id_of, tally}
use mastermind_7dtd_ai_serve.Batches.Cleared.{cancel_batch_pending, CancelsPending, KeepsTallies}
use mastermind_7dtd_ai_serve.Queue.{get_next_job_for_host, claim_first}
use mastermind_7dtd_ai_serve.Jobs.AgentCalls.{
  ReportResult, poll, mark_job_run_started, started, report_job_result, unlink_upload,
  redact_profile, sync_players, completed,
}
use mastermind_7dtd_ai_serve.Jobs.Sweep.{fail_stale_running_jobs, is_stale, heartbeat}
use mastermind_7dtd_ai_serve.Jobs.Lifecycle.{Step, Reach, Reach-IsSound, final_run_stays}
use mastermind_7dtd_ai_serve.Jobs.Soundness.{report_job_result-IsSound}
use mastermind_7dtd_ai_serve.Jobs.Stale.{is_silent_run, fail_stale_running_jobs_run}
use mastermind_7dtd_ai_serve.Jobs.StaleBatch.{stale_run_still_counted}
use mastermind_7dtd_ai_serve.Examples.Waves.{
  client, ok_or, empty_world-IsSound, no_batch, created, created-IsSound, polled, history,
}

abbrev pub no_run : JobRun
no_run = record {
  id = 0;
  job_id = 0;
  host_id = 0;
  status = RunStatus.pending;
  started_at = none;
  finished_at = none;
  result = none;
  created_at = 0;
}

polled-IsSound : IsSound polled
polled-IsSound = Reach-IsSound history empty_world-IsSound

abbrev pub report : ReportResult
report = record {
  succeeded = true;
  duration_ms = some 900;
  error_message = none;
  output = none;
  extra = none;
}

abbrev reported : World
reported = ok_or (report_job_result polled 3 12 report 3000) polled

reported_eq : report_job_result polled 3 12 report 3000 ≡ ok reported
unfolding poll get_next_job_for_host claim_first create_batch enqueue_instances enqueue_instance
    new_batch audit emit_progress select any add_entry update_where find_first mark_job_run_started
    started record_job_run_started report_job_result unlink_upload redact_profile sync_players
    completed record_job_run_completed text_eq lit
reported_eq = refl

reported-IsSound : IsSound reported
reported-IsSound =
    report_job_result-IsSound polled reported 3 12 3000 report polled-IsSound reported_eq

-- The rest of the batch is cancelled.
abbrev cancelled : World × JobBatch
cancelled = ok_or (cancel_batch (λ e. true) created.0 7 10 4000) (created.0, no_batch)

cancelled_eq : cancel_batch (λ e. true) created.0 7 10 4000 ≡ ok cancelled
unfolding create_batch enqueue_instances enqueue_instance new_batch audit emit_progress select any
    add_entry update_where find_first cancel_batch cancel_jobs
cancelled_eq = refl

single_runs : HasDistinct (λ (r : JobRun). r.job_id) created.0.runs
unfolding create_batch enqueue_instances enqueue_instance new_batch audit emit_progress select any
    add_entry update_where find_first
single_runs = ((omega arith, tt), (tt, tt))

cancel_batch_pending_example :
    IsSound cancelled.0
    × RunsAdvance created.0.runs cancelled.0.runs
    × CancelsPending created.0 cancelled.0 10
    × KeepsTallies created.0 cancelled.0 3
cancel_batch_pending_example =
    cancel_batch_pending (λ e. true) created.0 cancelled.0 7 10 3 4000 cancelled.1 created-IsSound
      single_runs (omega arith) cancelled_eq

abbrev finished_run : JobRun
finished_run = or_default (find_run 12 reported.runs) no_run

finished_found : find_run 12 reported.runs ≡ some finished_run
unfolding poll get_next_job_for_host claim_first create_batch enqueue_instances enqueue_instance
    new_batch audit emit_progress select any add_entry update_where find_first mark_job_run_started
    started record_job_run_started report_job_result unlink_upload redact_profile sync_players
    completed record_job_run_completed text_eq lit job_type_of_batch
finished_found = refl

finished-IsFinal : IsFinal finished_run.status
unfolding poll get_next_job_for_host claim_first create_batch enqueue_instances enqueue_instance
    new_batch audit emit_progress select any add_entry update_where find_first mark_job_run_started
    started record_job_run_started report_job_result unlink_upload redact_profile sync_players
    completed record_job_run_completed text_eq lit job_type_of_batch
finished-IsFinal = tt

abbrev polled_later : World
polled_later = (poll client reported 7 4 false 5000).0

final_run_stays_example :
    (r' : JobRun) × (find_run 12 polled_later.runs ≡ some r') × (r'.status ≡ finished_run.status)
final_run_stays_example =
    final_run_stays reported polled_later 12 finished_run
      (Reach.more Reach.initial (Step.polled client 7 4 false 5000 refl)) reported-IsSound
      finished_found finished-IsFinal

-- The agent of host 3 falls silent.
abbrev silent_run : JobRun
silent_run = or_default (find_run 12 polled.runs) no_run

abbrev silent_batch : JobBatch
silent_batch = or_default (find_batch 10 polled.batches) no_batch

silent_facts :
    (find_run 12 polled.runs ≡ some silent_run)
    × (silent_run.status ≡ RunStatus.running)
    × (is_stale 900000 silent_run ≡ true)
    × (batch_id_of polled.jobs silent_run.job_id ≡ some 10)
    × (find_batch 10 polled.batches ≡ some silent_batch)
unfolding poll get_next_job_for_host claim_first create_batch enqueue_instances enqueue_instance
    new_batch audit emit_progress select any add_entry update_where find_first mark_job_run_started
    started record_job_run_started text_eq lit heartbeat get_field batch_id_of
silent_facts = (refl, refl, refl, refl, refl)

stale_run_still_counted_example :
    let w' = fail_stale_running_jobs polled 900000 in
    (find_batch 10 w'.batches ≡ some silent_batch)
    × (n : ℕ) × (silent_batch.running_count ≡ pos n)
    × (tally w'.jobs w'.runs silent_batch.id RunStatus.running < n)
stale_run_still_counted_example =
    stale_run_still_counted polled 900000 12 10 silent_run silent_batch polled-IsSound
      silent_facts.0 silent_facts.1 silent_facts.2 silent_facts.3 silent_facts.4

fail_stale_running_jobs_run_example :
    (r' : JobRun) × (find_run 12 (fail_stale_running_jobs polled 900000).runs ≡ some r')
    × (((is_silent_run 900000 silent_run ≡ true)
          × (r'.status ≡ RunStatus.failed)
          × (r'.finished_at ≡ some 900000)
          × (r'.job_id ≡ silent_run.job_id)
          × (r'.host_id ≡ silent_run.host_id))
        ⊎ ((is_silent_run 900000 silent_run ≡ false) × (r' ≡ silent_run)))
fail_stale_running_jobs_run_example =
    fail_stale_running_jobs_run polled 900000 12 silent_run polled-IsSound.runs_distinct
      silent_facts.0
