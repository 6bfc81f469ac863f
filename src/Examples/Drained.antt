-- ===== src/Examples/Drained.antt =====
-- A batch over two servers whose runs are both handed out, and which the agents' reports end; and one that is
-- cancelled while a run is under way.
use mastermind_7dtd_ai_serve.Base.{
  if◌then◌else◌, leb, none, ◌≡◌, refl, true, false, some, find_first, select, update_where, any,
  or_default, count_where,
}
use mastermind_7dtd_ai_serve.Base.Int.{is_pos}
use mastermind_7dtd_ai_serve.Base.Text.{lit, text_eq}
use mastermind_7dtd_ai_serve.Schema.{RunStatus, BatchStatus, JobRun, Job, JobBatch}
use mastermind_7dtd_ai_serve.World.{World, add_entry, find_run, find_job, find_batch}
use mastermind_7dtd_ai_serve.Batches.{
  create_batch, enqueue_instances, enqueue_instance, new_batch, audit, emit_progress,
  record_job_run_started, record_job_run_completed, count_started, job_type_of_batch,
}
use mastermind_7dtd_ai_serve.Batches.Cancellation.{
  is_running, latest_run, cancel_batch, cancel_jobs, count_cancelled,
}
use mastermind_7dtd_ai_serve.Batches.Tally.{tally, batch_id_of}
use mastermind_7dtd_ai_serve.Batches.Ending.{NoneHangs}
use mastermind_7dtd_ai_serve.Queue.{get_next_job_for_host, claim_first}
use mastermind_7dtd_ai_serve.Jobs.AgentCalls.{
  poll, mark_job_run_started, started, report_job_result, unlink_upload, redact_profile,
  sync_players, completed,
}
use mastermind_7dtd_ai_serve.Jobs.Lifecycle.{Step, Reach, Reach-IsSound}
use mastermind_7dtd_ai_serve.Jobs.Ending.{Reach-NoneHangs}
use mastermind_7dtd_ai_serve.Batches.Cancel.{cancel_batch-IsSound}
use mastermind_7dtd_ai_serve.Jobs.Reported.{last_report_ends}
use mastermind_7dtd_ai_serve.Base.Result.{ok}
use mastermind_7dtd_ai_serve.Jobs.Draining.{Reports, batch_drains}
use mastermind_7dtd_ai_serve.Examples.Waves.{
  client, ok_or, empty_world, empty_world-IsSound, no_batch, polled, history,
}
use mastermind_7dtd_ai_serve.Examples.Ends.{no_run, report}

abbrev handed_out : World
handed_out = (poll client polled 7 4 false 2500).0

handed_out_history : Reach empty_world handed_out
handed_out_history = Reach.more history (Step.polled client 7 4 false 2500 refl)

empty_world-NoneHangs : NoneHangs empty_world
unfolding find_first
empty_world-NoneHangs = λ i b e. cc

abbrev batch : JobBatch
batch = or_default (find_batch 10 handed_out.batches) no_batch

batch_facts :
    (find_batch 10 handed_out.batches ≡ some batch)
    × (is_pos batch.total_count ≡ true)
    × (is_running batch.status ≡ true)
    × (tally handed_out.jobs handed_out.runs 10 RunStatus.pending ≡ 0)
    × (tally handed_out.jobs handed_out.runs 10 RunStatus.running ≡ 2)
unfolding poll get_next_job_for_host claim_first create_batch enqueue_instances enqueue_instance
    new_batch audit emit_progress select any add_entry update_where find_first mark_job_run_started
    started record_job_run_started text_eq lit batch_id_of tally count_where count_started
    job_type_of_batch
batch_facts = (refl, refl, refl, refl, refl)

batch_drains_example :
    (w' : World) × (b' : JobBatch) × Reports (λ run. report) 3000 2 handed_out w'
    × (find_batch 10 w'.batches ≡ some b')
    × (is_running b'.status ≡ false)
batch_drains_example =
    batch_drains (λ run. report) 3000 2 handed_out 10 batch
      (Reach-IsSound handed_out_history empty_world-IsSound)
      (Reach-NoneHangs handed_out_history empty_world-IsSound empty_world-NoneHangs) batch_facts.0
      batch_facts.1 batch_facts.3 batch_facts.4

abbrev stopped : World × JobBatch
stopped = ok_or (cancel_batch (λ e. true) polled 7 10 4000) (polled, no_batch)

stopped_eq : cancel_batch (λ e. true) polled 7 10 4000 ≡ ok stopped
unfolding poll get_next_job_for_host claim_first create_batch enqueue_instances enqueue_instance
    new_batch audit emit_progress select any add_entry update_where find_first mark_job_run_started
    started record_job_run_started text_eq lit cancel_batch cancel_jobs job_type_of_batch
stopped_eq = refl

abbrev stopped_run : JobRun
stopped_run = or_default (find_run 12 stopped.0.runs) no_run

abbrev pub no_job : Job
no_job = record {
  id = 0;
  org_id = 0;
  batch_id = none;
  instance_id = none;
  type = lit "";
  payload = none;
  created_by = none;
}

abbrev stopped_job : Job
stopped_job = or_default (find_job stopped_run.job_id stopped.0.jobs) no_job

abbrev stopped_batch : JobBatch
stopped_batch = or_default (find_batch 10 stopped.0.batches) no_batch

abbrev late : World
late = ok_or (report_job_result stopped.0 3 12 report 5000) stopped.0

stopped_facts :
    (find_run 12 stopped.0.runs ≡ some stopped_run)
    × (find_job stopped_run.job_id stopped.0.jobs ≡ some stopped_job)
    × (stopped_job.batch_id ≡ some stopped_batch.id)
    × (find_batch stopped_batch.id stopped.0.batches ≡ some stopped_batch)
    × (tally stopped.0.jobs stopped.0.runs stopped_batch.id RunStatus.pending ≡ 0)
    × (tally stopped.0.jobs stopped.0.runs stopped_batch.id RunStatus.running ≡ 1)
    × (report_job_result stopped.0 3 12 report 5000 ≡ ok late)
unfolding poll get_next_job_for_host claim_first create_batch enqueue_instances enqueue_instance
    new_batch audit emit_progress select any add_entry update_where find_first mark_job_run_started
    started record_job_run_started text_eq lit cancel_batch cancel_jobs job_type_of_batch
    batch_id_of tally count_where count_started count_cancelled report_job_result unlink_upload
    redact_profile sync_players completed record_job_run_completed latest_run
stopped_facts = (refl, refl, refl, refl, refl, refl, refl)

last_report_ends_example :
    (b' : JobBatch) × (find_batch stopped_batch.id late.batches ≡ some b')
    × (b'.status ≡ (
        if leb 1 (tally late.jobs late.runs stopped_batch.id RunStatus.failed)
        then BatchStatus.completed_with_failures
        else BatchStatus.completed))
last_report_ends_example =
    last_report_ends stopped.0 late 3 12 5000 report stopped_run stopped_job stopped_batch
      (cancel_batch-IsSound (λ e. true) polled stopped.0 7 10 4000 stopped.1
        (Reach-IsSound history empty_world-IsSound) stopped_eq).0
      stopped_facts.0 stopped_facts.1 stopped_facts.2 stopped_facts.3 stopped_facts.4
      stopped_facts.5 stopped_facts.6
