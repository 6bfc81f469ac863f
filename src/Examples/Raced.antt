-- ===== src/Examples/Raced.antt =====
-- The first run of the batch over two servers, whose result comes twice.
use mastermind_7dtd_ai_serve.Base.{
  ◌≡◌, refl, some, find_first, select, update_where, any, or_default,
}
use mastermind_7dtd_ai_serve.Base.Int.{pos, ◌+ℤ◌}
use mastermind_7dtd_ai_serve.Base.Text.{lit, text_eq}
use mastermind_7dtd_ai_serve.Base.Result.{ok}
use mastermind_7dtd_ai_serve.Schema.{RunStatus, JobRun, Job, JobBatch}
use mastermind_7dtd_ai_serve.World.{World, add_entry, find_run, find_job, find_batch}
use mastermind_7dtd_ai_serve.Batches.{
  create_batch, enqueue_instances, enqueue_instance, new_batch, audit, emit_progress,
  record_job_run_started, job_type_of_batch,
}
use mastermind_7dtd_ai_serve.Batches.Tally.{tally}
use mastermind_7dtd_ai_serve.Queue.{get_next_job_for_host, claim_first}
use mastermind_7dtd_ai_serve.Jobs.AgentCalls.{poll, mark_job_run_started, started}
use mastermind_7dtd_ai_serve.Jobs.Lifecycle.{Reach-IsSound}
use mastermind_7dtd_ai_serve.Jobs.ReportSteps.{admit_report, write_report}
use mastermind_7dtd_ai_serve.Jobs.Races.{report_race_miscounts}
use mastermind_7dtd_ai_serve.Examples.Waves.{empty_world-IsSound, no_batch, polled, history}
use mastermind_7dtd_ai_serve.Examples.Ends.{no_run, report}
use mastermind_7dtd_ai_serve.Examples.Drained.{no_job}

abbrev raced_run : JobRun
raced_run = or_default (find_run 12 polled.runs) no_run

abbrev raced_job : Job
raced_job = or_default (find_job raced_run.job_id polled.jobs) no_job

abbrev raced_batch : JobBatch
raced_batch = or_default (find_batch 10 polled.batches) no_batch

raced_facts :
    (admit_report polled 3 12 ≡ ok (raced_run, raced_job))
    × (raced_job.batch_id ≡ some raced_batch.id)
    × (find_batch raced_batch.id polled.batches ≡ some raced_batch)
unfolding poll get_next_job_for_host claim_first create_batch enqueue_instances enqueue_instance
    new_batch audit emit_progress select any add_entry update_where find_first mark_job_run_started
    started record_job_run_started text_eq lit job_type_of_batch admit_report
raced_facts = (refl, refl, refl)

abbrev written_twice : World
written_twice =
    write_report 3 12 report 3100 (raced_run, raced_job)
      (write_report 3 12 report 3000 (raced_run, raced_job) polled)

report_race_miscounts_example :
    (b2 : JobBatch) × (find_batch raced_batch.id written_twice.batches ≡ some b2)
    × (b2.running_count +ℤ pos 1
        ≡ pos (tally written_twice.jobs written_twice.runs raced_batch.id RunStatus.running))
report_race_miscounts_example =
    report_race_miscounts polled 3 12 3000 3100 report report raced_run raced_job raced_batch
      (Reach-IsSound history empty_world-IsSound) raced_facts.0 raced_facts.1 raced_facts.2
