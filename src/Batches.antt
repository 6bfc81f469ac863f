-- ===== src/Batches.antt =====
-- control-plane/src/batches/batches.service.ts: batches of jobs and their counters.
-- Batches/Cancellation has cancelBatch.
pub mod Cancellation
pub mod Tally
pub mod Ending
pub mod Insert
pub mod CounterRows
pub mod Counters
pub mod CancelLoop
pub mod Cancel
pub mod Create
pub mod Clearing
pub mod Cleared
use mastermind_7dtd_ai_serve.Base.{
  ℕ, suc, ◌+◌, Bool, true, false, not, ◌&&◌, Option, none, some, List, [], ◌∷◌, ◌++◌, ◌==◌, ltb,
  if◌then◌else◌, or_default, found_is, any, find_first, update_where, select, length, map,
}
use mastermind_7dtd_ai_serve.Base.Int.{ℤ, pos, ◌+ℤ◌, ◌-ℤ◌, is_nonpos, is_pos}
use mastermind_7dtd_ai_serve.Base.Text.{Text, lit, text_eq}
use mastermind_7dtd_ai_serve.Base.Result.{Result, ok, err, ◌>>=◌, ◌>>◌, require, or_throw}
use mastermind_7dtd_ai_serve.Schema.{
  Fields, end, RunStatus, is_status, JobRun, Job, BatchStatus, JobBatch, ServerInstance,
}
use mastermind_7dtd_ai_serve.World.{
  QueueEntry, Backoff, Action, Audit, Progress, World, job_attempts, add_entry, find_batch,
}

pub data BatchError : Type 0 where
  instances_missing : List ℕ → BatchError
  batch_not_found batch_not_running : BatchError

-- `BATCH_TYPE_TO_JOB_TYPE[type] ?? type`.
unfoldable pub job_type_of_batch : Text → Text
job_type_of_batch t =
    if text_eq t (lit "restart_wave")
    then lit "SERVER_RESTART"
    else if text_eq t (lit "update_wave")
    then lit "SERVER_UPDATE"
    else if text_eq t (lit "bulk_mod_install")
    then lit "BULK_MOD_INSTALL"
    else t

pub record CreateBatch : Type 0 where
  pub type : Text
  pub instance_ids : List ℕ
  pub payload : Option Fields

unfoldable pub audit : ℕ → Option ℕ → Action → ℕ → World → World
audit org actor action resource w = record w {
  audits =
      w.audits
      ++ record { org_id = org; actor_id = actor; action = action; resource_id = resource } ∷ [];
}

unfoldable pub emit_progress : ℕ → JobBatch → Option (ℕ × RunStatus) → World → World
emit_progress org b run w = record w {
  progress = w.progress ++ record { org_id = org; batch = b; updated_run = run } ∷ [];
}

-- One round of the loop of `createBatch`: the job, its run, the queue entry and the audit row.
unfoldable pub enqueue_instance :
    ℕ → Option ℕ → ℕ → Text → Option Fields → ℕ → World → ServerInstance → World
unfolding audit
enqueue_instance org user batch job_type payload now w si =
    audit org user (Action.job_created batch si.id) job_id (record w {
      jobs = w.jobs ++ new_job ∷ [];
      runs = w.runs ++ new_run ∷ [];
      queue = add_entry entry w.queue;
      next_id = w.next_id + 2;
    })
  where
    job_id : ℕ
    job_id = w.next_id

    run_id : ℕ
    run_id = w.next_id + 1

    new_job : Job
    new_job = record {
      id = job_id;
      org_id = org;
      batch_id = some batch;
      instance_id = some si.id;
      type = job_type;
      payload = payload;
      created_by = user;
    }

    new_run : JobRun
    new_run = record {
      id = run_id;
      job_id = job_id;
      host_id = si.host_id;
      status = RunStatus.pending;
      started_at = none;
      finished_at = none;
      result = none;
      created_at = now;
    }

    entry : QueueEntry
    entry = record {
      org_id = org;
      contents = record {
        job_id = job_id;
        job_run_id = run_id;
        host_id = si.host_id;
        instance_id = some si.id;
        type = job_type;
        payload = or_default payload end;
        schedule_id = none;
      };
      attempts = job_attempts;
      backoff = Backoff.fixed 2000;
      delay = 0;
    }

unfoldable pub enqueue_instances :
    ℕ → Option ℕ → ℕ → Text → Option Fields → ℕ → World → List ServerInstance → World
enqueue_instances org user batch job_type payload now w [] = w
enqueue_instances org user batch job_type payload now w (si ∷ sis) =
    enqueue_instances org user batch job_type payload now
      (enqueue_instance org user batch job_type payload now w si) sis

abbrev pub instances_in : World → ℕ → List ℕ → List ServerInstance
instances_in w org ids = select (λ s. any (λ i. i == s.id) ids && s.org_id == org) w.instances

unfoldable pub new_batch : World → ℕ → Option ℕ → Text → ℕ → ℕ → JobBatch
new_batch w org user type n now = record {
  id = w.next_id;
  org_id = org;
  type = type;
  status = BatchStatus.running;
  total_count = pos n;
  pending_count = pos n;
  running_count = pos 0;
  success_count = pos 0;
  failed_count = pos 0;
  cancelled_count = pos 0;
  created_by = user;
  created_at = now;
  completed_at = none;
}

unfoldable pub create_batch :
    World → ℕ → Option ℕ → CreateBatch → ℕ → Result BatchError (World × JobBatch)
create_batch w org user dto now =
    let found = instances_in w org dto.instance_ids in
    let n = length found in
    let b = new_batch w org user dto.type n now in
    let w' = record w { batches = w.batches ++ b ∷ []; next_id = w.next_id + 1 } in
    do
      require (n == length dto.instance_ids)
          (instances_missing (select (λ i. not (any (λ s. s.id == i) found)) dto.instance_ids))
      ok (
        audit org user (Action.batch_created b.type n) b.id
            (enqueue_instances org user b.id (job_type_of_batch dto.type) dto.payload now w' found),
        b,
      )

-- `updates`: one counter goes up for the run's new status, and one goes down for its old one.
credit : RunStatus → JobBatch → JobBatch
credit RunStatus.success b = record b { success_count = b.success_count +ℤ pos 1 }
credit RunStatus.failed b = record b { failed_count = b.failed_count +ℤ pos 1 }
credit _ b = record b { cancelled_count = b.cancelled_count +ℤ pos 1 }

release : RunStatus → JobBatch → JobBatch
release RunStatus.running b = record b { running_count = b.running_count -ℤ pos 1 }
release _ b = record b { pending_count = b.pending_count -ℤ pos 1 }

-- The counters after a run of the batch has completed, before the completion check.
unfoldable pub count_completed : RunStatus → RunStatus → JobBatch → JobBatch
unfolding credit release
count_completed status prior b = release prior (credit status b)

-- `if (pendingCount <= 0 && runningCount <= 0)`: the batch is finished.
unfoldable pub finish_batch : ℕ → JobBatch → JobBatch
finish_batch now b =
    if is_nonpos b.pending_count && is_nonpos b.running_count
    then record b {
      status =
          if is_pos b.failed_count
          then BatchStatus.completed_with_failures
          else BatchStatus.completed;
      completed_at = some now;
    }
    else b

-- The batch of the job, if the job exists in the org and belongs to one.
unfoldable pub batch_of_job : World → ℕ → ℕ → Option JobBatch
batch_of_job w org job = elim (find_first (λ j. j.id == job && j.org_id == org) w.jobs) [
  | none ↦ none
  | some j ↦ elim j.batch_id [ none ↦ none | some b ↦ find_batch b w.batches ]
]

unfoldable pub record_job_run_completed : World → ℕ → ℕ → RunStatus → RunStatus → ℕ → World
unfolding batch_of_job count_completed finish_batch emit_progress
record_job_run_completed w org job status prior now = elim (batch_of_job w org job) [
  | none ↦ w
  | some b ↦
      let final = finish_batch now (count_completed status prior b) in
      emit_progress org final (some (job, status)) (record w {
        batches =
            update_where (λ x. x.id == b.id)
              (λ x. finish_batch now (count_completed status prior x)) w.batches;
      })
]

unfoldable pub count_started : JobBatch → JobBatch
count_started b = record b {
  pending_count = b.pending_count -ℤ pos 1;
  running_count = b.running_count +ℤ pos 1;
}

unfoldable pub record_job_run_started : World → ℕ → ℕ → World
unfolding batch_of_job count_started emit_progress
record_job_run_started w org job = elim (batch_of_job w org job) [
  | none ↦ w
  | some b ↦
      emit_progress org (count_started b) (some (job, RunStatus.running))
        (record w { batches = update_where (λ x. x.id == b.id) count_started w.batches })
]
