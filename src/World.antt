-- ===== src/World.antt =====
-- The state that the job services share: the job tables, the organisations' BullMQ queues, and what
-- the services write out (audit log, batch progress events).
-- Also control-plane/src/jobs/jobs-queue.service.ts `addJob` (the queue's entry and its options).
use mastermind_7dtd_ai_serve.Base.{
  ℕ, ◌+◌, ◌&&◌, Option, List, [], ◌∷◌, ◌++◌, ◌==◌, if◌then◌else◌, any, find_first,
}
use mastermind_7dtd_ai_serve.Base.Int.{ℤ}
use mastermind_7dtd_ai_serve.Base.Text.{Text}
use mastermind_7dtd_ai_serve.Schema.{Fields, RunStatus, JobRun, Job, JobBatch, ServerInstance}

pub record QueueJobData : Type 0 where
  pub job_id : ℕ
  pub job_run_id : ℕ
  pub host_id : ℕ
  pub instance_id : Option ℕ
  pub type : Text
  pub payload : Fields
  pub schedule_id : Option ℕ

pub data Backoff : Type 0 where
  fixed exponential : ℕ → Backoff

-- A waiting or delayed job of the queue `jobs-<orgId>`. Its BullMQ id is the run's id.
pub record QueueEntry : Type 0 where
  pub org_id : ℕ
  pub contents : QueueJobData
  pub attempts : ℕ
  pub backoff : Backoff
  pub delay : ℕ

pub record Member : Type 0 where
  pub user_id : ℕ
  pub org_id : ℕ
  pub role : Text

pub data Action : Type 0 where
  job_created : ℕ → ℕ → Action
  batch_created : Text → ℕ → Action
  batch_cancelled : ℤ → ℕ → Action

pub record Audit : Type 0 where
  pub org_id : ℕ
  pub actor_id : Option ℕ
  pub action : Action
  pub resource_id : ℕ

pub record Progress : Type 0 where
  pub org_id : ℕ
  pub batch : JobBatch
  pub updated_run : Option (ℕ × RunStatus)

-- A call of `reconcilePlayers` and `enforceConnectionTools` on the output of a player list job.
pub record PlayerSync : Type 0 where
  pub org_id : ℕ
  pub instance_id : ℕ
  pub output : Text

-- `unlinked` lists the uploads whose archive has been removed from the disk.
-- `next_id` stands for the database's generator of fresh ids.
pub record World : Type 0 where
  pub runs : List JobRun
  pub jobs : List Job
  pub batches : List JobBatch
  pub instances : List ServerInstance
  pub members : List Member
  pub queue : List QueueEntry
  pub audits : List Audit
  pub progress : List Progress
  pub syncs : List PlayerSync
  pub unlinked : List Text
  pub next_id : ℕ

abbrev pub max_retries : ℕ
max_retries = 2

abbrev pub job_attempts : ℕ
job_attempts = max_retries + 1

-- `queue.add` with a `jobId`: BullMQ ignores a job whose id the queue already holds.
unfoldable pub add_entry : QueueEntry → List QueueEntry → List QueueEntry
add_entry e q =
    if any (λ x. x.org_id == e.org_id && x.contents.job_run_id == e.contents.job_run_id) q
    then q
    else q ++ e ∷ []

unfoldable pub add_job : ℕ → QueueJobData → World → World
add_job org job w = record w {
  queue =
      add_entry
        (record {
          org_id = org;
          contents = job;
          attempts = job_attempts;
          backoff = Backoff.exponential 2000;
          delay = 0;
        })
        w.queue;
}

abbrev pub find_run : ℕ → List JobRun → Option JobRun
find_run i = find_first (λ r. r.id == i)

abbrev pub find_job : ℕ → List Job → Option Job
find_job i = find_first (λ j. j.id == i)

abbrev pub find_batch : ℕ → List JobBatch → Option JobBatch
find_batch i = find_first (λ b. b.id == i)
