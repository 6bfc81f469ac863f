-- ===== src/Examples/Waves.antt =====
-- Two game servers of one organisation: a batch over both, an agent that starts its run and reports, the
-- cancellation of the rest, a stale run, and single jobs.
use mastermind_7dtd_ai_serve.Base.{
  ℕ, ◌≡◌, refl, false, none, some, [], ◌∷◌, length, find_first, select, update_where, any,
}
use mastermind_7dtd_ai_serve.Base.Int.{pos}
use mastermind_7dtd_ai_serve.Base.Text.{lit}
use mastermind_7dtd_ai_serve.Base.Result.{Result, ok, err}
use mastermind_7dtd_ai_serve.Schema.{BatchStatus, JobBatch, ServerInstance}
use mastermind_7dtd_ai_serve.World.{World, add_entry, find_batch}
use mastermind_7dtd_ai_serve.Runs.{RunsAdvance}
use mastermind_7dtd_ai_serve.Batches.{
  CreateBatch, create_batch, enqueue_instances, enqueue_instance, new_batch, audit, emit_progress,
}
use mastermind_7dtd_ai_serve.Batches.Tally.{IsSound}
use mastermind_7dtd_ai_serve.Batches.Create.{create_batch-IsSound}
use mastermind_7dtd_ai_serve.Queue.{claimed, QueueClient}
use mastermind_7dtd_ai_serve.Jobs.AgentCalls.{poll}
use mastermind_7dtd_ai_serve.Jobs.Lifecycle.{Step, Reach, Reach-RunsAdvance}

abbrev pub ok_or : {E A : Type 0} → Result E A → A → A
ok_or (ok a) b = a
ok_or (err e) b = b

abbrev pub server : ℕ → ℕ → ServerInstance
server i host = record {
  id = i;
  org_id = 7;
  host_id = host;
  game_type = lit "7dtd";
  name = lit "pve";
  install_path = none;
  start_command = none;
  telnet_host = none;
  telnet_port = none;
  telnet_password = none;
  config = none;
  avoid_blood_moon_restart = false;
}

abbrev pub empty_world : World
empty_world = record {
  runs = [];
  jobs = [];
  batches = [];
  instances = server 1 3 ∷ server 2 4 ∷ [];
  members = record { user_id = 5; org_id = 7; role = lit "admin" } ∷ [];
  queue = [];
  audits = [];
  progress = [];
  syncs = [];
  unlinked = [];
  next_id = 10;
}

pub empty_world-IsSound : IsSound empty_world
unfolding find_first
empty_world-IsSound = record {
  keys = record {
    runs_distinct = tt;
    jobs_distinct = tt;
    jobs_fresh = tt;
    runs_fresh = tt;
    batches_fresh = tt;
    jobs_batched = tt;
  };
  tallied = λ i b e. cc;
}

abbrev pub no_batch : JobBatch
no_batch = record {
  id = 0;
  org_id = 0;
  type = [];
  status = BatchStatus.running;
  total_count = pos 0;
  pending_count = pos 0;
  running_count = pos 0;
  success_count = pos 0;
  failed_count = pos 0;
  cancelled_count = pos 0;
  created_by = none;
  created_at = 0;
  completed_at = none;
}

abbrev pub wave : CreateBatch
wave = record { type = lit "restart_wave"; instance_ids = 1 ∷ 2 ∷ []; payload = none }

abbrev pub created : World × JobBatch
created = ok_or (create_batch empty_world 7 (some 5) wave 1000) (empty_world, no_batch)

pub created_eq : create_batch empty_world 7 (some 5) wave 1000 ≡ ok created
unfolding create_batch enqueue_instances enqueue_instance new_batch audit emit_progress select any
    add_entry update_where find_first
created_eq = refl

create_batch-IsSound_example :
    IsSound created.0
    × (find_batch created.1.id created.0.batches ≡ some created.1)
    × (created.1.pending_count ≡ pos (length wave.instance_ids))
    × RunsAdvance empty_world.runs created.0.runs
create_batch-IsSound_example =
    create_batch-IsSound empty_world created.0 7 (some 5) wave 1000 created.1 empty_world-IsSound
      created_eq

pub created-IsSound : IsSound created.0
created-IsSound = create_batch-IsSound_example.0

-- The agent of host 3 takes its run.
-- A queue that lists all its jobs, and whose jobs can be taken.
abbrev pub client : QueueClient
client = record { get_jobs = λ first last es. es; attempt = λ e. claimed }

abbrev pub polled : World
polled = (poll client created.0 7 3 false 2000).0

pub history : Reach empty_world polled
history =
    Reach.more
      (Reach.more Reach.initial (Step.create_wave 7 (some 5) wave 1000 created.1 created_eq))
      (Step.polled client 7 3 false 2000 refl)

Reach-RunsAdvance_example : RunsAdvance empty_world.runs polled.runs
Reach-RunsAdvance_example = Reach-RunsAdvance history empty_world-IsSound
