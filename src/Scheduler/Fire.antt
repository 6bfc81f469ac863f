-- ===== src/Scheduler/Fire.antt =====
-- scheduler.service.ts `processScheduleFire`: what a due
-- schedule does. A call of the database or of a queue that fails is a `Fault`. An invalid date is refused by the
-- database, and stops what comes after it.
use mastermind_7dtd_ai_serve.Base.{
  ℕ, suc, ◌+◌, Bool, true, false, ◌&&◌, ◌||◌, Option, none, some, [], ◌∷◌, ◌++◌, ◌==◌,
  if◌then◌else◌, or_default, found_is, find_first, update_where, any, ◌≡◌, ap, ◌∙◌,
}
use mastermind_7dtd_ai_serve.Base.Text.{Text, lit, text_eq, to_upper}
use mastermind_7dtd_ai_serve.Schema.{
  Json, num, Fields, end, field, get_field, spread, RunStatus, is_status, Job, ServerInstance,
}
use mastermind_7dtd_ai_serve.World.{Backoff, World, add_entry, find_job}
use mastermind_7dtd_ai_serve.Cron.{Calendar}
use mastermind_7dtd_ai_serve.Jobs.{instance_payload}
use mastermind_7dtd_ai_serve.Scheduler.{
  Schedule, State, NextRun, no_run, invalid_date, run_at, compute_next_run, find_schedule, add_fire,
}

-- The first call that fails in a fire, if any: `schedule.findUnique`, `jobRun.findFirst`, `job.create`,
-- `jobRun.create`, `orgQueue.add`, `schedule.update` or `schedulerQueue.add`. The calls after it succeed.
pub data Fault : Type 0 where
  no_fault at_lookup at_active at_job at_run at_queue at_update at_arm : Fault

abbrev pub lookup_fails : Fault → Bool
lookup_fails at_lookup = true
lookup_fails _ = false

abbrev pub active_fails : Fault → Bool
active_fails at_active = true
active_fails _ = false

abbrev pub update_fails : Fault → Bool
update_fails at_update = true
update_fails _ = false

abbrev pub arm_fails : Fault → Bool
arm_fails at_arm = true
arm_fails _ = false

unfoldable pub effective_job_type : Schedule → ServerInstance → Text
effective_job_type s si =
    if text_eq si.game_type (lit "7dtd") && text_eq (to_upper s.job_type) (lit "SERVER_RESTART")
    then lit "SERVER_SAFE_RESTART"
    else s.job_type

unfoldable pub merged_payload : Schedule → ServerInstance → Fields
merged_payload s si =
    spread (instance_payload si (field (lit "schedule_id") (num s.id) end))
      (or_default s.payload end)

abbrev is_num : Option Json → ℕ → Bool
is_num (some (num m)) n = m == n
is_num _ n = false

-- The where clause on the run's job.
unfoldable pub is_job_of : Schedule → ServerInstance → Option Job → Bool
is_job_of s si none = false
is_job_of s si (some j) =
    found_is j.instance_id s.instance_id
    && text_eq j.type (effective_job_type s si)
    && is_num (get_field (lit "schedule_id") (or_default j.payload end)) s.id

unfoldable pub has_active_run : Schedule → ServerInstance → World → Bool
has_active_run s si w =
    any
      (λ r.
        (is_status RunStatus.pending r.status || is_status RunStatus.running r.status)
        && is_job_of s si (find_job r.job_id w.jobs))
      w.runs

-- The new job and its run, pending; the next ids.
unfoldable pub add_scheduled_job : Schedule → ServerInstance → World → World
add_scheduled_job s si w = record w {
  jobs =
      w.jobs
      ++ record {
        id = w.next_id;
        org_id = s.org_id;
        batch_id = none;
        instance_id = some s.instance_id;
        type = effective_job_type s si;
        payload = some (merged_payload s si);
        created_by = none;
      }
        ∷ [];
  next_id = suc w.next_id;
}

unfoldable pub add_scheduled_run : ℕ → ℕ → ServerInstance → World → World
add_scheduled_run now job si w = record w {
  runs =
      w.runs
      ++ record {
        id = w.next_id;
        job_id = job;
        host_id = si.host_id;
        status = RunStatus.pending;
        started_at = none;
        finished_at = none;
        result = none;
        created_at = now;
      }
        ∷ [];
  next_id = suc w.next_id;
}

unfoldable pub queue_scheduled : Schedule → ServerInstance → ℕ → ℕ → World → World
queue_scheduled s si job run w = record w {
  queue =
      add_entry
        (record {
          org_id = s.org_id;
          contents = record {
            job_id = job;
            job_run_id = run;
            host_id = si.host_id;
            instance_id = some s.instance_id;
            type = effective_job_type s si;
            payload = merged_payload s si;
            schedule_id = some s.id;
          };
          attempts = or_default s.max_retries 2 + 1;
          backoff = Backoff.fixed (or_default s.backoff_ms 2000);
          delay = 0;
        })
        w.queue;
}

-- The schedule's update, and then the next job of the scheduler queue, where `fails` says whether the queue
-- refuses it; whether a call threw.
abbrev pub re_arm : Bool → ℕ → ℕ → NextRun → (Option ℕ → Schedule → Schedule) → State → Bool × State
re_arm fails now i invalid_date f st = (true, st)
re_arm fails now i no_run f st = (
  false,
  record st { schedules = update_where (λ s. s.id == i) (λ s. f s.next_run_at s) st.schedules },
)
re_arm fails now i (run_at t) f st = (
  fails,
  record st {
    schedules = update_where (λ s. s.id == i) (f (some t)) st.schedules;
    fires = if fails then st.fires else add_fire now i t st.fires;
  },
)

abbrev pub note_fire :
    Fault → ℕ → ℕ → NextRun → (Option ℕ → Schedule → Schedule) → State → Bool × State
note_fire fault now i next f st =
    if update_fails fault then (true, st) else re_arm (arm_fails fault) now i next f st

abbrev pub skipped : ℕ → Option ℕ → Schedule → Schedule
skipped now next s = record s {
  last_run_at = some now;
  last_run_status = some (lit "skipped_busy");
  next_run_at = next;
}

abbrev pub succeeded : ℕ → ℕ → Option ℕ → Schedule → Schedule
succeeded now job next s = record s {
  last_run_at = some now;
  last_run_status = some (lit "success");
  last_run_job = some job;
  run_count = s.run_count + 1;
  next_run_at = next;
}

abbrev pub failed_fire : ℕ → Option ℕ → Option ℕ → Schedule → Schedule
failed_fire now job next s = record s {
  last_run_at = some now;
  last_run_status = some (lit "scheduler_failed");
  last_run_job = job;
  failure_count = s.failure_count + 1;
  next_run_at = next;
}

-- The catch block rethrows.
unfoldable pub catch_fire : ℕ → ℕ → NextRun → Option ℕ → State → Bool × State
catch_fire now i next job st = (true, (re_arm false now i next (failed_fire now job) st).1)

-- After the job is queued: a call that throws is caught too.
abbrev pub finish_fire : Fault → ℕ → ℕ → NextRun → ℕ → State → Bool × State
finish_fire fault now i next job st =
    let noted = note_fire fault now i next (succeeded now job) st in
    if noted.0 then catch_fire now i next (some job) noted.1 else noted

unfoldable pub run_schedule : Fault → ℕ → Schedule → ServerInstance → NextRun → State → Bool × State
run_schedule at_job now s si next st = catch_fire now s.id next none st
run_schedule at_run now s si next st =
    catch_fire now s.id next none (record st { world = add_scheduled_job s si st.world })
run_schedule at_queue now s si next st =
    let job = st.world.next_id in
    catch_fire now s.id next (some job)
      (record st { world = add_scheduled_run now job si (add_scheduled_job s si st.world) })
run_schedule fault now s si next st =
    let job = st.world.next_id in
    finish_fire fault now s.id next job (record st {
      world =
          queue_scheduled s si job (suc job)
            (add_scheduled_run now job si (add_scheduled_job s si st.world));
    })

unfoldable pub fire_enabled : Fault → ℕ → Schedule → ServerInstance → NextRun → State → Bool × State
fire_enabled fault now s si next st =
    if active_fails fault then (true, st) else elim (has_active_run s si st.world) [
      | true ↦ note_fire fault now s.id next (skipped now) st
      | false ↦ run_schedule fault now s si next st
    ]

unfoldable pub find_server : ℕ → World → Option ServerInstance
find_server i w = find_first (λ si. si.id == i) w.instances

-- A schedule without its server instance, which the database excludes, is an exception.
abbrev pub fire_when :
    Calendar → Fault → ℕ → Schedule → Bool → Option ServerInstance → State → Bool × State
fire_when cal fault now s false server st = (false, st)
fire_when cal fault now s true none st = (true, st)
fire_when cal fault now s true (some si) st =
    fire_enabled fault now s si (compute_next_run cal s now) st

-- `processScheduleFire`: whether it threw, and the state.
unfoldable pub process_schedule_fire : Calendar → Fault → ℕ → ℕ → State → Bool × State
process_schedule_fire cal fault now i st =
    if lookup_fails fault then (true, st) else elim (find_schedule i st.schedules) [
      | none ↦ (false, st)
      | some s ↦ fire_when cal fault now s s.enabled (find_server s.instance_id st.world) st
    ]

pub process_schedule_fire_found :
    (cal : Calendar) (fault : Fault) (now i : ℕ) (st : State) (s : Schedule) (si : ServerInstance)
    → lookup_fails fault ≡ false
    → find_schedule i st.schedules ≡ some s
    → s.enabled ≡ true
    → find_server s.instance_id st.world ≡ some si
    → process_schedule_fire cal fault now i st
      ≡ fire_enabled fault now s si (compute_next_run cal s now) st
unfolding process_schedule_fire
process_schedule_fire_found cal fault now i st s si looked found on server =
    rw (looked, found, process_schedule_fire)
      (ap (λ (b : Bool). fire_when cal fault now s b (find_server s.instance_id st.world) st) on
        ∙ ap (λ o. fire_when cal fault now s true o st) server)
