-- ===== src/Scheduler.antt =====
-- control-plane/src/scheduler/scheduler.service.ts: the schedules' rows and the `scheduler` queue, and the
-- operations that create, change and delete a schedule. The queue holds finished jobs too, as BullMQ does
-- unless told otherwise. `now` is every clock reading of one call.
pub mod Fire
pub mod Worker
pub mod Queued
pub mod Stacking
pub mod Arming
pub mod Rows
pub mod History
pub mod Armed
pub mod Changes
pub mod Failures
use mastermind_7dtd_ai_serve.Base.{
  ℕ, zero, suc, ◌+◌, ◌-◌, Bool, true, false, not, ◌&&◌, ◌||◌, Option, none, some, List, [], ◌∷◌,
  ◌++◌, ◌==◌, if◌then◌else◌, or_default, or_else, is_some, find_first, update_where, delete_where,
  any,
}
use mastermind_7dtd_ai_serve.Base.Text.{Text, lit}
use mastermind_7dtd_ai_serve.Base.Result.{Result, ok, err, ◌>>=◌, or_throw}
use mastermind_7dtd_ai_serve.Schema.{Fields}
use mastermind_7dtd_ai_serve.World.{World}
use mastermind_7dtd_ai_serve.Cron.{Calendar, CronError, get_next_cron_run}
use mastermind_7dtd_ai_serve.Cron.ExecutionWindow.{clamp_to_execution_window}

-- `max_retries` and `backoff_ms` are the retry policy's.
pub record Schedule : Type 0 where
  pub id : ℕ
  pub org_id : ℕ
  pub instance_id : ℕ
  pub name : Text
  pub cron_expression : Text
  pub job_type : Text
  pub payload : Option Fields
  pub enabled : Bool
  pub window_start : Option Text
  pub window_end : Option Text
  pub max_retries : Option ℕ
  pub backoff_ms : Option ℕ
  pub last_run_at : Option ℕ
  pub next_run_at : Option ℕ
  pub last_run_status : Option Text
  pub last_run_job : Option ℕ
  pub run_count : ℕ
  pub failure_count : ℕ
  pub created_by : Option ℕ

-- The queue's job `schedule:<schedule_id>:<at>`.
pub record FireEntry : Type 0 where
  pub schedule_id : ℕ
  pub at : ℕ
  pub delay : ℕ

pub record State : Type 0 where
  pub world : World
  pub schedules : List Schedule
  pub fires : List FireEntry

pub data ScheduleError : Type 0 where
  invalid_cron : Text → ScheduleError
  schedule_not_found : ScheduleError

-- `computeNextRun`: null, a date that is invalid, or a time.
pub data NextRun : Type 0 where
  no_run invalid_date : NextRun
  run_at : ℕ → NextRun

abbrev clamped : Option ℕ → NextRun
clamped none = invalid_date
clamped (some t) = run_at t

unfoldable pub compute_next_run : Calendar → Schedule → ℕ → NextRun
compute_next_run cal s from = elim (get_next_cron_run cal s.cron_expression from) [
  | err e ↦ no_run
  | ok t ↦ clamped (clamp_to_execution_window cal t s.window_start s.window_end)
]

abbrev pub find_schedule : ℕ → List Schedule → Option Schedule
find_schedule i = find_first (λ s. s.id == i)

abbrev pub schedule_in_org : ℕ → ℕ → List Schedule → Option Schedule
schedule_in_org org i = find_first (λ s. s.id == i && s.org_id == org)

abbrev pub same_fire : ℕ → ℕ → FireEntry → Bool
same_fire i t e = e.schedule_id == i && e.at == t

-- `schedulerQueue.add`: a job whose id the queue holds is not added again.
unfoldable pub add_fire : ℕ → ℕ → ℕ → List FireEntry → List FireEntry
add_fire now i t fires =
    if any (same_fire i t) fires
    then fires
    else fires ++ record { schedule_id = i; at = t; delay = t - now } ∷ []

abbrev pub arm_if : Bool → ℕ → ℕ → Option ℕ → List FireEntry → List FireEntry
arm_if enabled now i (some t) fires = if enabled then add_fire now i t fires else fires
arm_if enabled now i none fires = fires

pub record CreateSchedule : Type 0 where
  pub name : Text
  pub instance_id : ℕ
  pub cron_expression : Text
  pub job_type : Text
  pub payload : Option Fields
  pub enabled : Option Bool

-- `try { getNextCronRun(...) } catch { throw new Error('Invalid cron expression: ...') }`.
abbrev pub next_or_throw : Calendar → Text → ℕ → Result ScheduleError ℕ
next_or_throw cal expression now = elim (get_next_cron_run cal expression now) [
  | err e ↦ err (invalid_cron expression)
  | ok t ↦ ok t
]

new_schedule : ℕ → ℕ → ℕ → ℕ → CreateSchedule → Schedule
new_schedule i org user next d = record {
  id = i;
  org_id = org;
  instance_id = d.instance_id;
  name = d.name;
  cron_expression = d.cron_expression;
  job_type = d.job_type;
  payload = d.payload;
  enabled = or_default d.enabled true;
  window_start = none;
  window_end = none;
  max_retries = none;
  backoff_ms = none;
  last_run_at = none;
  next_run_at = some next;
  last_run_status = none;
  last_run_job = none;
  run_count = 0;
  failure_count = 0;
  created_by = some user;
}

unfoldable pub create_schedule :
    Calendar → ℕ → ℕ → ℕ → CreateSchedule → State → Result ScheduleError (Schedule × State)
unfolding new_schedule
create_schedule cal now org user d st = do
  next ← next_or_throw cal d.cron_expression now
  let s = new_schedule st.world.next_id org user next d
  ok (
    s,
    record {
      world = record st.world { next_id = suc st.world.next_id };
      schedules = st.schedules ++ s ∷ [];
      fires = arm_if s.enabled now s.id (some next) st.fires;
    },
  )

pub record UpdateSchedule : Type 0 where
  pub enabled : Option Bool
  pub name : Option Text
  pub cron_expression : Option Text
  pub job_type : Option Text
  pub payload : Option Fields

-- The next time of the update: a new one if the expression is given and not empty.
abbrev pub next_of_update : Calendar → ℕ → Option Text → Option ℕ → Result ScheduleError (Option ℕ)
next_of_update cal now (some (c ∷ s)) old = next_or_throw cal (c ∷ s) now >>= λ t. ok (some t)
next_of_update cal now _ old = ok old

abbrev pub changed : UpdateSchedule → Option ℕ → Schedule → Schedule
changed d next s = record s {
  name = or_default d.name s.name;
  cron_expression = or_default d.cron_expression s.cron_expression;
  next_run_at = if is_some d.cron_expression then next else s.next_run_at;
  job_type = or_default d.job_type s.job_type;
  payload = or_else d.payload s.payload;
  enabled = or_default d.enabled s.enabled;
}

-- `schedulerQueue.remove(...)` of the old time's job.
abbrev pub disarm : ℕ → Option ℕ → List FireEntry → List FireEntry
disarm i none fires = fires
disarm i (some t) fires = delete_where (same_fire i t) fires

unfoldable pub update_schedule :
    Calendar → ℕ → ℕ → ℕ → UpdateSchedule → State → Result ScheduleError (Schedule × State)
update_schedule cal now org i d st = do
  existing ← or_throw (schedule_in_org org i st.schedules) schedule_not_found
  next ← next_of_update cal now d.cron_expression existing.next_run_at
  let updated = changed d next existing
  ok (
    updated,
    record st {
      schedules = update_where (λ s. s.id == i) (changed d next) st.schedules;
      fires =
          arm_if updated.enabled now updated.id updated.next_run_at
            (disarm existing.id existing.next_run_at st.fires);
    },
  )

unfoldable pub delete_schedule : ℕ → ℕ → State → Result ScheduleError State
delete_schedule org i st = do
  existing ← or_throw (schedule_in_org org i st.schedules) schedule_not_found
  ok (record st { schedules = delete_where (λ s. s.id == i) st.schedules })
