-- ===== src/Examples/Schedules.antt =====
-- A nightly restart of the sample organisation's first server.
use mastermind_7dtd_ai_serve.Base.{
  ℕ, arith, update_where, ◌+◌, ◌≡◌, refl, ◌≢◌, true, false, Option, none, some, [], ◌∷◌, any,
  find_first,
}
use mastermind_7dtd_ai_serve.Base.Text.{
  Text, lit, trim, text_eq, split, is_space, digits_from, is_digit,
}
use mastermind_7dtd_ai_serve.Base.Result.{ok}
use mastermind_7dtd_ai_serve.Schema.{get_field}
use mastermind_7dtd_ai_serve.Cron.{
  get_next_cron_run, parse_cron, words, parse_set, parse_items, parse_item, match_step, parse_int,
  allows, matches, search_from, first_candidate,
}
use mastermind_7dtd_ai_serve.Cron.ExecutionWindow.{clamp_to_execution_window}
use mastermind_7dtd_ai_serve.Scheduler.{
  Schedule, State, invalid_date, run_at, compute_next_run, find_schedule, schedule_in_org,
  same_fire, UpdateSchedule, update_schedule, delete_schedule,
}
use mastermind_7dtd_ai_serve.Scheduler.Fire.{
  no_fault, at_job, at_queue, find_server, has_active_run, fire_enabled, run_schedule,
  process_schedule_fire,
}
use mastermind_7dtd_ai_serve.Scheduler.Worker.{work}
use mastermind_7dtd_ai_serve.Scheduler.Queued.{IsQueued}
use mastermind_7dtd_ai_serve.Scheduler.Stacking.{process_schedule_fire_once}
use mastermind_7dtd_ai_serve.Scheduler.Changes.{delete_schedule-fire}
use mastermind_7dtd_ai_serve.Scheduler.Arming.{IsArmed}
use mastermind_7dtd_ai_serve.Scheduler.History.{
  schedule_updated, fired, done, step, enabled_schedule_armed,
}
use mastermind_7dtd_ai_serve.Scheduler.Failures.{work_counts_twice}
use mastermind_7dtd_ai_serve.Examples.Waves.{ok_or, empty_world, server}
use mastermind_7dtd_ai_serve.Examples.Crons.{utc}

abbrev nightly : Schedule
nightly = record {
  id = 6;
  org_id = 7;
  instance_id = 1;
  name = lit "nightly";
  cron_expression = lit "1 * * * *";
  job_type = lit "server_restart";
  payload = none;
  enabled = true;
  window_start = none;
  window_end = none;
  max_retries = none;
  backoff_ms = none;
  last_run_at = none;
  next_run_at = some 60000;
  last_run_status = none;
  last_run_job = none;
  run_count = 0;
  failure_count = 0;
  created_by = some 5;
}

abbrev planned : State
planned = record { world = empty_world; schedules = nightly ∷ []; fires = [] }

nightly_facts :
    (find_schedule 6 planned.schedules ≡ some nightly)
    × (find_server 1 planned.world ≡ some (server 1 3))
    × (has_active_run nightly (server 1 3) planned.world ≡ false)
    × (schedule_in_org 7 6 planned.schedules ≡ some nightly)
unfolding find_first find_server has_active_run any
nightly_facts = (refl, refl, refl, refl)

process_schedule_fire_once_example :
    let st1 = (process_schedule_fire utc no_fault 60000 6 planned).1 in
    IsQueued nightly (server 1 3) 60000 planned.world st1.world
    × ((process_schedule_fire utc at_queue 120000 6 st1).1.world ≡ st1.world)
unfolding get_field
process_schedule_fire_once_example =
    process_schedule_fire_once utc at_queue 60000 120000 6 planned nightly (server 1 3)
      nightly_facts.0 refl nightly_facts.1 nightly_facts.2 tt tt refl

abbrev deleted : State
deleted = ok_or (delete_schedule 7 6 planned) planned

deleted_eq : delete_schedule 7 6 planned ≡ ok deleted
unfolding delete_schedule find_first
deleted_eq = refl

delete_schedule-fire_example : process_schedule_fire utc no_fault 60000 6 deleted ≡ (false, deleted)
delete_schedule-fire_example =
    delete_schedule-fire utc no_fault 60000 7 6 planned deleted deleted_eq

abbrev moved : Option Text → UpdateSchedule
moved cron = record {
  enabled = none;
  name = none;
  cron_expression = cron;
  job_type = none;
  payload = none;
}

is_run_at : (t : ℕ) → run_at t ≢ invalid_date
is_run_at t h = cc

nightly_next : compute_next_run utc nightly 60000 ≢ invalid_date
unfolding compute_next_run clamp_to_execution_window lit get_next_cron_run parse_cron words trim
    is_space parse_set parse_items parse_item match_step parse_int text_eq split digits_from
    is_digit allows any matches search_from first_candidate
nightly_next = is_run_at 3660000

work_counts_twice_example :
    (s' : Schedule) × (find_schedule 6 (work utc at_job 60000 6 planned).schedules ≡ some s')
    × (s'.failure_count ≡ nightly.failure_count + 2)
work_counts_twice_example =
    work_counts_twice utc at_job 60000 6 planned nightly (server 1 3) refl nightly_facts.0 refl
      nightly_facts.1 nightly_facts.2 nightly_next

-- The nightly restart waits in the queue, fires, and gets another time.
abbrev waiting : State
waiting = record planned { fires = record { schedule_id = 6; at = 60000; delay = 0 } ∷ [] }

waiting-IsArmed : IsArmed waiting
unfolding any
waiting-IsArmed = record { distinct = (tt, tt); fresh = (omega arith, tt); armed = (refl, tt) }

abbrev restarted : State
restarted = work utc no_fault 60000 6 waiting

abbrev rescheduled : Schedule × State
rescheduled =
    ok_or (update_schedule utc 70000 7 6 (moved (some (lit "2 * * * *"))) restarted)
      (nightly, restarted)

rescheduled_facts :
    (update_schedule utc 70000 7 6 (moved (some (lit "2 * * * *"))) restarted
      ≡ ok (rescheduled.0, rescheduled.1))
    × (find_schedule 6 rescheduled.1.schedules ≡ some rescheduled.0)
    × (rescheduled.0.enabled ≡ true)
    × (rescheduled.0.next_run_at ≡ some 120000)
unfolding update_schedule find_first lit get_next_cron_run parse_cron words trim is_space parse_set
    parse_items parse_item match_step parse_int text_eq split digits_from is_digit allows any
    matches search_from first_candidate work process_schedule_fire find_server fire_enabled
    has_active_run run_schedule compute_next_run clamp_to_execution_window update_where
rescheduled_facts = (refl, refl, refl, refl)

enabled_schedule_armed_example : any (same_fire 6 120000) rescheduled.1.fires ≡ true
enabled_schedule_armed_example =
    enabled_schedule_armed utc waiting rescheduled.1 6 120000 rescheduled.0
      (step (fired no_fault 60000 6 refl refl) (
        step
          (schedule_updated 70000 7 6 (moved (some (lit "2 * * * *"))) rescheduled.0
            rescheduled_facts.0)
          done))
      waiting-IsArmed rescheduled_facts.1 rescheduled_facts.2 rescheduled_facts.3
