-- ===== src/Scheduler/Worker.antt =====
-- scheduler.service.ts: the worker of the scheduler queue, and hydrateSchedules.
use mastermind_7dtd_ai_serve.Base.{ℕ, ◌+◌, some, List, [], ◌∷◌, ◌==◌, if◌then◌else◌, update_where}
use mastermind_7dtd_ai_serve.Base.Text.{lit}
use mastermind_7dtd_ai_serve.Cron.{Calendar}
use mastermind_7dtd_ai_serve.Scheduler.{
  Schedule, State, no_run, invalid_date, run_at, compute_next_run, add_fire,
}
use mastermind_7dtd_ai_serve.Scheduler.Fire.{Fault, process_schedule_fire}

unfoldable pub handle_worker_failure : ℕ → State → State
handle_worker_failure i st = record st {
  schedules =
      update_where (λ s. s.id == i)
        (λ s. record s {
          last_run_status = some (lit "scheduler_failed");
          failure_count = s.failure_count + 1;
        })
        st.schedules;
}

-- The worker calls `processScheduleFire`, and its `failed` handler where that throws.
unfoldable pub work : Calendar → Fault → ℕ → ℕ → State → State
work cal fault now i st =
    let (thrown, after) = process_schedule_fire cal fault now i st in
    if thrown then handle_worker_failure i after else after

unfoldable pub hydrate_from : Calendar → ℕ → List Schedule → State → State
hydrate_from cal now [] st = st
hydrate_from cal now (s ∷ ss) st = elim (compute_next_run cal s now) [
  | no_run ↦ hydrate_from cal now ss st
  | invalid_date ↦ st
  | run_at t ↦ hydrate_from cal now ss (record st {
    schedules =
        update_where (λ x. x.id == s.id) (λ x. record x { next_run_at = some t }) st.schedules;
    fires = add_fire now s.id t st.fires;
  })
]

enabled_schedules : List Schedule → List Schedule
enabled_schedules [] = []
enabled_schedules (s ∷ ss) = let rest = enabled_schedules ss in if s.enabled then s ∷ rest else rest

-- `hydrateSchedules` at the module's start.
unfoldable pub hydrate_schedules : Calendar → ℕ → State → State
unfolding enabled_schedules
hydrate_schedules cal now st = hydrate_from cal now (enabled_schedules st.schedules) st
