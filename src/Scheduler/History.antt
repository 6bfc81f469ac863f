-- ===== src/Scheduler/History.antt =====
-- scheduler.service.ts: the operations on schedules as the steps of one system.
use mastermind_7dtd_ai_serve.Base.{
  ℕ, ◌<◌, ◌≡◌, refl, sym, subst, true, false, some, ◌==◌, ==_iff, any, All-delete_where,
  HasDistinct-delete_where, All-find_first, find_first_holds,
}
use mastermind_7dtd_ai_serve.Base.Result.{ok, >>=-eq-ok, or_throw->>=, ok-injective}
use mastermind_7dtd_ai_serve.Cron.{Calendar}
use mastermind_7dtd_ai_serve.Scheduler.{
  Schedule, State, schedule_in_org, find_schedule, same_fire, CreateSchedule, create_schedule,
  UpdateSchedule, next_or_throw, next_of_update, update_schedule, schedule_not_found,
  delete_schedule,
}
use mastermind_7dtd_ai_serve.Scheduler.Arming.{is_queued, is_armed, IsArmed}
use mastermind_7dtd_ai_serve.Scheduler.Fire.{Fault, arm_fails}
use mastermind_7dtd_ai_serve.Scheduler.Rows.{row_added, only_row, row_changed}
use mastermind_7dtd_ai_serve.Scheduler.Armed.{work-IsArmed, hydrate_schedules-IsArmed}
use mastermind_7dtd_ai_serve.Scheduler.Worker.{work, hydrate_schedules}

-- One operation that succeeds, or one fire, in which one call may fail, but not the one that adds
-- the next job to the scheduler queue; `hydrated` is a start of the service.
pub data Step (cal : Calendar) : State → State → Type 0 where
  schedule_created :
      {st st' : State} (now org user : ℕ) (d : CreateSchedule) (s : Schedule)
      → create_schedule cal now org user d st ≡ ok (s, st')
      → Step cal st st'
  schedule_updated :
      {st st' : State} (now org i : ℕ) (d : UpdateSchedule) (s : Schedule)
      → update_schedule cal now org i d st ≡ ok (s, st')
      → Step cal st st'
  schedule_deleted :
      {st st' : State} (org i : ℕ) → delete_schedule org i st ≡ ok st' → Step cal st st'
  fired :
      {st st' : State} (fault : Fault) (now i : ℕ)
      → arm_fails fault ≡ false
      → st' ≡ work cal fault now i st
      → Step cal st st'
  hydrated : {st st' : State} (now : ℕ) → st' ≡ hydrate_schedules cal now st → Step cal st st'

pub data History (cal : Calendar) : State → State → Type 0 where
  done : {st : State} → History cal st st
  step : {st st1 st' : State} → Step cal st st1 → History cal st1 st' → History cal st st'

create_schedule-IsArmed :
    (cal : Calendar) (now org user : ℕ) (d : CreateSchedule) (s : Schedule) (st st' : State)
    → create_schedule cal now org user d st ≡ ok (s, st')
    → IsArmed st
    → IsArmed st'
unfolding create_schedule
create_schedule-IsArmed cal now org user d s st st' run a =
    let (next, e, same) = >>=-eq-ok (next_or_throw cal d.cron_expression now) _ run in
    let made = ok-injective same in
    subst (λ (q : Schedule × State). IsArmed q.1) made (row_added st _ now refl a)

update_schedule-IsArmed :
    (cal : Calendar) (now org i : ℕ) (d : UpdateSchedule) (s : Schedule) (st st' : State)
    → update_schedule cal now org i d st ≡ ok (s, st')
    → IsArmed st
    → IsArmed st'
unfolding update_schedule
update_schedule-IsArmed cal now org i d s st st' run a =
    let (old, found, run1) =
      or_throw->>= (schedule_in_org org i st.schedules) schedule_not_found _ run in
    let (next, e, same) =
      >>=-eq-ok (next_of_update cal now d.cron_expression old.next_run_at) _ run1 in
    subst (λ (q : Schedule × State). IsArmed q.1) (ok-injective same)
      (row_changed st old now i d next (only_row st org i old a found) a)

delete_schedule-IsArmed :
    (org i : ℕ) (st st' : State) → delete_schedule org i st ≡ ok st' → IsArmed st → IsArmed st'
unfolding delete_schedule
delete_schedule-IsArmed org i st st' run a =
    let (old, found, same) =
      or_throw->>= (schedule_in_org org i st.schedules) schedule_not_found _ run in
    subst IsArmed (ok-injective same) (record {
      distinct =
          HasDistinct-delete_where (λ (s : Schedule). s.id) (λ s. s.id == i) st.schedules
            a.distinct;
      fresh = All-delete_where (λ s. s.id < st.world.next_id) (λ s. s.id == i) st.schedules a.fresh;
      armed =
          All-delete_where (λ s. is_armed st.fires s ≡ true) (λ s. s.id == i) st.schedules a.armed;
    })

Step-IsArmed : (cal : Calendar) {st st' : State} → Step cal st st' → IsArmed st → IsArmed st'
Step-IsArmed cal {st} {st'} (schedule_created now org user d s run) a =
    create_schedule-IsArmed cal now org user d s st st' run a
Step-IsArmed cal {st} {st'} (schedule_updated now org i d s run) a =
    update_schedule-IsArmed cal now org i d s st st' run a
Step-IsArmed cal {st} {st'} (schedule_deleted org i run) a =
    delete_schedule-IsArmed org i st st' run a
Step-IsArmed cal {st} {st'} (fired fault now i taken e) a =
    subst IsArmed (sym e) (work-IsArmed cal fault now i st taken a)
Step-IsArmed cal {st} {st'} (hydrated now e) a =
    subst IsArmed (sym e) (hydrate_schedules-IsArmed cal now st a)

History-IsArmed : (cal : Calendar) {st st' : State} → History cal st st' → IsArmed st → IsArmed st'
History-IsArmed cal done a = a
History-IsArmed cal (step e h) a = History-IsArmed cal h (Step-IsArmed cal e a)

-- After any history of creating, changing and deleting schedules, of fires in which at most one call
-- fails, and not the one that adds the next job to the scheduler queue, and of starts of the
-- service, from a state with distinct schedule ids older than the next id in which every enabled
-- schedule with a next run has its job: the scheduler queue holds a job, waiting or finished, for
-- the next run of every enabled schedule that has one.
pub enabled_schedule_armed :
    (cal : Calendar) (st st' : State) (i t : ℕ) (s : Schedule)
    → History cal st st'
    → IsArmed st
    → find_schedule i st'.schedules ≡ some s
    → s.enabled ≡ true
    → s.next_run_at ≡ some t
    → any (same_fire i t) st'.fires ≡ true
enabled_schedule_armed cal st st' i t s h a found on next =
    let b = History-IsArmed cal h a in
    let queued : is_armed st'.fires s ≡ true =
      All-find_first (λ x. is_armed st'.fires x ≡ true) (λ x. x.id == i) st'.schedules b.armed
        found in
    let at_i : s.id ≡ i =
      (==_iff s.id i).0 (find_first_holds (λ (x : Schedule). x.id == i) st'.schedules found) in
    let waits : is_queued s.id s.next_run_at st'.fires ≡ true = rw on at queued in
    subst (λ k. any (same_fire k t) st'.fires ≡ true) at_i
      (subst (λ o. is_queued s.id o st'.fires ≡ true) next waits)
