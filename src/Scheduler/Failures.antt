-- ===== src/Scheduler/Failures.antt =====
-- scheduler.service.ts: the failures that are counted.
use mastermind_7dtd_ai_serve.Base.{
  ℕ, ◌+◌, ◌≡◌, refl, ◌∙◌, ap, ◌≢◌, sym, Bool, true, false, Option, some, ◌==◌, arith, if◌then◌else◌,
  find_first-update_self, find_first_holds,
}
use mastermind_7dtd_ai_serve.Schema.{ServerInstance}
use mastermind_7dtd_ai_serve.Cron.{Calendar}
use mastermind_7dtd_ai_serve.Scheduler.{
  Schedule, State, NextRun, no_run, invalid_date, run_at, compute_next_run, find_schedule,
}
use mastermind_7dtd_ai_serve.Scheduler.Fire.{
  Fault, no_fault, at_lookup, at_active, at_job, at_run, at_queue, at_update, at_arm, lookup_fails,
  active_fails, succeeded, has_active_run, failed_fire, catch_fire, run_schedule, fire_enabled,
  find_server, process_schedule_fire, process_schedule_fire_found,
}
use mastermind_7dtd_ai_serve.Scheduler.Worker.{handle_worker_failure, work}

-- Whether a call in the try block fails, which creates the job, its run and its queue entry, updates
-- the schedule and, where it has a next time, adds its next job.
abbrev pub breaks : Fault → NextRun → Bool
breaks at_job _ = true
breaks at_run _ = true
breaks at_queue _ = true
breaks at_update _ = true
breaks at_arm (run_at t) = true
breaks _ _ = false

failing_fire :
    (fault : Fault) (now : ℕ) (s : Schedule) (si : ServerInstance) (next : NextRun) (st : State)
    → breaks fault next ≡ true
    → find_schedule s.id st.schedules ≡ some s
    → (job : Option ℕ) × (st1 : State) × (s1 : Schedule) × (run_schedule fault now s si next st
        ≡ catch_fire now s.id next job st1)
      × (find_schedule s.id st1.schedules ≡ some s1)
      × (s1.failure_count ≡ s.failure_count)
unfolding run_schedule
failing_fire at_job now s si next st h found = (_, _, s, refl, found, refl)
failing_fire at_run now s si next st h found = (_, _, s, refl, found, refl)
failing_fire at_queue now s si next st h found = (_, _, s, refl, found, refl)
failing_fire at_update now s si next st h found = (_, _, s, refl, found, refl)
failing_fire at_arm now s si (run_at t) st h found = (
  _,
  _,
  _,
  refl,
  find_first-update_self (λ (x : Schedule). x.id) (succeeded now st.world.next_id (some t)) s.id
      st.schedules (λ x. refl) found,
  refl,
)
failing_fire at_arm now s si no_run st h found = cc
failing_fire at_arm now s si invalid_date st h found = cc
failing_fire no_fault now s si next st h found = cc
failing_fire at_lookup now s si next st h found = cc
failing_fire at_active now s si next st h found = cc

breaks-lookup_fails :
    (fault : Fault) (next : NextRun)
    → breaks fault next ≡ true
    → (lookup_fails fault ≡ false) × (active_fails fault ≡ false)
breaks-lookup_fails at_job next h = (refl, refl)
breaks-lookup_fails at_run next h = (refl, refl)
breaks-lookup_fails at_queue next h = (refl, refl)
breaks-lookup_fails at_update next h = (refl, refl)
breaks-lookup_fails at_arm next h = (refl, refl)
breaks-lookup_fails no_fault next h = cc
breaks-lookup_fails at_lookup next h = cc
breaks-lookup_fails at_active next h = cc

counted :
    (now i : ℕ) (next : NextRun) (job : Option ℕ) (st : State) {s : Schedule}
    → next ≢ invalid_date
    → find_schedule i st.schedules ≡ some s
    → (s' : Schedule) × (find_schedule i
          (handle_worker_failure i (catch_fire now i next job st).1).schedules
        ≡ some s')
      × (s'.failure_count ≡ s.failure_count + 2)
unfolding handle_worker_failure catch_fire
counted now i invalid_date job st valid found = absurd (valid refl)
counted now i no_run job st valid found = (
  _,
  find_first-update_self (λ (x : Schedule). x.id) _ i _ (λ x. refl)
      (find_first-update_self (λ (x : Schedule). x.id) (λ x. failed_fire now job x.next_run_at x) i
        st.schedules (λ x. refl) found),
  omega arith,
)
counted now i (run_at t) job st valid found = (
  _,
  find_first-update_self (λ (x : Schedule). x.id) _ i _ (λ x. refl)
      (find_first-update_self (λ (x : Schedule). x.id) (failed_fire now job (some t)) i st.schedules
        (λ x. refl) found),
  omega arith,
)

-- A fire of an enabled schedule without an active run, in which a call of the try block fails (one
-- that creates the job, its run or its queue entry, the schedule's update, or, where there is a next
-- time, the call that adds the next job) and whose next time is valid or absent, raises the
-- schedule's count of failures by two: once where the exception is caught, and once in the worker's
-- handler of the exception thrown on.
pub work_counts_twice :
    (cal : Calendar) (fault : Fault) (now i : ℕ) (st : State) (s : Schedule) (si : ServerInstance)
    → breaks fault (compute_next_run cal s now) ≡ true
    → find_schedule i st.schedules ≡ some s
    → s.enabled ≡ true
    → find_server s.instance_id st.world ≡ some si
    → has_active_run s si st.world ≡ false
    → compute_next_run cal s now ≢ invalid_date
    → (s' : Schedule) × (find_schedule i (work cal fault now i st).schedules ≡ some s')
      × (s'.failure_count ≡ s.failure_count + 2)
unfolding work fire_enabled
work_counts_twice cal fault now i st s si failing found on server idle valid =
    let next = compute_next_run cal s now in
    let (looked, active) = breaks-lookup_fails fault next failing in
    let id_i : s.id ≡ i =
      ground (arith, find_first_holds (λ (x : Schedule). x.id == i) st.schedules found) in
    let (job, st1, s1, failed, found1, kept) =
      failing_fire fault now s si next st failing
        (ap (λ k. find_schedule k st.schedules) id_i ∙ found) in
    let run : process_schedule_fire cal fault now i st ≡ catch_fire now i next job st1 =
      process_schedule_fire_found cal fault now i st s si looked found on server
      ∙ (rw (active, idle, fire_enabled) failed)
      ∙ ap (λ k. catch_fire now k next job st1) id_i in
    let done : work cal fault now i st ≡ handle_worker_failure i (catch_fire now i next job st1).1 =
      ap (λ r. if r.0 then handle_worker_failure i r.1 else r.1) run
      ∙ (unfold catch_fire in refl) in
    let (s', found', twice) =
      counted now i next job st1 valid
        (ap (λ k. find_schedule k st1.schedules) (sym id_i) ∙ found1) in
    (s', ap (λ v. find_schedule i v.schedules) done ∙ found', twice ∙ ap (λ k. k + 2) kept)
