-- ===== src/Scheduler/Stacking.antt =====
-- scheduler.service.ts `processScheduleFire`: periodic work is not stacked.
use mastermind_7dtd_ai_serve.Base.{
  ℕ, Bool, inl, inr, Bool-cases, suc, ◌≡◌, refl, sym, ◌∙◌, ap, ◌≢◌, true, false, Option, none, some,
  ◌==◌, arith, or_default, subst, find_first, All, find_first-update_self, find_first_holds,
}
use mastermind_7dtd_ai_serve.Base.Text.{lit}
use mastermind_7dtd_ai_serve.Schema.{end, get_field, ServerInstance}
use mastermind_7dtd_ai_serve.World.{World}
use mastermind_7dtd_ai_serve.Cron.{Calendar}
use mastermind_7dtd_ai_serve.Scheduler.{
  Schedule, State, NextRun, no_run, invalid_date, run_at, compute_next_run, find_schedule,
}
use mastermind_7dtd_ai_serve.Scheduler.Fire.{
  Fault, no_fault, lookup_fails, active_fails, update_fails, arm_fails, effective_job_type,
  is_job_of, has_active_run, re_arm, skipped, succeeded, finish_fire, run_schedule, fire_enabled,
  catch_fire, find_server, process_schedule_fire, process_schedule_fire_found,
}
use mastermind_7dtd_ai_serve.Scheduler.Queued.{
  after_fire, after_fire-active, after_fire-instances, IsQueued, after_fire-IsQueued,
}

re_arm-world :
    (b : Bool) (now i : ℕ) (n : NextRun) (f : Option ℕ → Schedule → Schedule) (st : State)
    → (re_arm b now i n f st).1.world ≡ st.world
re_arm-world b now i no_run f st = refl
re_arm-world b now i invalid_date f st = refl
re_arm-world b now i (run_at t) f st = refl

-- What a later fire reads of a schedule is not changed by a fire.
abbrev IsPlan : Schedule → Schedule → Type 0
IsPlan s s' =
    (s'.enabled ≡ s.enabled)
    × (s'.instance_id ≡ s.instance_id)
    × ((si : ServerInstance) (w : World) → has_active_run s' si w ≡ has_active_run s si w)

finish_fire-IsPlan :
    (now job : ℕ) (n : NextRun) (s : Schedule) (st : State)
    → find_schedule s.id st.schedules ≡ some s
    → (s' : Schedule) × (find_schedule s.id (finish_fire no_fault now s.id n job st).1.schedules
        ≡ some s')
      × IsPlan s s'
      × ((finish_fire no_fault now s.id n job st).1.world ≡ st.world)
unfolding has_active_run is_job_of effective_job_type catch_fire
finish_fire-IsPlan now job invalid_date s st found = (s, found, (refl, refl, λ si w. refl), refl)
finish_fire-IsPlan now job no_run s st found = (
  _,
  find_first-update_self (λ (x : Schedule). x.id) (λ x. succeeded now job x.next_run_at x) s.id
      st.schedules (λ x. refl) found,
  (refl, refl, λ si w. refl),
  refl,
)
finish_fire-IsPlan now job (run_at t) s st found = (
  _,
  find_first-update_self (λ (x : Schedule). x.id) (succeeded now job (some t)) s.id st.schedules
      (λ x. refl) found,
  (refl, refl, λ si w. refl),
  refl,
)

find_server_same :
    (i : ℕ) (v w : World) → v.instances ≡ w.instances → find_server i v ≡ find_server i w
unfolding find_server
find_server_same i v w h = ap (find_first (λ si. si.id == i)) h

fire_busy :
    (cal : Calendar) (fault : Fault) (now i : ℕ) (st : State) (s : Schedule) (si : ServerInstance)
    → find_schedule i st.schedules ≡ some s
    → s.enabled ≡ true
    → find_server s.instance_id st.world ≡ some si
    → has_active_run s si st.world ≡ true
    → (process_schedule_fire cal fault now i st).1.world ≡ st.world
unfolding fire_enabled
fire_busy cal fault now i st s si found on server busy = elim (Bool-cases (lookup_fails fault)) [
  | inl t ↦ unfold process_schedule_fire in rw t refl
  | inr g ↦
      ap (λ r. r.1.world) (process_schedule_fire_found cal fault now i st s si g found on server)
      ∙ busy_world (compute_next_run cal s now)
]
  where
    busy_world : (next : NextRun) → (fire_enabled fault now s si next st).1.world ≡ st.world
    busy_world next = elim (Bool-cases (active_fails fault)) [
      | inl t ↦ rw t refl
      | inr g ↦
          rw (g, busy, fire_enabled)
            (elim (Bool-cases (update_fails fault)) [
              | inl u ↦ rw u refl
              | inr v ↦ rw v (re_arm-world (arm_fails fault) now s.id next (skipped now) st)
            ])
    ]

fire_idle :
    (cal : Calendar) (now i : ℕ) (st : State) (s : Schedule) (si : ServerInstance)
    → find_schedule i st.schedules ≡ some s
    → s.enabled ≡ true
    → find_server s.instance_id st.world ≡ some si
    → has_active_run s si st.world ≡ false
    → process_schedule_fire cal no_fault now i st
      ≡ finish_fire no_fault now s.id
          (compute_next_run cal s now)
          st.world.next_id
          (record st { world = after_fire s si now st.world })
unfolding fire_enabled run_schedule
fire_idle cal now i st s si found on server idle =
    process_schedule_fire_found cal no_fault now i st s si refl found on server
    ∙ rw (idle, fire_enabled) refl

-- When an enabled schedule without an active run fires and all calls succeed, a job of it, a pending
-- run and a queue entry for that run are added behind the others, as `IsQueued` says, and a fire
-- directly after it leaves the job tables and queues as they are, whatever its clock and faults. The
-- new ids must be fresh among the jobs and the queue, and the schedule's payload must not set
-- `schedule_id` itself.
pub process_schedule_fire_once :
    (cal : Calendar) (fault : Fault) (now later i : ℕ) (st : State) (s : Schedule)
    (si : ServerInstance)
    → find_schedule i st.schedules ≡ some s
    → s.enabled ≡ true
    → find_server s.instance_id st.world ≡ some si
    → has_active_run s si st.world ≡ false
    → All (λ j. j.id ≢ st.world.next_id) st.world.jobs
    → All (λ e. e.contents.job_run_id ≢ suc st.world.next_id) st.world.queue
    → get_field (lit "schedule_id") (or_default s.payload end) ≡ none
    → let st1 = (process_schedule_fire cal no_fault now i st).1 in
      IsQueued s si now st.world st1.world
      × ((process_schedule_fire cal fault later i st1).1.world ≡ st1.world)
process_schedule_fire_once cal fault now later i st s si found on server idle fresh new own =
    let first = fire_idle cal now i st s si found on server idle in
    let done = record st { world = after_fire s si now st.world } in
    let id_i : s.id ≡ i =
      ground (arith, find_first_holds (λ (x : Schedule). x.id == i) st.schedules found) in
    let next = compute_next_run cal s now in
    let (s', found', (on', place, active), kept) =
      finish_fire-IsPlan now st.world.next_id next s done
        (ap (λ k. find_schedule k st.schedules) id_i ∙ found) in
    let settled = (finish_fire no_fault now s.id next st.world.next_id done).1 in
    let again : (process_schedule_fire cal fault later i settled).1.world ≡ settled.world =
      fire_busy cal fault later i settled s' si
        (ap (λ k. find_schedule k settled.schedules) (sym id_i) ∙ found') (on' ∙ on)
        (ap (λ w. find_server s'.instance_id w) kept
          ∙ (at_server s'.instance_id s.instance_id place ∙ server))
        (active si settled.world
          ∙ ap (has_active_run s si) kept
          ∙ after_fire-active s si now st.world fresh own) in
    (
      subst (λ r. IsQueued s si now st.world r.1.world) (sym first)
          (subst (IsQueued s si now st.world) (sym kept)
            (after_fire-IsQueued s si now st.world new own)),
      ap (λ r. (process_schedule_fire cal fault later i r.1).1.world) first
          ∙ again
          ∙ sym (ap (λ r. r.1.world) first),
    )
  where
    at_server :
        (a b : ℕ) → a ≡ b → find_server a (after_fire s si now st.world) ≡ find_server b st.world
    at_server a b e = rw e (
        find_server_same b (after_fire s si now st.world) st.world
          (after_fire-instances s si now st.world))
