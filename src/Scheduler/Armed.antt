-- ===== src/Scheduler/Armed.antt =====
-- scheduler.service.ts: a fire, the worker and hydrateSchedules keep the queue's jobs for the schedules' next runs.
use mastermind_7dtd_ai_serve.Base.{
  if◌then◌else◌, ℕ, ◌⊎◌, ◌≤◌, ◌<◌, ◌≡◌, refl, Bool, true, false, inl, inr, Option, none, some, List,
  [], ◌∷◌, arith, ◌==◌, Bool-cases, Option-cases, update_where, All-map, All-update_where,
  All-updated, HasDistinct-update_where,
}
use mastermind_7dtd_ai_serve.Schema.{ServerInstance}
use mastermind_7dtd_ai_serve.World.{World}
use mastermind_7dtd_ai_serve.Cron.{Calendar}
use mastermind_7dtd_ai_serve.Scheduler.{
  Schedule, State, NextRun, no_run, invalid_date, run_at, add_fire, find_schedule, compute_next_run,
}
use mastermind_7dtd_ai_serve.Scheduler.Arming.{is_armed, IsArmed, add_fire-any, is_armed-add_fire}
use mastermind_7dtd_ai_serve.Scheduler.Fire.{
  Fault, at_lookup, at_active, at_update, at_arm, lookup_fails, active_fails, update_fails,
  arm_fails, note_fire, finish_fire, no_fault, at_job, at_run, at_queue, re_arm, skipped, succeeded,
  failed_fire, catch_fire, run_schedule, fire_enabled, has_active_run, find_server, fire_when,
  process_schedule_fire, add_scheduled_job, add_scheduled_run, queue_scheduled,
}
use mastermind_7dtd_ai_serve.Scheduler.Worker.{
  handle_worker_failure, work, hydrate_from, hydrate_schedules,
}

-- An update of rows that leaves the id, the flag and the next run.
touched :
    (p : Schedule → Bool) (f : Schedule → Schedule) (st : State)
    → ((s : Schedule) → (f s).id ≡ s.id)
    → ((s : Schedule) → is_armed st.fires s ≡ true → is_armed st.fires (f s) ≡ true)
    → IsArmed st
    → IsArmed (record st { schedules = update_where p f st.schedules })
touched p f st same keep a = record {
  distinct = HasDistinct-update_where (λ s. s.id) p f st.schedules same a.distinct;
  fresh =
      All-update_where (λ s. s.id < st.world.next_id) p f st.schedules (λ s l. rw (same s) l)
        a.fresh;
  armed = All-update_where (λ s. is_armed st.fires s ≡ true) p f st.schedules keep a.armed;
}

-- The state of the jobs does not matter, but for the next id.
moved :
    (w : World) (st : State)
    → st.world.next_id ≤ w.next_id
    → IsArmed st
    → IsArmed (record st { world = w })
moved w st l a = record {
  distinct = a.distinct;
  fresh = All-map (λ s k. omega arith) st.schedules a.fresh;
  armed = a.armed;
}

-- An update of a schedule's row that only notes a fire.
abbrev OnlyNotes : (Option ℕ → Schedule → Schedule) → Type 0
OnlyNotes f =
    (o : Option ℕ) (s : Schedule)
    → ((f o s).id ≡ s.id) × ((f o s).enabled ≡ s.enabled) × ((f o s).next_run_at ≡ o)

re_arm-IsArmed :
    (now i : ℕ) (next : NextRun) (f : Option ℕ → Schedule → Schedule) (st : State)
    → OnlyNotes f
    → IsArmed st
    → IsArmed (re_arm false now i next f st).1
re_arm-IsArmed now i invalid_date f st notes a = a
re_arm-IsArmed now i no_run f st notes a =
    touched (λ s. s.id == i) (λ s. f s.next_run_at s) st (λ s. (notes s.next_run_at s).0)
      (λ s h. let (q, b, n) = notes s.next_run_at s in rw (q, b, n) h) a
re_arm-IsArmed now i (run_at t) f st notes a = record {
  distinct =
      HasDistinct-update_where (λ s. s.id) (λ s. s.id == i) (f (some t)) st.schedules
        (λ s. (notes (some t) s).0) a.distinct;
  fresh =
      All-update_where (λ s. s.id < st.world.next_id) (λ s. s.id == i) (f (some t)) st.schedules
        (λ s l. rw ((notes (some t) s).0) l) a.fresh;
  armed =
      All-updated (λ s. is_armed (add_fire now i t st.fires) s ≡ true) (λ s. s.id == i) (f (some t))
        st.schedules
        (All-map
          (λ s h. (
            (λ (here : (s.id == i) ≡ true).
                let (q, b, n) = notes (some t) s in
                rw (q, b, n) (ground (arith, add_fire-any now i t st.fires))),
            (λ (other : (s.id == i) ≡ false). is_armed-add_fire s now i t st.fires h),
          ))
          st.schedules a.armed);
}

catch_fire-IsArmed :
    (now i : ℕ) (next : NextRun) (job : Option ℕ) (st : State)
    → IsArmed st
    → IsArmed (catch_fire now i next job st).1
unfolding catch_fire
catch_fire-IsArmed now i next job st a =
    re_arm-IsArmed now i next (failed_fire now job) st (λ o s. (refl, refl, refl)) a

-- The updates of a fire, where the queue takes the next job.
note_fire-IsArmed :
    (fault : Fault) (now i : ℕ) (next : NextRun) (f : Option ℕ → Schedule → Schedule) (st : State)
    → OnlyNotes f
    → arm_fails fault ≡ false
    → IsArmed st
    → IsArmed (note_fire fault now i next f st).1
note_fire-IsArmed fault now i next f st notes taken a = elim (Bool-cases (update_fails fault)) [
  | inl t ↦ rw t a
  | inr g ↦ rw (g, taken) (re_arm-IsArmed now i next f st notes a)
]

finish_fire-IsArmed :
    (fault : Fault) (now i : ℕ) (next : NextRun) (job : ℕ) (st : State)
    → arm_fails fault ≡ false
    → IsArmed st
    → IsArmed (finish_fire fault now i next job st).1
finish_fire-IsArmed fault now i next job st taken a =
    let r = note_fire fault now i next (succeeded now job) st in
    let noted : IsArmed r.1 =
      note_fire-IsArmed fault now i next (succeeded now job) st (λ o s. (refl, refl, refl)) taken
        a in
    caught r.0 r.1 noted
  where
    caught :
        (b : Bool) (v : State)
        → IsArmed v
        → IsArmed (if b then catch_fire now i next (some job) v else (b, v)).1
    caught true v k = catch_fire-IsArmed now i next (some job) v k
    caught false v k = k

run_schedule-IsArmed :
    (fault : Fault) (now : ℕ) (s : Schedule) (si : ServerInstance) (next : NextRun) (st : State)
    → arm_fails fault ≡ false
    → IsArmed st
    → IsArmed (run_schedule fault now s si next st).1
unfolding run_schedule add_scheduled_job add_scheduled_run queue_scheduled
run_schedule-IsArmed at_job now s si next st taken a = catch_fire-IsArmed now s.id next none st a
run_schedule-IsArmed at_run now s si next st taken a =
    catch_fire-IsArmed now s.id next none _
      (moved (add_scheduled_job s si st.world) st (omega arith) a)
run_schedule-IsArmed at_queue now s si next st taken a =
    catch_fire-IsArmed now s.id next (some st.world.next_id) _ (moved _ st (omega arith) a)
run_schedule-IsArmed at_lookup now s si next st taken a =
    finish_fire-IsArmed at_lookup now s.id next st.world.next_id _ taken
      (moved _ st (omega arith) a)
run_schedule-IsArmed at_active now s si next st taken a =
    finish_fire-IsArmed at_active now s.id next st.world.next_id _ taken
      (moved _ st (omega arith) a)
run_schedule-IsArmed at_update now s si next st taken a =
    finish_fire-IsArmed at_update now s.id next st.world.next_id _ taken
      (moved _ st (omega arith) a)
run_schedule-IsArmed at_arm now s si next st taken a = cc
run_schedule-IsArmed no_fault now s si next st taken a =
    finish_fire-IsArmed no_fault now s.id next st.world.next_id _ taken (moved _ st (omega arith) a)

fire_enabled-IsArmed :
    (fault : Fault) (now : ℕ) (s : Schedule) (si : ServerInstance) (next : NextRun) (st : State)
    → arm_fails fault ≡ false
    → IsArmed st
    → IsArmed (fire_enabled fault now s si next st).1
unfolding fire_enabled
fire_enabled-IsArmed fault now s si next st taken a = elim (Bool-cases (active_fails fault)) [
  | inl t ↦ rw t a
  | inr k ↦ elim (Bool-cases (has_active_run s si st.world)) [
    | inl t ↦
        rw (k, t, fire_enabled)
          (note_fire-IsArmed fault now s.id next (skipped now) st (λ o s. (refl, refl, refl)) taken
            a)
    | inr g ↦ rw (k, g, fire_enabled) (run_schedule-IsArmed fault now s si next st taken a)
  ]
]

fire_when-IsArmed :
    (cal : Calendar) (fault : Fault) (now : ℕ) (s : Schedule) (b : Bool) (o : Option ServerInstance)
    (st : State)
    → arm_fails fault ≡ false
    → IsArmed st
    → IsArmed (fire_when cal fault now s b o st).1
fire_when-IsArmed cal fault now s false o st taken a = a
fire_when-IsArmed cal fault now s true none st taken a = a
fire_when-IsArmed cal fault now s true (some si) st taken a =
    fire_enabled-IsArmed fault now s si (compute_next_run cal s now) st taken a

pub process_schedule_fire-IsArmed :
    (cal : Calendar) (fault : Fault) (now i : ℕ) (st : State)
    → arm_fails fault ≡ false
    → IsArmed st
    → IsArmed (process_schedule_fire cal fault now i st).1
unfolding process_schedule_fire
process_schedule_fire-IsArmed cal fault now i st taken a = elim (Bool-cases (lookup_fails fault)) [
  | inl t ↦ rw t a
  | inr g ↦ elim (Option-cases (find_schedule i st.schedules)) [
    | inl e ↦ rw (g, e, process_schedule_fire) a
    | inr (s, e) ↦
        rw (g, e, process_schedule_fire)
          (fire_when-IsArmed cal fault now s s.enabled (find_server s.instance_id st.world) st taken
            a)
  ]
]

pub work-IsArmed :
    (cal : Calendar) (fault : Fault) (now i : ℕ) (st : State)
    → arm_fails fault ≡ false
    → IsArmed st
    → IsArmed (work cal fault now i st)
unfolding work handle_worker_failure
work-IsArmed cal fault now i st taken a =
    let fired = process_schedule_fire-IsArmed cal fault now i st taken a in
    elim (Bool-cases (process_schedule_fire cal fault now i st).0) [
      | inl t ↦ rw t (touched (λ s. s.id == i) _ _ (λ s. refl) (λ s h. h) fired)
      | inr g ↦ rw g fired
    ]

next_cases : (n : NextRun) → (n ≡ no_run) ⊎ (n ≡ invalid_date) ⊎ ((t : ℕ) × (n ≡ run_at t))
next_cases no_run = inl refl
next_cases invalid_date = inr (inl refl)
next_cases (run_at t) = inr (inr (t, refl))

hydrate_from-IsArmed :
    (cal : Calendar) (now : ℕ) (ss : List Schedule) (st : State)
    → IsArmed st
    → IsArmed (hydrate_from cal now ss st)
unfolding hydrate_from
hydrate_from-IsArmed cal now [] st a = a
hydrate_from-IsArmed cal now (s ∷ ss) st a = elim (next_cases (compute_next_run cal s now)) [
  | inl e ↦ rw (e, hydrate_from) (hydrate_from-IsArmed cal now ss st a)
  | inr (inl e) ↦ rw (e, hydrate_from) a
  | inr (inr (t, e)) ↦
      rw (e, hydrate_from)
        (hydrate_from-IsArmed cal now ss _ (
          re_arm-IsArmed now s.id (run_at t) (λ o x. record x { next_run_at = o }) st
            (λ o x. (refl, refl, refl)) a))
]

pub hydrate_schedules-IsArmed :
    (cal : Calendar) (now : ℕ) (st : State) → IsArmed st → IsArmed (hydrate_schedules cal now st)
unfolding hydrate_schedules
hydrate_schedules-IsArmed cal now st a = hydrate_from-IsArmed cal now _ st a
