-- ===== src/Scheduler/Changes.antt =====
-- scheduler.service.ts: deleting and changing a schedule.
use mastermind_7dtd_ai_serve.Base.{
  ℕ, ◌≡◌, refl, sym, ◌∙◌, ap, Bool, true, false, Option, none, some, [], ◌∷◌, ◌==◌, inl, inr, ◌⊎◌,
  update_where, any, Bool-cases, Option-cases, delete_where-All, find_first-none, unless_false,
}
use mastermind_7dtd_ai_serve.Base.Text.{Text, trim}
use mastermind_7dtd_ai_serve.Base.Result.{Result-cases, ok, err, >>=-eq-ok, ok-injective}
use mastermind_7dtd_ai_serve.Cron.{
  Calendar, expected_five_fields, get_next_cron_run, parse_cron, words,
}
use mastermind_7dtd_ai_serve.Scheduler.{
  Schedule, State, no_run, compute_next_run, find_schedule, schedule_in_org, same_fire, add_fire,
  arm_if, next_or_throw, UpdateSchedule, next_of_update, changed, disarm, update_schedule,
  delete_schedule,
}
use mastermind_7dtd_ai_serve.Scheduler.Arming.{add_fire-any}
use mastermind_7dtd_ai_serve.Scheduler.Fire.{Fault, lookup_fails, process_schedule_fire}

-- A deleted schedule does nothing any more: a job of the scheduler queue that is left over from it ends
-- without a change, and throws only if its lookup of the schedule fails.
pub delete_schedule-fire :
    (cal : Calendar) (fault : Fault) (now org i : ℕ) (st st' : State)
    → delete_schedule org i st ≡ ok st'
    → process_schedule_fire cal fault now i st' ≡ (lookup_fails fault, st')
unfolding delete_schedule process_schedule_fire
delete_schedule-fire cal fault now org i st st' h =
    elim (Option-cases (schedule_in_org org i st.schedules)) [
      | inl gone ↦ cc (rw (gone, delete_schedule) at h)
      | inr (s, found) ↦
          let same = ok-injective (rw (found, delete_schedule) at h) in
          let none_left : find_schedule i st'.schedules ≡ none =
            ap (λ v. find_schedule i v.schedules) (sym same)
            ∙ find_first-none (λ (x : Schedule). x.id == i) _
                (delete_where-All (λ (x : Schedule). x.id == i) st.schedules) in
          elim (Bool-cases (lookup_fails fault)) [
            | inl t ↦ rw t refl
            | inr g ↦ rw (g, none_left, process_schedule_fire) refl
          ]
    ]

next_or_throw_inv :
    (cal : Calendar) (expression : Text) (now : ℕ) {t : ℕ}
    → next_or_throw cal expression now ≡ ok t
    → get_next_cron_run cal expression now ≡ ok t
next_or_throw_inv cal expression now h =
    elim (Result-cases (get_next_cron_run cal expression now)) [
      | inl (a, good) ↦ good ∙ ap ok (ok-injective (rw (good, next_or_throw) at h))
      | inr (e, bad) ↦ cc (rw (bad, next_or_throw) at h)
    ]

next_given :
    (cal : Calendar) (now c : ℕ) (e : Text) (o : Option Text) (old : Option ℕ) {next : Option ℕ}
    → o ≡ some (c ∷ e)
    → next_of_update cal now o old ≡ ok next
    → (t : ℕ) × (get_next_cron_run cal (c ∷ e) now ≡ ok t) × (next ≡ some t)
next_given cal now c e o old given h =
    let (t, found, same) =
      >>=-eq-ok (next_or_throw cal (c ∷ e) now) (λ t. ok (some t)) (rw given at h) in
    (t, next_or_throw_inv cal (c ∷ e) now found, sym (ok-injective same))

update_inv :
    (cal : Calendar) (now org i : ℕ) (d : UpdateSchedule) (st : State) {s' : Schedule} {st' : State}
    → update_schedule cal now org i d st ≡ ok (s', st')
    → (s : Schedule) × (next : Option ℕ) × (next_of_update cal now d.cron_expression s.next_run_at
        ≡ ok next)
      × (changed d next s ≡ s')
      × (arm_if
            (changed d next s).enabled
            now
            (changed d next s).id
            (changed d next s).next_run_at
            (disarm s.id s.next_run_at st.fires)
          ≡ st'.fires)
unfolding update_schedule
update_inv cal now org i d st h = elim (Option-cases (schedule_in_org org i st.schedules)) [
  | inl gone ↦ cc (rw (gone, update_schedule) at h)
  | inr (s, found) ↦
      let (next, e, same) =
        >>=-eq-ok (next_of_update cal now d.cron_expression s.next_run_at) _
          (rw (found, update_schedule) at h) in
      let result = ok-injective same in
      (s, next, e, ap (λ r. r.0) result, ap (λ r. r.1.fires) result)
]

-- An update that gives a cron expression which is not empty succeeds only if the expression has a next
-- run; the schedule then has the expression and that time, and, if it is enabled, a job of the scheduler
-- queue for it.
update_schedule_armed :
    (cal : Calendar) (now org i c : ℕ) (e : Text) (d : UpdateSchedule) (st st' : State)
    (s' : Schedule)
    → d.cron_expression ≡ some (c ∷ e)
    → update_schedule cal now org i d st ≡ ok (s', st')
    → (t : ℕ) × (get_next_cron_run cal (c ∷ e) now ≡ ok t)
      × (s'.cron_expression ≡ c ∷ e)
      × (s'.next_run_at ≡ some t)
      × ((s'.enabled ≡ false) ⊎ (any (same_fire s'.id t) st'.fires ≡ true))
update_schedule_armed cal now org i c e d st st' s' given h =
    let (s, next, en, row, fires) = update_inv cal now org i d st h in
    let (t, good, at_t) = next_given cal now c e d.cron_expression s.next_run_at given en in
    let cron : s'.cron_expression ≡ c ∷ e =
      ap (λ x. x.cron_expression) (sym row) ∙ (rw given refl) in
    let time : s'.next_run_at ≡ some t =
      ap (λ x. x.next_run_at) (sym row) ∙ (rw (given, at_t) refl) in
    (t, good, cron, time, unless_false s'.enabled (λ on. armed s next t row fires time on))
  where
    armed :
        (s : Schedule) (next : Option ℕ) (t : ℕ)
        → changed d next s ≡ s'
        → arm_if
            (changed d next s).enabled
            now
            (changed d next s).id
            (changed d next s).next_run_at
            (disarm s.id s.next_run_at st.fires)
          ≡ st'.fires
        → s'.next_run_at ≡ some t
        → s'.enabled ≡ true
        → any (same_fire s'.id t) st'.fires ≡ true
    armed s next t row fires time on =
        let old = disarm s.id s.next_run_at st.fires in
        let same : arm_if s'.enabled now s'.id s'.next_run_at old ≡ st'.fires =
          ap (λ (x : Schedule). arm_if x.enabled now x.id x.next_run_at old) (sym row) ∙ fires in
        let added : arm_if s'.enabled now s'.id s'.next_run_at old ≡ add_fire now s'.id t old =
          ap (λ o. arm_if s'.enabled now s'.id o old) time
          ∙ ap (λ (b : Bool). arm_if b now s'.id (some t) old) on in
        ap (any (same_fire s'.id t)) (sym same ∙ added) ∙ add_fire-any now s'.id t old

update_at :
    (cal : Calendar) (now org i : ℕ) (d : UpdateSchedule) (st : State) (s : Schedule)
    {next : Option ℕ}
    → schedule_in_org org i st.schedules ≡ some s
    → next_of_update cal now d.cron_expression s.next_run_at ≡ ok next
    → update_schedule cal now org i d st
      ≡ ok (
        changed d next s,
        record st {
          schedules = update_where (λ x. x.id == i) (changed d next) st.schedules;
          fires =
              arm_if
                (changed d next s).enabled
                now
                (changed d next s).id
                (changed d next s).next_run_at
                (disarm s.id s.next_run_at st.fires);
        },
      )
unfolding update_schedule
update_at cal now org i d st s found e = rw (found, update_schedule, e) refl

empty_cron : (cal : Calendar) (now : ℕ) → get_next_cron_run cal [] now ≡ err expected_five_fields
unfolding get_next_cron_run parse_cron words trim
empty_cron cal now = refl

no_next_run :
    (cal : Calendar) (s : Schedule) (now : ℕ)
    → s.cron_expression ≡ []
    → compute_next_run cal s now ≡ no_run
unfolding compute_next_run
no_next_run cal s now h =
    let e : get_next_cron_run cal s.cron_expression now ≡ err expected_five_fields =
      ap (λ x. get_next_cron_run cal x now) h ∙ empty_cron cal now in
    rw (e, compute_next_run) refl

-- An update that gives the empty cron expression is accepted for every schedule of the organisation: the
-- stored expression is then empty, which has no next run, while the old time of the next run is kept.
update_schedule_empty_cron :
    (cal : Calendar) (now org i : ℕ) (d : UpdateSchedule) (st : State) (s : Schedule)
    → schedule_in_org org i st.schedules ≡ some s
    → d.cron_expression ≡ some []
    → (s' : Schedule) × (st' : State) × (update_schedule cal now org i d st ≡ ok (s', st'))
      × (s'.cron_expression ≡ [])
      × (s'.next_run_at ≡ s.next_run_at)
      × (compute_next_run cal s' now ≡ no_run)
update_schedule_empty_cron cal now org i d st s found given =
    let s' = changed d s.next_run_at s in
    let empty : s'.cron_expression ≡ [] = rw given refl in
    (
      s',
      record st {
        schedules = update_where (λ x. x.id == i) (changed d s.next_run_at) st.schedules;
        fires = arm_if s'.enabled now s'.id s'.next_run_at (disarm s.id s.next_run_at st.fires);
      },
      update_at cal now org i d st s found (ap (λ o. next_of_update cal now o s.next_run_at) given),
      empty,
      rw given refl,
      no_next_run cal s' now empty,
    )
