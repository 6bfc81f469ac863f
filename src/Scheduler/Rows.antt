-- ===== src/Scheduler/Rows.antt =====
-- scheduler.service.ts: a row that is created or updated, and the job that the queue is given for it.
use mastermind_7dtd_ai_serve.Base.{
  ℕ, suc, ◌<◌, ◌≡◌, refl, sym, subst, true, false, ◌&&◌, Option, some, [], ◌∷◌, ◌++◌, arith, ◌==◌,
  update_where, All, All-map, All-append, All-update_where, All-updated, All-zip, All-find_first,
  All-found, HasDistinct-append_new, HasDistinct-update_where, find_first_holds,
}
use mastermind_7dtd_ai_serve.Scheduler.{
  Schedule, State, arm_if, disarm, schedule_in_org, find_schedule, UpdateSchedule, changed,
}
use mastermind_7dtd_ai_serve.Scheduler.Arming.{
  is_armed, IsArmed, is_armed-arm_if, arm_if-is_armed, is_armed-disarm,
}

-- A new row and its job.
pub row_added :
    (st : State) (x : Schedule) (now : ℕ)
    → x.id ≡ st.world.next_id
    → IsArmed st
    → IsArmed (record {
      world = record st.world { next_id = suc st.world.next_id };
      schedules = st.schedules ++ x ∷ [];
      fires = arm_if x.enabled now x.id x.next_run_at st.fires;
    })
row_added st x now same a = record {
  distinct =
      HasDistinct-append_new (λ s. s.id) st.schedules x
        (All-map (λ s l. ground arith) st.schedules a.fresh) a.distinct;
  fresh =
      All-append (λ s. s.id < suc st.world.next_id) st.schedules (x ∷ [])
        (All-map (λ s l. omega arith) st.schedules a.fresh) (omega arith, tt);
  armed =
      All-append (λ s. is_armed (arm_if x.enabled now x.id x.next_run_at st.fires) s ≡ true)
        st.schedules (x ∷ [])
        (All-map (λ s h. is_armed-arm_if s x.enabled now x.id x.next_run_at st.fires h) st.schedules
          a.armed)
        (arm_if-is_armed x now st.fires, tt);
}

-- The row that an operation finds is the only one with its id.
pub only_row :
    (st : State) (org i : ℕ) (s : Schedule)
    → IsArmed st
    → schedule_in_org org i st.schedules ≡ some s
    → (s.id ≡ i) × All (λ x. (x.id == i) ≡ true → x ≡ s) st.schedules
only_row st org i s a found =
    let ones = All-found (λ (x : Schedule). x.id) st.schedules a.distinct in
    let holds =
      find_first_holds (λ (x : Schedule). x.id == i && x.org_id == org) st.schedules found in
    let at_i : s.id ≡ i = ground arith in
    let row_s : find_schedule s.id st.schedules ≡ some s =
      All-find_first _ (λ (x : Schedule). x.id == i && x.org_id == org) st.schedules ones found in
    (
      at_i,
      All-map
          (λ x e t.
            let there : x.id ≡ s.id = ground arith in
            let row_x : find_schedule s.id st.schedules ≡ some x =
              subst (λ k. find_schedule k st.schedules ≡ some x) there e in
            cc)
          st.schedules ones,
    )

pub row_changed :
    (st : State) (s : Schedule) (now i : ℕ) (d : UpdateSchedule) (next : Option ℕ)
    → (s.id ≡ i) × All (λ x. (x.id == i) ≡ true → x ≡ s) st.schedules
    → IsArmed st
    → let u = changed d next s in
      IsArmed (record st {
        schedules = update_where (λ x. x.id == i) (changed d next) st.schedules;
        fires = arm_if u.enabled now u.id u.next_run_at (disarm s.id s.next_run_at st.fires);
      })
row_changed st s now i d next (at_i, only) a =
    let u = changed d next s in
    let left = disarm s.id s.next_run_at st.fires in
    record {
      distinct =
          HasDistinct-update_where (λ x. x.id) (λ x. x.id == i) (changed d next) st.schedules
            (λ x. refl) a.distinct;
      fresh =
          All-update_where (λ x. x.id < st.world.next_id) (λ x. x.id == i) (changed d next)
            st.schedules (λ x l. l) a.fresh;
      armed =
          All-updated (λ x. is_armed (arm_if u.enabled now u.id u.next_run_at left) x ≡ true)
            (λ x. x.id == i) (changed d next) st.schedules
            (All-map
              (λ x (h, one). (
                (λ (here : (x.id == i) ≡ true).
                    subst
                      (λ y.
                        is_armed (arm_if u.enabled now u.id u.next_run_at left) (changed d next y)
                        ≡ true)
                      (sym (one here)) (arm_if-is_armed u now left)),
                (λ (other : (x.id == i) ≡ false).
                    is_armed-arm_if x u.enabled now u.id u.next_run_at left
                      (is_armed-disarm x s.id s.next_run_at st.fires (ground arith) h)),
              ))
              st.schedules (All-zip _ _ st.schedules a.armed only));
    }
