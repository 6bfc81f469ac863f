-- ===== src/Scheduler/Arming.antt =====
-- scheduler.service.ts: the jobs of the scheduler queue for the schedules' next runs, as the operations on
-- schedules change them.
use mastermind_7dtd_ai_serve.Base.{
  ℕ, ◌<◌, ◌≡◌, refl, Bool, true, false, not, ◌||◌, inl, inr, Option, none, some, List, [], ◌∷◌,
  ◌++◌, arith, ◌==◌, ==_refl, Bool-cases, any, any-append_last, delete_where, All, HasDistinct,
}
use mastermind_7dtd_ai_serve.Scheduler.{
  Schedule, FireEntry, State, same_fire, add_fire, arm_if, disarm,
}

-- The queue has a job for the time, where there is one.
abbrev pub is_queued : ℕ → Option ℕ → List FireEntry → Bool
is_queued i none fires = true
is_queued i (some t) fires = any (same_fire i t) fires

abbrev pub is_armed : List FireEntry → Schedule → Bool
is_armed fires s = not s.enabled || is_queued s.id s.next_run_at fires

-- Rows with ids of their own, older than the next one, and a job in the queue for each that is enabled.
pub record IsArmed (st : State) : Type 0 where
  pub distinct : HasDistinct (λ s. s.id) st.schedules
  pub fresh : All (λ s. s.id < st.world.next_id) st.schedules
  pub armed : All (λ s. is_armed st.fires s ≡ true) st.schedules

pub add_fire-any :
    (now i t : ℕ) (fires : List FireEntry) → any (same_fire i t) (add_fire now i t fires) ≡ true
unfolding add_fire
add_fire-any now i t fires = elim (Bool-cases (any (same_fire i t) fires)) [
  | inl held ↦ rw held held
  | inr g ↦ rw g (any-append_last (same_fire i t) fires _ (rw (==_refl i, ==_refl t) refl))
]

any-append_kept :
    (p : FireEntry → Bool) (xs ys : List FireEntry) → any p xs ≡ true → any p (xs ++ ys) ≡ true
unfolding any
any-append_kept p [] ys h = cc
any-append_kept p (x ∷ xs) ys h = ground (arith, any-append_kept p xs ys)

add_fire-kept :
    (p : FireEntry → Bool) (now i t : ℕ) (fires : List FireEntry)
    → any p fires ≡ true
    → any p (add_fire now i t fires) ≡ true
unfolding add_fire
add_fire-kept p now i t fires h = elim (Bool-cases (any (same_fire i t) fires)) [
  | inl held ↦ rw held h
  | inr g ↦ rw g (any-append_kept p fires _ h)
]

is_queued-add_fire :
    (j now i t : ℕ) (o : Option ℕ) (fires : List FireEntry)
    → is_queued j o fires ≡ true
    → is_queued j o (add_fire now i t fires) ≡ true
is_queued-add_fire j now i t none fires h = refl
is_queued-add_fire j now i t (some u) fires h = add_fire-kept (same_fire j u) now i t fires h

pub is_armed-add_fire :
    (s : Schedule) (now i t : ℕ) (fires : List FireEntry)
    → is_armed fires s ≡ true
    → is_armed (add_fire now i t fires) s ≡ true
is_armed-add_fire s now i t fires h = elim (Bool-cases s.enabled) [
  | inr off ↦ rw off refl
  | inl on ↦ rw on (is_queued-add_fire s.id now i t s.next_run_at fires (rw on at h))
]

pub is_armed-arm_if :
    (s : Schedule) (b : Bool) (now i : ℕ) (o : Option ℕ) (fires : List FireEntry)
    → is_armed fires s ≡ true
    → is_armed (arm_if b now i o fires) s ≡ true
is_armed-arm_if s b now i none fires h = h
is_armed-arm_if s false now i (some t) fires h = h
is_armed-arm_if s true now i (some t) fires h = is_armed-add_fire s now i t fires h

-- The schedule that the queue is given a job for.
arm_if-queued :
    (b : Bool) (now i : ℕ) (o : Option ℕ) (fires : List FireEntry)
    → (not b || is_queued i o (arm_if b now i o fires)) ≡ true
arm_if-queued false now i o fires = refl
arm_if-queued true now i none fires = refl
arm_if-queued true now i (some t) fires = add_fire-any now i t fires

pub arm_if-is_armed :
    (s : Schedule) (now : ℕ) (fires : List FireEntry)
    → is_armed (arm_if s.enabled now s.id s.next_run_at fires) s ≡ true
arm_if-is_armed s now fires = arm_if-queued s.enabled now s.id s.next_run_at fires

-- Jobs of other schedules are not removed.
any-delete_apart :
    (p q : FireEntry → Bool) (xs : List FireEntry)
    → ((x : FireEntry) → p x ≡ true → q x ≡ false)
    → any p xs ≡ true
    → any p (delete_where q xs) ≡ true
unfolding any delete_where
any-delete_apart p q [] apart h = cc
any-delete_apart p q (x ∷ xs) apart h = ground (arith, apart x, any-delete_apart p q xs apart)

is_queued-disarm :
    (j i : ℕ) (o old : Option ℕ) (fires : List FireEntry)
    → (j == i) ≡ false
    → is_queued j o fires ≡ true
    → is_queued j o (disarm i old fires) ≡ true
is_queued-disarm j i none old fires other h = refl
is_queued-disarm j i (some t) none fires other h = h
is_queued-disarm j i (some t) (some u) fires other h =
    any-delete_apart (same_fire j t) (same_fire i u) fires (λ e k. ground arith) h

pub is_armed-disarm :
    (s : Schedule) (i : ℕ) (old : Option ℕ) (fires : List FireEntry)
    → (s.id == i) ≡ false
    → is_armed fires s ≡ true
    → is_armed (disarm i old fires) s ≡ true
is_armed-disarm s i old fires other h = elim (Bool-cases s.enabled) [
  | inr off ↦ rw off refl
  | inl on ↦ rw on (is_queued-disarm s.id i s.next_run_at old fires other (rw on at h))
]
