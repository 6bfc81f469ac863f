-- ===== src/Jobs/Stale.antt =====
-- jobs.service.ts `failStaleRunningJobs`: which runs are released, and what it leaves out of step.
use mastermind_7dtd_ai_serve.Base.{
  ℕ, suc, ap, Option, or_default, ◌⊎◌, ◌+◌, ◌≡◌, refl, sym, ◌∙◌, subst, ◌≢◌, Bool, true, false,
  ◌&&◌, none, some, List, [], ◌∷◌, arith, ◌==◌, ltb, if◌then◌else◌, find_first, update_where,
  select, Bool-cases, inl, inr, All, All-map, All-of, HasDistinct, HasDistinct-select, ==_refl,
  ==_iff, find_first-update_where, find_first-select, find_first_holds,
}
use mastermind_7dtd_ai_serve.Schema.{Json, date, end, get_field, RunStatus, is_status, JobRun}
use mastermind_7dtd_ai_serve.Base.Text.{lit}
use mastermind_7dtd_ai_serve.World.{World, find_run}
use mastermind_7dtd_ai_serve.Runs.{◌⟶*◌, here, next, fail, RunsAdvance}
use mastermind_7dtd_ai_serve.Jobs.Sweep.{
  heartbeat, parsed_date, stale_ms, is_stale, fail_stale, release_stale, fail_stale_running_jobs,
}

abbrev pub stale_test : ℕ → JobRun → Bool
stale_test k x = x.id == k && is_status RunStatus.running x.status

abbrev pub one_round : ℕ → JobRun → List JobRun → List JobRun
one_round now s runs =
    if is_stale now s then update_where (stale_test s.id) (fail_stale now s) runs else runs

-- One round of the loop, seen at the run with the id `i`.
pub round_elsewhere :
    (now : ℕ) (s : JobRun) (runs : List JobRun) (i : ℕ) (r : JobRun)
    → find_run i runs ≡ some r
    → stale_test s.id r ≡ false
    → find_run i (one_round now s runs) ≡ some r
round_elsewhere now s runs i r e h = elim (Bool-cases (is_stale now s)) [
  | inr g ↦ rw g e
  | inl g ↦ rw g (
      find_first-update_where (λ (x : JobRun). x.id) (stale_test s.id) (fail_stale now s) i runs
        (λ x. refl) e
      ∙ (rw h))
]

round_here :
    (now : ℕ) (runs : List JobRun) (i : ℕ) (r : JobRun)
    → find_run i runs ≡ some r
    → stale_test r.id r ≡ true
    → find_run i (one_round now r runs) ≡ some (if is_stale now r then fail_stale now r r else r)
round_here now runs i r e h = elim (Bool-cases (is_stale now r)) [
  | inr g ↦ rw g e
  | inl g ↦ rw g (
      find_first-update_where (λ (x : JobRun). x.id) (stale_test r.id) (fail_stale now r) i runs
        (λ x. refl) e
      ∙ (rw h))
]

-- A run that no round is about, or that is not running, stays as it is.
release_elsewhere :
    (now : ℕ) (rs runs : List JobRun) (i : ℕ) (r : JobRun)
    → find_run i runs ≡ some r
    → All (λ (s : JobRun). stale_test s.id r ≡ false) rs
    → find_run i (release_stale now rs runs) ≡ some r
unfolding release_stale
release_elsewhere now [] runs i r e h = e
release_elsewhere now (s ∷ rs) runs i r e (h, hs) =
    release_elsewhere now rs (one_round now s runs) i r (round_elsewhere now s runs i r e h) hs

pub found_id : (i : ℕ) (runs : List JobRun) (r : JobRun) → find_run i runs ≡ some r → r.id ≡ i
found_id i runs r e = (==_iff r.id i).0 (find_first_holds (λ (x : JobRun). x.id == i) runs e)

far_away :
    (x s : JobRun) (rs : List JobRun)
    → x.id ≡ s.id
    → All (λ (y : JobRun). y.id ≢ s.id) rs
    → All (λ (y : JobRun). stale_test y.id x ≡ false) rs
far_away x s rs e n = All-map (λ y h. ground arith) rs n

failed_id : (now : ℕ) (r : JobRun) → (if is_stale now r then fail_stale now r r else r).id ≡ r.id
failed_id now r = elim (Bool-cases (is_stale now r)) [ inl t ↦ rw t | inr g ↦ rw g ]

pub head_of :
    (i : ℕ) (s r : JobRun) (rs : List JobRun)
    → (s.id == i) ≡ true
    → find_run i (s ∷ rs) ≡ some r
    → s ≡ r
unfolding find_first
head_of i s r rs t q = cc (rw t at q)

pub tail_of :
    (i : ℕ) (s r : JobRun) (rs : List JobRun)
    → (s.id == i) ≡ false
    → find_run i (s ∷ rs) ≡ some r
    → find_run i rs ≡ some r
unfolding find_first
tail_of i s r rs t q = rw t at q

-- A running run that the loop comes to is failed if it is stale.
release_here :
    (now : ℕ) (rs runs : List JobRun) (i : ℕ) (r : JobRun)
    → HasDistinct (λ (x : JobRun). x.id) rs
    → r.status ≡ RunStatus.running
    → find_run i rs ≡ some r
    → find_run i runs ≡ some r
    → find_run i (release_stale now rs runs)
      ≡ some (if is_stale now r then fail_stale now r r else r)
unfolding release_stale
release_here now [] runs i r d b q e = absurd (nowhere i r q)
  where
    nowhere : (i : ℕ) (r : JobRun) → find_run i [] ≡ some r → ⊥
    nowhere i r q = let e : find_run i [] ≡ none = unfold find_first in refl in cc
release_here now (s ∷ rs) runs i r (n, d) b q e = elim (Bool-cases (s.id == i)) [
  | inl t ↦
      let same = head_of i s r rs t q in
      let hit : stale_test r.id r ≡ true = rw b (rw (==_refl r.id)) in
      subst
        (λ (x : JobRun).
          find_run i (release_stale now rs (one_round now x runs))
          ≡ some (if is_stale now r then fail_stale now r r else r))
        (sym same)
        (release_elsewhere now rs (one_round now r runs) i
          (if is_stale now r then fail_stale now r r else r) (round_here now runs i r e hit)
          (far_away (if is_stale now r then fail_stale now r r else r) r rs (failed_id now r)
            (subst (λ (x : JobRun). All (λ (y : JobRun). y.id ≢ x.id) rs) same n)))
  | inr g ↦
      release_here now rs (one_round now s runs) i r d b (tail_of i s r rs g q)
        (round_elsewhere now s runs i r e (let own = found_id i runs r e in ground arith))
]

-- The row of a run after the sweep.
fail_stale_running_jobs_row :
    (w : World) (now i : ℕ) (r : JobRun)
    → HasDistinct (λ (x : JobRun). x.id) w.runs
    → find_run i w.runs ≡ some r
    → find_run i (fail_stale_running_jobs w now).runs
      ≡ some (
          if is_status RunStatus.running r.status && ltb (heartbeat r + stale_ms) now
          then fail_stale now r r
          else r)
unfolding fail_stale_running_jobs
fail_stale_running_jobs_row w now i r d e =
    elim (Bool-cases (is_status RunStatus.running r.status)) [
      | inl t ↦ rw t (
          release_here now (select (λ x. is_status RunStatus.running x.status) w.runs) w.runs i r
            (HasDistinct-select (λ (x : JobRun). x.id) _ w.runs d) (running_of r.status t)
            (find_first-select (λ (x : JobRun). x.id) _ i w.runs e t) e)
      | inr g ↦ rw g (
          release_elsewhere now (select (λ x. is_status RunStatus.running x.status) w.runs) w.runs i
            r e
            (All-of _
              (λ (s : JobRun). and_right (r.id == s.id) (is_status RunStatus.running r.status) g)
              (select (λ x. is_status RunStatus.running x.status) w.runs)))
    ]
  where
    running_of : (s : RunStatus) → is_status RunStatus.running s ≡ true → s ≡ RunStatus.running
    running_of s h = ground arith

    and_right : (a b : Bool) → b ≡ false → (a && b) ≡ false
    and_right a b h = ground arith

-- When the run last showed life: the time in its progress, or else the time of its start, or else never.
abbrev pub last_sign : Option Json → Option ℕ → ℕ
last_sign (some (date (suc t))) started = suc t
last_sign progress none = 0
last_sign progress (some t) = t

last_sign_lem :
    (r : JobRun)
    → heartbeat r ≡ last_sign (get_field (lit "updatedAt") (or_default r.result end)) r.started_at
unfolding heartbeat
last_sign_lem r = by_field (get_field (lit "updatedAt") (or_default r.result end)) r.started_at
  where
    by_field :
        (v : Option Json) (o : Option ℕ)
        → (if parsed_date v == 0 then or_default o 0 else parsed_date v) ≡ last_sign v o
    by_field v o = ground arith

-- The running run is silent for more than three minutes.
abbrev pub is_silent_run : ℕ → JobRun → Bool
is_silent_run now r =
    is_status RunStatus.running r.status
    && ltb (last_sign (get_field (lit "updatedAt") (or_default r.result end)) r.started_at + 180000)
        now

-- With distinct run ids, the sweep fails exactly the running runs whose last sign of life is over three
-- minutes old, the time in the progress or else that of the start, with the sweep's time as their end; and it
-- leaves every other run as it was.
pub fail_stale_running_jobs_run :
    (w : World) (now i : ℕ) (r : JobRun)
    → HasDistinct (λ (x : JobRun). x.id) w.runs
    → find_run i w.runs ≡ some r
    → (r' : JobRun) × (find_run i (fail_stale_running_jobs w now).runs ≡ some r')
      × (((is_silent_run now r ≡ true)
            × (r'.status ≡ RunStatus.failed)
            × (r'.finished_at ≡ some now)
            × (r'.job_id ≡ r.job_id)
            × (r'.host_id ≡ r.host_id))
          ⊎ ((is_silent_run now r ≡ false) × (r' ≡ r)))
fail_stale_running_jobs_run w now i r d e =
    let after = fail_stale_running_jobs_row w now i r d e in
    let sign = last_sign_lem r in
    let same : (is_status RunStatus.running r.status && ltb (heartbeat r + stale_ms) now)
        ≡ is_silent_run now r =
      ap (λ h. is_status RunStatus.running r.status && ltb (h + stale_ms) now) sign in
    elim (Bool-cases (is_status RunStatus.running r.status && ltb (heartbeat r + stale_ms) now)) [
      | inl t ↦
          (fail_stale now r r, after ∙ (rw t refl), inl (sym same ∙ t, refl, refl, refl, refl))
      | inr g ↦ (r, after ∙ (rw g refl), inr (sym same ∙ g, refl))
    ]

-- So the statuses only move as the life of a run allows.
pub fail_stale_running_jobs-RunsAdvance :
    (w : World) (now : ℕ)
    → HasDistinct (λ (x : JobRun). x.id) w.runs
    → RunsAdvance w.runs (fail_stale_running_jobs w now).runs
fail_stale_running_jobs-RunsAdvance w now d i r e =
    let after = fail_stale_running_jobs_row w now i r d e in
    elim (Bool-cases (is_status RunStatus.running r.status && ltb (heartbeat r + stale_ms) now)) [
      | inr g ↦ (r, after ∙ (rw g), here, refl, refl)
      | inl t ↦ (
        fail_stale now r r,
        after ∙ (rw t),
        was_running r.status (ltb (heartbeat r + stale_ms) now) t,
        refl,
        refl,
      )
    ]
  where
    was_running :
        (s : RunStatus) (b : Bool)
        → (is_status RunStatus.running s && b) ≡ true
        → s ⟶* RunStatus.failed
    was_running RunStatus.running b h = next fail here
    was_running _ b h = cc
