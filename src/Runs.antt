-- ===== src/Runs.antt =====
-- The life of a job run: the status transitions that the services make, and how the table of runs
-- may change (control-plane/prisma/schema.prisma `JobRun`, control-plane/src/jobs/constants.ts).
use mastermind_7dtd_ai_serve.Base.{
  ℕ, ◌≡◌, refl, ◌∙◌, subst, some, List, ◌++◌, ◌==◌, update_where, find_first-update_self,
  find_first-update_other, find_first-append_found,
}
use native.Mathlib.Decide.{ℕ_discrete}
use mastermind_7dtd_ai_serve.Schema.{RunStatus, JobRun}
use mastermind_7dtd_ai_serve.World.{find_run}

infix 40 ◌⟶◌ ◌⟶*◌
pub data ◌⟶◌ : RunStatus → RunStatus → Type 0 where
  start : RunStatus.pending ⟶ RunStatus.running
  cancel : RunStatus.pending ⟶ RunStatus.cancelled
  succeed : RunStatus.running ⟶ RunStatus.success
  fail : RunStatus.running ⟶ RunStatus.failed

pub data ◌⟶*◌ : RunStatus → RunStatus → Type 0 where
  here : {s : RunStatus} → s ⟶* s
  next : {s t u : RunStatus} → s ⟶ t → t ⟶* u → s ⟶* u

pub ⟶*-trans : {s t u : RunStatus} → s ⟶* t → t ⟶* u → s ⟶* u
⟶*-trans here q = q
⟶*-trans (next e p) q = next e (⟶*-trans p q)

-- A run that has ended.
abbrev pub IsFinal : RunStatus → Type 0
IsFinal RunStatus.pending = ⊥
IsFinal RunStatus.running = ⊥
IsFinal _ = Unit

⟶-not_final : {s t : RunStatus} → s ⟶ t → IsFinal s → ⊥
⟶-not_final start h = h
⟶-not_final cancel h = h
⟶-not_final succeed h = h
⟶-not_final fail h = h

pub final_stays : {s t : RunStatus} → s ⟶* t → IsFinal s → t ≡ s
final_stays here h = refl
final_stays (next e p) h = absurd (⟶-not_final e h)

-- Every run that was stored is still stored, for the same job and host, at a status that its old one
-- leads to.
abbrev pub RunsAdvance : List JobRun → List JobRun → Type 0
RunsAdvance runs runs' =
    (i : ℕ) (r : JobRun)
    → find_run i runs ≡ some r
    → (r' : JobRun) × (find_run i runs' ≡ some r')
      × (r.status ⟶* r'.status)
      × (r'.job_id ≡ r.job_id)
      × (r'.host_id ≡ r.host_id)

pub RunsAdvance-refl : (runs : List JobRun) → RunsAdvance runs runs
RunsAdvance-refl runs i r e = (r, e, here, refl, refl)

pub RunsAdvance-trans : (x y z : List JobRun) → RunsAdvance x y → RunsAdvance y z → RunsAdvance x z
RunsAdvance-trans x y z p q i r e =
    let (s, e1, m1, j1, h1) = p i r e in
    let (t, e2, m2, j2, h2) = q i s e1 in (t, e2, ⟶*-trans m1 m2, j2 ∙ j1, h2 ∙ h1)

pub RunsAdvance-append : (x y : List JobRun) → RunsAdvance x (x ++ y)
RunsAdvance-append x y i r e =
    (r, find_first-append_found (λ (s : JobRun). s.id) i x y e, here, refl, refl)

-- An update of one run that advances it.
pub RunsAdvance-update :
    (k : ℕ) (f : JobRun → JobRun) (runs : List JobRun) (a : JobRun)
    → ((r : JobRun) → (f r).id ≡ r.id)
    → find_run k runs ≡ some a
    → a.status ⟶* (f a).status
    → (f a).job_id ≡ a.job_id
    → (f a).host_id ≡ a.host_id
    → RunsAdvance runs (update_where (λ x. x.id == k) f runs)
RunsAdvance-update k f runs a keeps found m j h i r e = elim (ℕ_discrete k i) [
  | yes p ↦
      let q : find_run i runs ≡ some a = subst (λ (n : ℕ). find_run n runs ≡ some a) p found in
      let same : a ≡ r = cc in
      subst
        (λ (x : JobRun).
          (r' : JobRun) × (find_run i (update_where (λ x. x.id == k) f runs) ≡ some r')
          × (x.status ⟶* r'.status)
          × (r'.job_id ≡ x.job_id)
          × (r'.host_id ≡ x.host_id))
        same
        (
          f a,
          subst (λ (n : ℕ). find_run n (update_where (λ x. x.id == k) f runs) ≡ some (f a)) p
              (find_first-update_self (λ (x : JobRun). x.id) f k runs keeps found),
          m,
          j,
          h,
        )
  | no n ↦
      (r, find_first-update_other (λ (x : JobRun). x.id) f k i runs keeps n ∙ e, here, refl, refl)
]
