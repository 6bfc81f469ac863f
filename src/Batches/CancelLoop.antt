-- ===== src/Batches/CancelLoop.antt =====
-- batches.service.ts `cancelBatch`: what the loop over the jobs of the batch does to the runs.
use mastermind_7dtd_ai_serve.Base.{
  ℕ, suc, ◌+◌, ◌<◌, ◌≡◌, refl, subst, ◌∙◌, ◌≢◌, Bool, true, some, List, [], ◌∷◌, arith, ◌==◌,
  if◌then◌else◌, found_is, find_first, update_where, All, Option-cases, inl, inr, Bool-cases,
  ==_iff, ==_refl, ltb, All-find_first, HasDistinct, HasDistinct-update_where,
  find_first-update_other, All-update_where,
}
use mastermind_7dtd_ai_serve.Schema.{RunStatus, is_status, JobRun, Job}
use mastermind_7dtd_ai_serve.World.{World, QueueEntry, find_run}
use mastermind_7dtd_ai_serve.Runs.{
  next, cancel, here as here_, RunsAdvance, RunsAdvance-refl, RunsAdvance-trans, RunsAdvance-update,
}
use mastermind_7dtd_ai_serve.Batches.Cancellation.{
  latest_run, cancel_run, remove_entry, cancel_jobs,
}
use mastermind_7dtd_ai_serve.Batches.Tally.{batch_id_of, tally, tally-move}

-- A stored run is found behind another one.
found_behind :
    (x : JobRun) (runs : List JobRun) (r : JobRun)
    → All (λ (y : JobRun). y.id ≢ x.id) runs
    → find_run r.id runs ≡ some r
    → find_run r.id (x ∷ runs) ≡ some r
unfolding find_first
found_behind x runs r h e =
    let other =
      All-find_first (λ (y : JobRun). y.id ≢ x.id) (λ (y : JobRun). y.id == r.id) runs h e in
    ground arith

found_first : (x : JobRun) (runs : List JobRun) → find_run x.id (x ∷ runs) ≡ some x
unfolding find_first
found_first x runs = rw (==_refl x.id)

-- The latest run of a job is a stored run of that job.
pub latest_run_found :
    (job : ℕ) (runs : List JobRun) (r : JobRun)
    → HasDistinct (λ (x : JobRun). x.id) runs
    → latest_run job runs ≡ some r
    → (find_run r.id runs ≡ some r) × (r.job_id ≡ job)
unfolding latest_run
latest_run_found job [] r d e = cc
latest_run_found job (x ∷ runs) r (h, d) e = elim (Bool-cases (x.job_id == job)) [
  | inr g ↦
      let (found, owner) = latest_run_found job runs r d (rw g at e) in
      (found_behind x runs r h found, owner)
  | inl t ↦ elim (Option-cases (latest_run job runs)) [
    | inl l ↦ let q : some x ≡ some r = rw l at (rw t at e) in here t (cc)
    | inr (best, l) ↦ elim (Bool-cases (ltb x.created_at best.created_at)) [
      | inl later ↦
          let (found, owner) =
            latest_run_found job runs r d (l ∙ (rw later at (rw l at (rw t at e)))) in
          (found_behind x runs r h found, owner)
      | inr older ↦ let q : some x ≡ some r = rw older at (rw l at (rw t at e)) in here t (cc)
    ]
  ]
]
  where
    here : (x.job_id == job) ≡ true → x ≡ r → (find_run r.id (x ∷ runs) ≡ some r) × (r.job_id ≡ job)
    here t p =
        subst (λ (y : JobRun). (find_run y.id (x ∷ runs) ≡ some y) × (y.job_id ≡ job)) p
          (found_first x runs, (==_iff x.job_id job).0 t)

-- The runs that the loop has still to look at are as they were when it began.
abbrev pub AreUntouched : List JobRun → List JobRun → List Job → Type 0
AreUntouched seen runs =
    All (λ (j : Job). (r : JobRun) → latest_run j.id seen ≡ some r → find_run r.id runs ≡ some r)

-- The loop's effect on the tallies of a batch: `n` runs go from pending to cancelled.
pub record IsCancelled (jobs : List Job) (b n : ℕ) (runs runs' : List JobRun) : Type 0 where
  pub distinct : HasDistinct (λ (r : JobRun). r.id) runs'
  pub fresh :
      (m : ℕ)
      → All (λ (r : JobRun). (r.id < m) × (r.job_id < m)) runs
      → All (λ (r : JobRun). (r.id < m) × (r.job_id < m)) runs'
  pub advance : RunsAdvance runs runs'
  pub pending : tally jobs runs' b RunStatus.pending + n ≡ tally jobs runs b RunStatus.pending
  pub cancelled : tally jobs runs' b RunStatus.cancelled ≡ tally jobs runs b RunStatus.cancelled + n
  pub running : tally jobs runs' b RunStatus.running ≡ tally jobs runs b RunStatus.running
  pub success : tally jobs runs' b RunStatus.success ≡ tally jobs runs b RunStatus.success
  pub failed : tally jobs runs' b RunStatus.failed ≡ tally jobs runs b RunStatus.failed

pending_of : (s : RunStatus) → is_status RunStatus.pending s ≡ true → s ≡ RunStatus.pending
pending_of s h = ground arith

branch_suc :
    (t : Bool) (n : ℕ) → (if t then suc n else 0) ≡ (if t then 1 else 0) + (if t then n else 0)
branch_suc t n = ground arith

module _ (removable : QueueEntry → Bool) (org now : ℕ) (seen : List JobRun)
    (seen_distinct : HasDistinct (λ (r : JobRun). r.id) seen) where
  -- One cancelled run.
  cancel_one :
      (jobs : List Job) (b : ℕ) (runs : List JobRun) (r : JobRun) (here : Bool)
      → HasDistinct (λ (x : JobRun). x.id) runs
      → find_run r.id runs ≡ some r
      → r.status ≡ RunStatus.pending
      → found_is (batch_id_of jobs r.job_id) b ≡ here
      → IsCancelled jobs b
          (if here then 1 else 0)
          runs
          (update_where (λ x. x.id == r.id) (cancel_run now) runs)
  cancel_one jobs b runs r here d e h at_b =
      let move = λ (s : RunStatus). rw at_b at (
        tally-move jobs runs b r.id s RunStatus.pending RunStatus.cancelled (cancel_run now) d e h
          refl refl) in
      record {
        distinct =
            HasDistinct-update_where (λ (x : JobRun). x.id) _ (cancel_run now) runs (λ x. refl) d;
        fresh = λ m h. All-update_where _ _ (cancel_run now) runs (λ x l. l) h;
        advance =
            RunsAdvance-update r.id (cancel_run now) runs r (λ x. refl) e (rw h (next cancel here_))
              refl refl;
        pending = ground (arith, move RunStatus.pending);
        cancelled = ground (arith, move RunStatus.cancelled);
        running = ground (arith, move RunStatus.running);
        success = ground (arith, move RunStatus.success);
        failed = ground (arith, move RunStatus.failed);
      }

  -- Cancelling the run of one job leaves the runs of the other jobs as they were.
  untouched_after :
      (runs : List JobRun) (job : ℕ) (r : JobRun) (js : List Job)
      → r.job_id ≡ job
      → find_run r.id seen ≡ some r
      → All (λ (j : Job). j.id ≢ job) js
      → AreUntouched seen runs js
      → AreUntouched seen (update_where (λ x. x.id == r.id) (cancel_run now) runs) js
  untouched_after runs job r [] o f n u = tt
  untouched_after runs job r (j ∷ js) o f (n, ns) (u, us) = (
    λ s e.
        let (stored, owner) = latest_run_found j.id seen s seen_distinct e in
        let apart : r.id ≢ s.id = λ p.
          let q : find_run s.id seen ≡ some r = subst (λ (i : ℕ). find_run i seen ≡ some r) p f in
          let same : r ≡ s = cc in n (cc) in
        find_first-update_other (λ (x : JobRun). x.id) (cancel_run now) r.id s.id runs (λ x. refl)
          apart
        ∙ u s e,
    untouched_after runs job r js o f ns us,
  )

  IsCancelled-refl :
      (jobs : List Job) (b n : ℕ) (runs : List JobRun)
      → n ≡ 0
      → HasDistinct (λ (x : JobRun). x.id) runs
      → IsCancelled jobs b n runs runs
  IsCancelled-refl jobs b n runs z d = record {
    distinct = d;
    fresh = λ m h. h;
    advance = RunsAdvance-refl runs;
    pending = omega arith;
    cancelled = omega arith;
    running = refl;
    success = refl;
    failed = refl;
  }

  IsCancelled-trans :
      (jobs : List Job) (b m n k : ℕ) (x y z : List JobRun)
      → k ≡ m + n
      → IsCancelled jobs b m x y
      → IsCancelled jobs b n y z
      → IsCancelled jobs b k x z
  IsCancelled-trans jobs b m n k x y z e p q = record {
    distinct = q.distinct;
    fresh = λ m h. q.fresh m (p.fresh m h);
    advance = RunsAdvance-trans x y z p.advance q.advance;
    pending = omega arith;
    cancelled = omega arith;
    running = q.running ∙ p.running;
    success = q.success ∙ p.success;
    failed = q.failed ∙ p.failed;
  }

  -- The whole loop, for one batch `b` in which all its jobs are (`here`) or none is.
  module _ (jobs : List Job) (b : ℕ) (here : Bool) where
    pub cancel_jobs_lem :
        (js : List Job) (w : World)
        → HasDistinct (λ (x : JobRun). x.id) w.runs
        → HasDistinct (λ (j : Job). j.id) js
        → AreUntouched seen w.runs js
        → All (λ (j : Job). found_is (batch_id_of jobs j.id) b ≡ here) js
        → let (w', n) = cancel_jobs removable org now seen js w in
          IsCancelled jobs b (if here then n else 0) w.runs w'.runs
          × (w'.jobs ≡ w.jobs)
          × (w'.batches ≡ w.batches)
          × (w'.next_id ≡ w.next_id)
    unfolding cancel_jobs
    cancel_jobs_lem [] w d dj u h =
        (IsCancelled-refl jobs b _ w.runs (ground arith) d, refl, refl, refl)
    cancel_jobs_lem (j ∷ js) w d (n, dj) (u, us) (h, hs) =
        elim (Option-cases (latest_run j.id seen)) [
          | inl e ↦ rw (e, cancel_jobs) (cancel_jobs_lem js w d dj us hs)
          | inr (r, e) ↦ elim (Bool-cases (is_status RunStatus.pending r.status)) [
            | inr g ↦ rw (e, cancel_jobs) (rw (g, cancel_jobs) (cancel_jobs_lem js w d dj us hs))
            | inl g ↦
                let w1 : World = record w {
                  runs = update_where (λ x. x.id == r.id) (cancel_run now) w.runs;
                  queue = remove_entry removable org r.id w.queue;
                } in
                let (stored, owner) = latest_run_found j.id seen r seen_distinct e in
                let one =
                  cancel_one jobs b w.runs r here d (u r e) (pending_of r.status g) (rw owner h) in
                let (rest, same_jobs, same_batches, same_next) =
                  cancel_jobs_lem js w1 one.distinct dj
                    (untouched_after w.runs j.id r js owner stored n us) hs in
                rw (e, cancel_jobs)
                  (rw (g, cancel_jobs)
                    (
                      IsCancelled-trans jobs b _ _ _ w.runs w1.runs _
                          (branch_suc here (cancel_jobs removable org now seen js w1).1) one rest,
                      same_jobs,
                      same_batches,
                      same_next,
                    ))
          ]
        ]
