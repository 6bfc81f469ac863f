-- ===== src/Batches/CounterRows.antt =====
-- batches.service.ts: one row of the table of batches, when a run of it has moved.
use native.Mathlib.Decide.{ℕ_discrete}
use mastermind_7dtd_ai_serve.Base.{
  ℕ, ◌+◌, ◌≡◌, refl, ◌≢◌, Bool, true, false, ◌&&◌, none, some, List, arith, ◌==◌, if◌then◌else◌,
  found_is, update_where, find_first-update_self, find_first-update_other, find_first_holds,
  find_first_narrow, HasDistinct, sym, ◌∙◌, subst,
}
use mastermind_7dtd_ai_serve.Base.Int.{◌+ℤ◌, ◌-ℤ◌}
use mastermind_7dtd_ai_serve.Schema.{RunStatus, is_status, JobRun, Job, JobBatch}
use mastermind_7dtd_ai_serve.World.{World, find_run, find_job, find_batch}
use mastermind_7dtd_ai_serve.Batches.{count_completed, finish_batch, batch_of_job, count_started}
use mastermind_7dtd_ai_serve.Batches.Tally.{
  job_key, batch_id_of, tally, tally_key, tally-move, IsTallied,
}

-- The job's batch is found, when the job is in the org and its batch exists.
pub batch_of_job_lem :
    (w : World) (org i : ℕ) {j : Job}
    → find_job i w.jobs ≡ some j
    → j.org_id ≡ org
    → batch_of_job w org i ≡ elim j.batch_id [ none ↦ none | some b ↦ find_batch b w.batches ]
unfolding batch_of_job
batch_of_job_lem w org i {j} e o =
    let narrow =
      find_first_narrow (λ (x : Job). x.id == i) (λ x. x.id == i && x.org_id == org) w.jobs
        (λ x h. ground arith) e
        (ground (arith, find_first_holds (λ (x : Job). x.id == i) w.jobs e)) in
    rw (narrow, batch_of_job)

-- The tallies of a batch after the run `r` has left the status `s0` for `s1`.
module _ (jobs jobs' : List Job) (runs runs' : List JobRun) (b : JobBatch) (k : ℕ)
    (f : JobRun → JobRun) {r : JobRun} (distinct : HasDistinct (λ (x : JobRun). x.id) runs)
    (found : find_run k runs ≡ some r) (keeps : (f r).job_id ≡ r.job_id)
    (same_jobs : (i : ℕ) → job_key jobs' i ≡ job_key jobs i)
    (moved : runs' ≡ update_where (λ x. x.id == k) f runs) where
  abbrev before : RunStatus → ℕ
  before s = tally jobs runs b.id s

  abbrev after : RunStatus → ℕ
  after s = tally jobs' runs' b.id s

  pub tally_shift :
      (s s0 s1 : RunStatus) {here : Bool}
      → found_is (batch_id_of jobs r.job_id) b.id ≡ here
      → r.status ≡ s0
      → (f r).status ≡ s1
      → after s + (if is_status s s0 && here then 1 else 0)
        ≡ before s + (if is_status s s1 && here then 1 else 0)
  tally_shift s s0 s1 h h0 h1 =
      rw (tally_key jobs jobs' runs' b.id s same_jobs, moved)
        (rw h at (tally-move jobs runs b.id k s s0 s1 f distinct found h0 h1 keeps))

  pub tally_other :
      (s : RunStatus) → found_is (batch_id_of jobs r.job_id) b.id ≡ false → after s ≡ before s
  tally_other s h = ground (arith, tally_shift s r.status (f r).status h refl refl)

  pub IsTallied-other :
      found_is (batch_id_of jobs r.job_id) b.id ≡ false
      → IsTallied jobs runs b
      → IsTallied jobs' runs' b
  IsTallied-other h t = record {
    pending = rw (tally_other RunStatus.pending h) t.pending;
    running = rw (tally_other RunStatus.running h) t.running;
    success = rw (tally_other RunStatus.success h) t.success;
    failed = rw (tally_other RunStatus.failed h) t.failed;
    cancelled = rw (tally_other RunStatus.cancelled h) t.cancelled;
  }

  module _ (here : found_is (batch_id_of jobs r.job_id) b.id ≡ true) where
    pub IsTallied-started :
        r.status ≡ RunStatus.pending
        → (f r).status ≡ RunStatus.running
        → IsTallied jobs runs b
        → IsTallied jobs' runs' (count_started b)
    unfolding count_started ◌+ℤ◌ ◌-ℤ◌
    IsTallied-started h0 h1 t = ground (
      arith,
      tally_shift RunStatus.pending RunStatus.pending RunStatus.running here h0 h1,
      tally_shift RunStatus.running RunStatus.pending RunStatus.running here h0 h1,
      tally_shift RunStatus.success RunStatus.pending RunStatus.running here h0 h1,
      tally_shift RunStatus.failed RunStatus.pending RunStatus.running here h0 h1,
      tally_shift RunStatus.cancelled RunStatus.pending RunStatus.running here h0 h1,
    )

    -- `status` is one of the final statuses.
    pub IsTallied-completed :
        (status : RunStatus)
        → status ≢ RunStatus.pending
        → status ≢ RunStatus.running
        → r.status ≡ RunStatus.running
        → (f r).status ≡ status
        → IsTallied jobs runs b
        → IsTallied jobs' runs' (count_completed status RunStatus.running b)
    unfolding count_completed ◌+ℤ◌ ◌-ℤ◌
    IsTallied-completed status np nr h0 h1 t = ground (
      arith,
      tally_shift RunStatus.pending RunStatus.running status here h0 h1,
      tally_shift RunStatus.running RunStatus.running status here h0 h1,
      tally_shift RunStatus.success RunStatus.running status here h0 h1,
      tally_shift RunStatus.failed RunStatus.running status here h0 h1,
      tally_shift RunStatus.cancelled RunStatus.running status here h0 h1,
    )

-- The completion check changes no counter.
pub finish_batch-IsTallied :
    (jobs : List Job) (runs : List JobRun) (now : ℕ) (b : JobBatch)
    → IsTallied jobs runs b
    → IsTallied jobs runs (finish_batch now b)
unfolding finish_batch
finish_batch-IsTallied jobs runs now b t = ground arith

pub finish_batch-id : (now : ℕ) (b : JobBatch) → (finish_batch now b).id ≡ b.id
unfolding finish_batch
finish_batch-id now b = ground arith

pub count_completed-id : (s p : RunStatus) (b : JobBatch) → (count_completed s p b).id ≡ b.id
unfolding count_completed
count_completed-id s p b = ground arith

-- `count` keeps a row's id and `after` states the tallies of the rows: the table of batches after
-- one row has been counted.
pub find_batch-count :
    (count : JobBatch → JobBatch) (bid : ℕ) (batches : List JobBatch) {b : JobBatch}
    (P : JobBatch → Type 0)
    → ((x : JobBatch) → (count x).id ≡ x.id)
    → find_batch bid batches ≡ some b
    → P (count b)
    → ((i : ℕ) (x : JobBatch) → i ≢ bid → find_batch i batches ≡ some x → P x)
    → (i : ℕ) (x : JobBatch) → find_batch i (update_where (λ y. y.id == bid) count batches) ≡ some x
    → P x
find_batch-count count bid batches {b} P keeps e here others i x h = elim (ℕ_discrete i bid) [
  | yes p ↦
      let q : some (count b) ≡ some x =
        sym (find_first-update_self (λ (y : JobBatch). y.id) count bid batches keeps e)
        ∙ (rw p at h) in
      subst P (cc) here
  | no n ↦ others i x n (
      sym (
        find_first-update_other (λ (y : JobBatch). y.id) count bid i batches keeps (λ c. n (sym c)))
      ∙ h)
]
