-- ===== src/Batches/Tally.antt =====
-- What the counters of a batch should be: the number of its runs in each status.
use mathlib.Core.Path.{fun_ext}
use mastermind_7dtd_ai_serve.Base.{
  ℕ, ◌+◌, ◌<◌, ◌≡◌, refl, Bool, ◌&&◌, Option, none, some, List, [], ◌∷◌, arith, ◌==◌, if◌then◌else◌,
  found_is, find_first, update_where, count_where, HasDistinct, count_where-update_one, All, ap,
}
use mastermind_7dtd_ai_serve.Base.Int.{pos}
use mastermind_7dtd_ai_serve.Schema.{RunStatus, is_status, JobRun, Job, JobBatch}
use mastermind_7dtd_ai_serve.World.{World, find_run, find_job, find_batch}

-- The batch of the job with this id.
unfoldable pub batch_id_of : List Job → ℕ → Option ℕ
batch_id_of jobs i = elim (find_job i jobs) [ none ↦ none | some j ↦ j.batch_id ]

-- The batch and the organisation of the job with this id.
unfoldable pub job_key : List Job → ℕ → Option (Option ℕ × ℕ)
job_key jobs i = elim (find_job i jobs) [ none ↦ none | some j ↦ some (j.batch_id, j.org_id) ]

pub batch_id_of_key :
    (jobs jobs' : List Job)
    → ((i : ℕ) → job_key jobs' i ≡ job_key jobs i)
    → (i : ℕ) → batch_id_of jobs' i ≡ batch_id_of jobs i
unfolding batch_id_of job_key
batch_id_of_key jobs jobs' h i = ground (arith, h i)

-- An update that keeps ids, batches and organisations keeps the keys.
pub job_key-update_where :
    (p : Job → Bool) (f : Job → Job) (jobs : List Job) (i : ℕ)
    → ((j : Job) → (f j).id ≡ j.id)
    → ((j : Job) → (f j).batch_id ≡ j.batch_id)
    → ((j : Job) → (f j).org_id ≡ j.org_id)
    → job_key (update_where p f jobs) i ≡ job_key jobs i
unfolding job_key update_where find_first
job_key-update_where p f [] i h0 h1 h2 = refl
job_key-update_where p f (j ∷ jobs) i h0 h1 h2 =
    ground (arith, h0 j, h1 j, h2 j, job_key-update_where p f jobs i h0 h1 h2)

abbrev pub counts : List Job → ℕ → RunStatus → JobRun → Bool
counts jobs b s r = is_status s r.status && found_is (batch_id_of jobs r.job_id) b

-- The number of runs with the status whose job belongs to the batch.
unfoldable pub tally : List Job → List JobRun → ℕ → RunStatus → ℕ
tally jobs runs b s = count_where (counts jobs b s) runs

-- Each counter of the batch is the number of its runs in that status.
pub record IsTallied (jobs : List Job) (runs : List JobRun) (b : JobBatch) : Type 0 where
  pub pending : b.pending_count ≡ pos (tally jobs runs b.id RunStatus.pending)
  pub running : b.running_count ≡ pos (tally jobs runs b.id RunStatus.running)
  pub success : b.success_count ≡ pos (tally jobs runs b.id RunStatus.success)
  pub failed : b.failed_count ≡ pos (tally jobs runs b.id RunStatus.failed)
  pub cancelled : b.cancelled_count ≡ pos (tally jobs runs b.id RunStatus.cancelled)

-- Every batch row is tallied.
abbrev pub AllTallied : World → Type 0
AllTallied w = (i : ℕ) (b : JobBatch) → find_batch i w.batches ≡ some b → IsTallied w.jobs w.runs b

-- Primary keys are distinct and below the id generator.
pub record HasKeys (w : World) : Type 0 where
  pub runs_distinct : HasDistinct (λ (r : JobRun). r.id) w.runs
  pub jobs_distinct : HasDistinct (λ (j : Job). j.id) w.jobs
  pub jobs_fresh : All (λ (j : Job). j.id < w.next_id) w.jobs
  pub runs_fresh : All (λ (r : JobRun). (r.id < w.next_id) × (r.job_id < w.next_id)) w.runs
  pub batches_fresh : All (λ (b : JobBatch). b.id < w.next_id) w.batches
  pub jobs_batched : All (λ (j : Job). (b : ℕ) → j.batch_id ≡ some b → b < w.next_id) w.jobs

-- Keys and tallies read four parts of the state.
pub HasKeys-same :
    (w w' : World)
    → w'.runs ≡ w.runs
    → w'.jobs ≡ w.jobs
    → w'.batches ≡ w.batches
    → w'.next_id ≡ w.next_id
    → HasKeys w
    → HasKeys w'
HasKeys-same w w' h0 h1 h2 h3 k = record {
  runs_distinct = rw h0 k.runs_distinct;
  jobs_distinct = rw h1 k.jobs_distinct;
  jobs_fresh = rw (h1, h3) k.jobs_fresh;
  runs_fresh = rw (h0, h3) k.runs_fresh;
  batches_fresh = rw (h2, h3) k.batches_fresh;
  jobs_batched = rw (h1, h3) k.jobs_batched;
}

-- The state is sound: it has its keys, and every batch row is tallied.
pub record IsSound (w : World) : Type 0 where
  pub keys : HasKeys w
  pub open keys use *
  pub tallied : AllTallied w

-- A run that goes from one status to another takes one from the tally of the old status of its batch
-- and adds one to that of the new one.
pub tally-move :
    (jobs : List Job) (runs : List JobRun) (b k : ℕ) (s s0 s1 : RunStatus) (f : JobRun → JobRun)
    {r : JobRun}
    → HasDistinct (λ (x : JobRun). x.id) runs
    → find_run k runs ≡ some r
    → r.status ≡ s0
    → (f r).status ≡ s1
    → (f r).job_id ≡ r.job_id
    → tally jobs (update_where (λ x. x.id == k) f runs) b s
        + (if is_status s s0 && found_is (batch_id_of jobs r.job_id) b then 1 else 0)
      ≡ tally jobs runs b s
        + (if is_status s s1 && found_is (batch_id_of jobs r.job_id) b then 1 else 0)
unfolding tally
tally-move jobs runs b k s s0 s1 f {r} d e h0 h1 hj =
    let before : counts jobs b s r ≡ (is_status s s0 && found_is (batch_id_of jobs r.job_id) b) =
      cc in
    let after : counts jobs b s (f r) ≡ (is_status s s1 && found_is (batch_id_of jobs r.job_id) b) =
      cc in
    let moved = count_where-update_one (λ (x : JobRun). x.id) (counts jobs b s) f k runs d e in cc

pub tally_key :
    (jobs jobs' : List Job) (runs : List JobRun) (b : ℕ) (s : RunStatus)
    → ((i : ℕ) → job_key jobs' i ≡ job_key jobs i)
    → tally jobs' runs b s ≡ tally jobs runs b s
unfolding tally
tally_key jobs jobs' runs b s h =
    ap
      (λ (f : ℕ → Option ℕ).
        count_where (λ r. is_status s r.status && found_is (f r.job_id) b) runs)
      (fun_ext (batch_id_of_key jobs jobs' h))
