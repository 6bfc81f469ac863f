-- ===== src/Batches/Cancel.antt =====
-- batches.service.ts `cancelBatch`: exactly the pending runs of the batch are cancelled.
use mastermind_7dtd_ai_serve.Base.{
  ℕ, ◌+◌, ◌<◌, ◌≡◌, refl, subst, ◌≢◌, Bool, true, false, ◌&&◌, Option, none, some, List, arith,
  ◌==◌, if◌then◌else◌, found_is, find_first, select, update_where, All, find_first_holds, ==_iff,
  ==_refl, All-update_where, All-map, All-of, All-select, All-found, HasDistinct-select,
  find_first_wider,
}
use mastermind_7dtd_ai_serve.Base.Int.{◌+ℤ◌, ◌-ℤ◌}
use mastermind_7dtd_ai_serve.Schema.{RunStatus, JobRun, Job, JobBatch}
use mastermind_7dtd_ai_serve.World.{World, QueueEntry, find_batch}
use mastermind_7dtd_ai_serve.Batches.{audit, emit_progress, batch_not_found, batch_not_running}
use mastermind_7dtd_ai_serve.Batches.Cancellation.{
  is_running, cancel_jobs, count_cancelled, cancel_batch,
}
use mastermind_7dtd_ai_serve.Base.Result.{ok, or_throw->>=, require->>=, ok-injective}
use mastermind_7dtd_ai_serve.Runs.{RunsAdvance}
use mastermind_7dtd_ai_serve.Batches.CancelLoop.{latest_run_found, cancel_jobs_lem, IsCancelled}
use mastermind_7dtd_ai_serve.Batches.CounterRows.{find_batch-count}
use mastermind_7dtd_ai_serve.Batches.Tally.{
  HasKeys-same, batch_id_of, tally, IsTallied, AllTallied, IsSound,
}

and_left : (a b : Bool) → (a && b) ≡ true → a ≡ true
and_left a b h = ground arith

count_cancelled-IsTallied :
    (jobs : List Job) (runs runs' : List JobRun) (now n : ℕ) (b : JobBatch)
    → IsCancelled jobs b.id n runs runs'
    → IsTallied jobs runs b
    → IsTallied jobs runs' (count_cancelled now n b)
unfolding count_cancelled ◌+ℤ◌ ◌-ℤ◌
count_cancelled-IsTallied jobs runs runs' now n b c t = record {
  pending = ground (arith, c.pending);
  running = ground (arith, c.running);
  success = ground (arith, c.success);
  failed = ground (arith, c.failed);
  cancelled = ground (arith, c.cancelled);
}

other-IsTallied :
    (jobs : List Job) (runs runs' : List JobRun) (b : JobBatch)
    → IsCancelled jobs b.id 0 runs runs'
    → IsTallied jobs runs b
    → IsTallied jobs runs' b
other-IsTallied jobs runs runs' b c t = record {
  pending = ground (arith, c.pending);
  running = ground (arith, c.running);
  success = ground (arith, c.success);
  failed = ground (arith, c.failed);
  cancelled = ground (arith, c.cancelled);
}

module _ (removable : QueueEntry → Bool) (w : World) (org batch now : ℕ) (sound : IsSound w) where
  abbrev members : List Job
  members = select (λ j. found_is j.batch_id batch) w.jobs

  abbrev loop : World × ℕ
  loop = cancel_jobs removable org now w.runs members w

  members_in :
      (b : ℕ) → All (λ (j : Job). found_is (batch_id_of w.jobs j.id) b ≡ (batch == b)) members
  unfolding batch_id_of
  members_in b =
      All-map (λ j (f, t). rw (f, batch_id_of) (same j.batch_id t)) members
        (All-select _ (λ j. found_is j.batch_id batch) w.jobs
          (All-found (λ (j : Job). j.id) w.jobs sound.jobs_distinct))
    where
      same : (o : Option ℕ) → found_is o batch ≡ true → found_is o b ≡ (batch == b)
      same none h = cc
      same (some c) h = ground arith

  pub looped :
      (b : ℕ)
      → IsCancelled w.jobs b (if batch == b then loop.1 else 0) w.runs loop.0.runs
        × (loop.0.jobs ≡ w.jobs)
        × (loop.0.batches ≡ w.batches)
        × (loop.0.next_id ≡ w.next_id)
  looped b =
      cancel_jobs_lem removable org now w.runs sound.runs_distinct w.jobs b (batch == b) members w
        sound.runs_distinct (HasDistinct-select (λ (j : Job). j.id) _ w.jobs sound.jobs_distinct)
        (All-of _ (λ j r e. (latest_run_found j.id w.runs r sound.runs_distinct e).0) members)
        (members_in b)

  abbrev closed : World
  closed = record loop.0 {
    batches = update_where (λ x. x.id == batch) (count_cancelled now loop.1) loop.0.batches;
  }

  count_cancelled-id : (x : JobBatch) → (count_cancelled now loop.1 x).id ≡ x.id
  unfolding count_cancelled
  count_cancelled-id x = refl

  row_of : (i : ℕ) (x : JobBatch) → find_batch i w.batches ≡ some x → x.id ≡ i
  row_of i x e = (==_iff x.id i).0 (find_first_holds (λ (b : JobBatch). b.id == i) w.batches e)

  untouched_row :
      (i : ℕ) (x : JobBatch)
      → i ≢ batch
      → find_batch i w.batches ≡ some x
      → IsTallied w.jobs loop.0.runs x
  untouched_row i x n e =
      let other : (batch == x.id) ≡ false = let q = row_of i x e in ground arith in
      other-IsTallied w.jobs w.runs loop.0.runs x (rw other at (looped x.id).0)
        (sound.tallied i x e)

  here :
      (b : JobBatch)
      → find_batch batch w.batches ≡ some b
      → IsCancelled w.jobs b.id loop.1 w.runs loop.0.runs
  here b found =
      let same : (batch == b.id) ≡ true = let q = row_of batch b found in ground arith in
      rw same at (looped b.id).0

  closed_rows : (b : JobBatch) → find_batch batch w.batches ≡ some b → AllTallied closed
  closed_rows b found i x e =
      let (_, same_jobs, same_batches, _) = looped batch in
      rw same_jobs (
        find_batch-count (count_cancelled now loop.1) batch w.batches (IsTallied w.jobs loop.0.runs)
          count_cancelled-id found
          (count_cancelled-IsTallied w.jobs w.runs loop.0.runs now loop.1 b (here b found)
            (sound.tallied batch b found))
          untouched_row i x (rw same_batches at e))

  closed-IsSound : (b : JobBatch) → find_batch batch w.batches ≡ some b → IsSound closed
  closed-IsSound b found =
      let (c, same_jobs, same_batches, same_next) = looped batch in
      record {
        keys = record {
          runs_distinct = c.distinct;
          jobs_distinct = rw same_jobs sound.jobs_distinct;
          jobs_fresh = rw (same_jobs, same_next) sound.jobs_fresh;
          runs_fresh = rw same_next (c.fresh w.next_id sound.runs_fresh);
          batches_fresh =
              rw (same_batches, same_next)
                (All-update_where (λ (x : JobBatch). x.id < w.next_id) _
                  (count_cancelled now loop.1) w.batches (λ x l. rw (count_cancelled-id x) l)
                  sound.batches_fresh);
          jobs_batched = rw (same_jobs, same_next) sound.jobs_batched;
        };
        tallied = closed_rows b found;
      }

-- Some number of runs of the batch goes from pending to cancelled; its other tallies stay.
abbrev pub MovesPending : World → World → ℕ → Type 0
MovesPending w w' batch =
    (n : ℕ) × (tally w.jobs w'.runs batch RunStatus.pending + n
      ≡ tally w.jobs w.runs batch RunStatus.pending)
    × (tally w.jobs w'.runs batch RunStatus.cancelled
        ≡ tally w.jobs w.runs batch RunStatus.cancelled + n)
    × (tally w.jobs w'.runs batch RunStatus.running ≡ tally w.jobs w.runs batch RunStatus.running)
    × (tally w.jobs w'.runs batch RunStatus.success ≡ tally w.jobs w.runs batch RunStatus.success)
    × (tally w.jobs w'.runs batch RunStatus.failed ≡ tally w.jobs w.runs batch RunStatus.failed)

-- Cancelling a batch keeps the state sound, and its tallies move as `MovesPending` says.
pub cancel_batch-IsSound :
    (removable : QueueEntry → Bool) (w w' : World) (org batch now : ℕ) (b : JobBatch)
    → IsSound w
    → cancel_batch removable w org batch now ≡ ok (w', b)
    → IsSound w' × RunsAdvance w.runs w'.runs × MovesPending w w' batch
unfolding cancel_batch audit emit_progress
cancel_batch-IsSound removable w w' org batch now b sound e =
    let (b0, found, e1) =
      or_throw->>= (find_first (λ (x : JobBatch). x.id == batch && x.org_id == org) w.batches)
        batch_not_found _ e in
    let (_, e2) = require->>= (is_running b0.status) batch_not_running _ e1 in
    let (row, stored) =
      find_first_wider (λ (x : JobBatch). x.id == batch) (λ x. x.id == batch && x.org_id == org)
        w.batches (λ x h. and_left (x.id == batch) (x.org_id == org) h) found in
    let s = closed-IsSound removable w org batch now sound row stored in
    let c = rw (==_refl batch) at (looped removable w org batch now sound batch).0 in
    subst
      (λ (q : World × JobBatch).
        IsSound q.0 × RunsAdvance w.runs q.0.runs × MovesPending w q.0 batch)
      (ok-injective e2)
      (
        record {
          keys = HasKeys-same (closed removable w org batch now sound) _ refl refl refl refl s.keys;
          tallied = s.tallied;
        },
        c.advance,
        (
          (loop removable w org batch now sound).1,
          c.pending,
          c.cancelled,
          c.running,
          c.success,
          c.failed,
        ),
      )
