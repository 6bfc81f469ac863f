-- ===== src/Batches/Create.antt =====
-- batches.service.ts `createBatch`: one pending run for each server instance, counted as such.
use mastermind_7dtd_ai_serve.Base.{
  ℕ, ◌+◌, ◌<◌, ◌≡◌, refl, ◌∙◌, false, ◌&&◌, Option, some, List, [], ◌∷◌, ◌++◌, arith, ◌==◌,
  if◌then◌else◌, find_first, length, All-append, All-map, inl, inr, subst, find_first-append_cases,
  find_first-append_absent, All-find_first, ==_refl,
}
use mastermind_7dtd_ai_serve.Base.Int.{pos}
use mastermind_7dtd_ai_serve.Base.Text.{Text}
use mastermind_7dtd_ai_serve.Base.Result.{ok, require->>=, ok-injective}
use mastermind_7dtd_ai_serve.Schema.{Fields, RunStatus, is_status, JobBatch, ServerInstance}
use mastermind_7dtd_ai_serve.World.{Action, World, find_batch}
use mastermind_7dtd_ai_serve.Runs.{
  RunsAdvance, RunsAdvance-refl, RunsAdvance-trans, RunsAdvance-append,
}
use mastermind_7dtd_ai_serve.Batches.{
  CreateBatch, instances_missing, audit, enqueue_instance, enqueue_instances, instances_in,
  new_batch, job_type_of_batch, create_batch,
}
use mastermind_7dtd_ai_serve.Batches.Tally.{
  HasKeys, HasKeys-same, IsTallied, AllTallied, IsSound, tally,
}
use mastermind_7dtd_ai_serve.Batches.Insert.{insert-HasKeys, insert-tally, tally_unused}

-- The effect of the loop over `n` instances on the keys, the batches and the tallies.
record IsEnqueued (batch n : ℕ) (w w' : World) : Type 0 where
  keys : HasKeys w'
  batches : w'.batches ≡ w.batches
  advance : RunsAdvance w.runs w'.runs
  tallies :
      (b : ℕ) (s : RunStatus)
      → tally w'.jobs w'.runs b s
        ≡ tally w.jobs w.runs b s + (if is_status s RunStatus.pending && batch == b then n else 0)

module _ (org : ℕ) (user : Option ℕ) (batch : ℕ) (t : Text) (payload : Option Fields)
    (now : ℕ) where
  enqueue_instance_lem :
      (w : World) (si : ServerInstance)
      → HasKeys w
      → batch < w.next_id
      → IsEnqueued batch 1 w (enqueue_instance org user batch t payload now w si)
  unfolding enqueue_instance
  enqueue_instance_lem w si keys h = record {
    keys =
        insert-HasKeys w (enqueue_instance org user batch t payload now w si) _ _ keys refl refl
          refl refl refl refl refl (λ b e. ground arith);
    batches = refl;
    advance = RunsAdvance-append w.runs _;
    tallies = λ b s.
        insert-tally w (enqueue_instance org user batch t payload now w si) _ _ keys refl refl refl
          refl refl refl refl (λ b e. ground arith) b s;
  }

  enqueue_instance_next :
      (w : World) (si : ServerInstance)
      → (enqueue_instance org user batch t payload now w si).next_id ≡ w.next_id + 2
  unfolding enqueue_instance
  enqueue_instance_next w si = refl

  enqueue_instances_lem :
      (w : World) (sis : List ServerInstance)
      → HasKeys w
      → batch < w.next_id
      → IsEnqueued batch (length sis) w (enqueue_instances org user batch t payload now w sis)
  unfolding enqueue_instances
  enqueue_instances_lem w [] keys h = record {
    keys = keys;
    batches = refl;
    advance = RunsAdvance-refl w.runs;
    tallies = λ b s. ground arith;
  }
  enqueue_instances_lem w (si ∷ sis) keys h =
      let w1 = enqueue_instance org user batch t payload now w si in
      let one = enqueue_instance_lem w si keys h in
      let rest =
        enqueue_instances_lem w1 sis one.keys (omega (arith, enqueue_instance_next w si)) in
      record {
        keys = rest.keys;
        batches = rest.batches ∙ one.batches;
        advance = RunsAdvance-trans w.runs w1.runs _ one.advance rest.advance;
        tallies = λ b s. ground (arith, one.tallies b s, rest.tallies b s);
      }

module _ (w : World) (org : ℕ) (user : Option ℕ) (dto : CreateBatch) (now : ℕ)
    (sound : IsSound w) where
  abbrev sis : List ServerInstance
  sis = instances_in w org dto.instance_ids

  abbrev row : JobBatch
  row = new_batch w org user dto.type (length sis) now

  abbrev opened : World
  opened = record w { batches = w.batches ++ row ∷ []; next_id = w.next_id + 1 }

  abbrev filled : World
  filled = enqueue_instances org user row.id (job_type_of_batch dto.type) dto.payload now opened sis

  opened-HasKeys : HasKeys opened
  unfolding new_batch
  opened-HasKeys = record {
    runs_distinct = sound.runs_distinct;
    jobs_distinct = sound.jobs_distinct;
    jobs_fresh = All-map (λ x p. omega arith) w.jobs sound.jobs_fresh;
    runs_fresh = All-map (λ x (p, q). (omega arith, omega arith)) w.runs sound.runs_fresh;
    batches_fresh =
        All-append (λ (x : JobBatch). x.id < w.next_id + 1) w.batches (row ∷ [])
          (All-map (λ x p. omega arith) w.batches sound.batches_fresh) (omega arith, tt);
    jobs_batched = All-map (λ x p b e. omega (arith, p b e)) w.jobs sound.jobs_batched;
  }

  row_id : row.id ≡ w.next_id
  unfolding new_batch
  row_id = refl

  looped : IsEnqueued row.id (length sis) opened filled
  looped =
      enqueue_instances_lem org user row.id (job_type_of_batch dto.type) dto.payload now opened sis
        opened-HasKeys (omega (arith, row_id))

  -- The new batch: all its runs are pending.
  row-IsTallied : IsTallied filled.jobs filled.runs row
  unfolding new_batch
  row-IsTallied =
      let t = looped.tallies w.next_id in
      let z = λ (s : RunStatus). tally_unused w.jobs w.next_id sound.jobs_batched w.runs s in
      record {
        pending = ground (arith, t RunStatus.pending, z RunStatus.pending);
        running = ground (arith, t RunStatus.running, z RunStatus.running);
        success = ground (arith, t RunStatus.success, z RunStatus.success);
        failed = ground (arith, t RunStatus.failed, z RunStatus.failed);
        cancelled = ground (arith, t RunStatus.cancelled, z RunStatus.cancelled);
      }

  -- The batches that were there before.
  old-IsTallied :
      (x : JobBatch)
      → (row.id == x.id) ≡ false
      → IsTallied w.jobs w.runs x
      → IsTallied filled.jobs filled.runs x
  old-IsTallied x n t = record {
    pending = ground (arith, looped.tallies x.id RunStatus.pending);
    running = ground (arith, looped.tallies x.id RunStatus.running);
    success = ground (arith, looped.tallies x.id RunStatus.success);
    failed = ground (arith, looped.tallies x.id RunStatus.failed);
    cancelled = ground (arith, looped.tallies x.id RunStatus.cancelled);
  }

  filled-AllTallied : AllTallied filled
  filled-AllTallied i x e =
      elim (find_first-append_cases (λ (b : JobBatch). b.id == i) w.batches row
        (rw looped.batches at e)) [
          | inl h ↦
              let below =
                All-find_first (λ (b : JobBatch). b.id < w.next_id) (λ b. b.id == i) w.batches
                  sound.batches_fresh h in
              old-IsTallied x (ground (arith, row_id)) (sound.tallied i x h)
          | inr (same, _) ↦ subst (IsTallied filled.jobs filled.runs) same row-IsTallied
        ]

  abbrev audited : World
  audited = audit org user (Action.batch_created row.type (length sis)) row.id filled

  created : IsSound audited × (find_batch row.id audited.batches ≡ some row)
  unfolding audit find_first
  created = (
    record {
      keys = HasKeys-same filled audited refl refl refl refl looped.keys;
      tallied = filled-AllTallied;
    },
    rw looped.batches (
        rw
          (find_first-append_absent (λ (b : JobBatch). b.id) row.id w.batches (row ∷ [])
            (All-map (λ x p e. omega (arith, row_id)) w.batches sound.batches_fresh))
          (rw (==_refl row.id))),
  )

  advanced : RunsAdvance w.runs audited.runs
  unfolding audit
  advanced = looped.advance

-- The table of batches after a creation.
pub create_batch-batches :
    (w w' : World) (org : ℕ) (user : Option ℕ) (dto : CreateBatch) (now : ℕ) (b : JobBatch)
    → IsSound w
    → create_batch w org user dto now ≡ ok (w', b)
    → (w'.batches ≡ w.batches ++ b ∷ [])
      × (b ≡ new_batch w org user dto.type (length (instances_in w org dto.instance_ids)) now)
unfolding create_batch audit
create_batch-batches w w' org user dto now b sound e =
    let (enough, e1) =
      require->>= (length (sis w org user dto now sound) == length dto.instance_ids)
        (instances_missing _) _ e in
    subst
      (λ (q : World × JobBatch).
        (q.0.batches ≡ w.batches ++ q.1 ∷ []) × (q.1 ≡ row w org user dto now sound))
      (ok-injective e1) ((looped w org user dto now sound).batches, refl)

pub create_batch-IsSound :
    (w w' : World) (org : ℕ) (user : Option ℕ) (dto : CreateBatch) (now : ℕ) (b : JobBatch)
    → IsSound w
    → create_batch w org user dto now ≡ ok (w', b)
    → IsSound w'
      × (find_batch b.id w'.batches ≡ some b)
      × (b.pending_count ≡ pos (length dto.instance_ids))
      × RunsAdvance w.runs w'.runs
unfolding create_batch
create_batch-IsSound w w' org user dto now b sound e =
    let (enough, e1) =
      require->>= (length (sis w org user dto now sound) == length dto.instance_ids)
        (instances_missing _) _ e in
    let (s, f) = created w org user dto now sound in
    subst
      (λ (q : World × JobBatch).
        IsSound q.0
        × (find_batch q.1.id q.0.batches ≡ some q.1)
        × (q.1.pending_count ≡ pos (length dto.instance_ids))
        × RunsAdvance w.runs q.0.runs)
      (ok-injective e1) (s, f, unfold new_batch in ground arith, advanced w org user dto now sound)
