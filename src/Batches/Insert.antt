-- ===== src/Batches/Insert.antt =====
-- A new job with one pending run: keys stay distinct, and the tallies of its batch grow by that run.
use mastermind_7dtd_ai_serve.Base.{
  ℕ, ◌+◌, ◌<◌, ◌≡◌, refl, true, false, ◌&&◌, Option, none, some, List, [], ◌∷◌, ◌++◌, arith, ◌==◌,
  if◌then◌else◌, found_is, find_first, count_where, count_where-append, HasDistinct-append_new,
  find_first-append_new, find_first-append_absent, All, All-append, All-map, All-find_first,
  Option-cases, inl, inr,
}
use mastermind_7dtd_ai_serve.Schema.{RunStatus, is_status, JobRun, Job}
use mastermind_7dtd_ai_serve.World.{World, find_job}
use mastermind_7dtd_ai_serve.Batches.Tally.{HasKeys, batch_id_of, tally, counts}

module _ (w w' : World) (j : Job) (r : JobRun) (keys : HasKeys w)
    (jobs : w'.jobs ≡ w.jobs ++ j ∷ []) (runs : w'.runs ≡ w.runs ++ r ∷ [])
    (next : w'.next_id ≡ w.next_id + 2) (batches : w'.batches ≡ w.batches)
    (job_id : j.id ≡ w.next_id) (run_id : r.id ≡ w.next_id + 1) (run_job : r.job_id ≡ w.next_id)
    (batched : (b : ℕ) → j.batch_id ≡ some b → b < w.next_id) where
  pub insert-HasKeys : HasKeys w'
  insert-HasKeys = record {
    runs_distinct = rw runs (
        HasDistinct-append_new (λ (x : JobRun). x.id) w.runs r
          (All-map (λ x (p, q) e. omega arith) w.runs keys.runs_fresh) keys.runs_distinct);
    jobs_distinct = rw jobs (
        HasDistinct-append_new (λ (x : Job). x.id) w.jobs j
          (All-map (λ x p e. omega arith) w.jobs keys.jobs_fresh) keys.jobs_distinct);
    jobs_fresh =
        rw (jobs, next)
          (All-append (λ (x : Job). x.id < w.next_id + 2) w.jobs (j ∷ [])
            (All-map (λ x p. omega arith) w.jobs keys.jobs_fresh) (omega arith, tt));
    runs_fresh =
        rw (runs, next)
          (All-append (λ (x : JobRun). (x.id < w.next_id + 2) × (x.job_id < w.next_id + 2)) w.runs
            (r ∷ []) (All-map (λ x (p, q). (omega arith, omega arith)) w.runs keys.runs_fresh)
            ((omega arith, omega arith), tt));
    batches_fresh = rw (batches, next) (All-map (λ x p. omega arith) w.batches keys.batches_fresh);
    jobs_batched =
        rw (jobs, next)
          (All-append (λ (x : Job). (b : ℕ) → x.batch_id ≡ some b → b < w.next_id + 2) w.jobs
            (j ∷ []) (All-map (λ x p b e. omega (arith, p b e)) w.jobs keys.jobs_batched)
            (λ b e. omega (arith, batched b e), tt));
  }

  batch_id_of_old : (i : ℕ) → i < w.next_id → batch_id_of w'.jobs i ≡ batch_id_of w.jobs i
  unfolding batch_id_of
  batch_id_of_old i h =
      rw (jobs, find_first-append_new (λ (x : Job). x.id) i w.jobs j (omega arith), batch_id_of)

  batch_id_of_new : batch_id_of w'.jobs r.job_id ≡ j.batch_id
  unfolding batch_id_of find_first
  batch_id_of_new =
      let absent =
        find_first-append_absent (λ (x : Job). x.id) r.job_id w.jobs (j ∷ [])
          (All-map (λ x p e. omega arith) w.jobs keys.jobs_fresh) in
      let hit : (j.id == r.job_id) ≡ true = ground arith in
      rw (jobs, absent, batch_id_of) (rw (hit, find_first))

  tally_old :
      (b : ℕ) (s : RunStatus) (rs : List JobRun)
      → All (λ (x : JobRun). (x.id < w.next_id) × (x.job_id < w.next_id)) rs
      → tally w'.jobs rs b s ≡ tally w.jobs rs b s
  unfolding tally count_where
  tally_old b s [] h = refl
  tally_old b s (x ∷ rs) ((_, p), h) = rw (batch_id_of_old x.job_id p, tally_old b s rs h)

  pub insert-tally :
      (b : ℕ) (s : RunStatus)
      → tally w'.jobs w'.runs b s
        ≡ tally w.jobs w.runs b s + (if is_status s r.status && found_is j.batch_id b then 1 else 0)
  unfolding tally count_where
  insert-tally b s =
      rw (runs, count_where-append (counts w'.jobs b s) w.runs (r ∷ []))
        (rw batch_id_of_new (omega (arith, tally_old b s w.runs keys.runs_fresh)))

-- No run counts in a batch whose id has not been given out.
module _ (jobs : List Job) (n : ℕ)
    (batched : All (λ (x : Job). (b : ℕ) → x.batch_id ≡ some b → b < n) jobs) where
  unused : (i : ℕ) → found_is (batch_id_of jobs i) n ≡ false
  unfolding batch_id_of
  unused i = elim (Option-cases (find_job i jobs)) [
    | inl e ↦ rw (e, batch_id_of)
    | inr (j, e) ↦
        rw (e, batch_id_of)
          (below j.batch_id (
            All-find_first (λ (x : Job). (b : ℕ) → x.batch_id ≡ some b → b < n) (λ x. x.id == i)
              jobs batched e))
  ]
    where
      below : (o : Option ℕ) → ((b : ℕ) → o ≡ some b → b < n) → found_is o n ≡ false
      below none h = refl
      below (some b) h = let l = h b refl in ground arith

  pub tally_unused : (runs : List JobRun) (s : RunStatus) → tally jobs runs n s ≡ 0
  unfolding tally count_where
  tally_unused [] s = refl
  tally_unused (r ∷ runs) s = ground (arith, unused r.job_id, tally_unused runs s)
