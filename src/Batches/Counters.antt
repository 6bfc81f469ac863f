-- ===== src/Batches/Counters.antt =====
-- batches.service.ts `recordJobRunStarted` and `recordJobRunCompleted` keep the counters of every
-- batch equal to the number of its runs in each status, and finish a batch at the right moment.
use mastermind_7dtd_ai_serve.Base.{
  ℕ, ◌<◌, ◌≡◌, refl, ◌≢◌, true, false, Option, none, some, List, arith, ◌==◌, found_is,
  update_where, find_first_holds, Option-cases, Bool-cases, HasDistinct, ==_refl, sym, ◌∙◌, subst,
  ==_iff, inl, inr, ap, All, All-update_where,
}
use mastermind_7dtd_ai_serve.Schema.{RunStatus, JobRun, Job, JobBatch}
use mastermind_7dtd_ai_serve.World.{World, find_run, find_job, find_batch}
use mastermind_7dtd_ai_serve.Batches.{
  count_completed, finish_batch, batch_of_job, record_job_run_completed, count_started,
  record_job_run_started,
}
use mastermind_7dtd_ai_serve.Batches.Tally.{
  AllTallied, batch_id_of_key, job_key, batch_id_of, IsTallied,
}
use mastermind_7dtd_ai_serve.Batches.CounterRows.{
  IsTallied-started, IsTallied-completed, IsTallied-other, batch_of_job_lem, count_completed-id,
  find_batch-count, finish_batch-IsTallied, finish_batch-id,
}

-- What the lookup of the job's batch says of the tallies that the run counts in.
module _ (w : World) (org jid : ℕ) {j : Job} (found_job : find_job jid w.jobs ≡ some j)
    (in_org : j.org_id ≡ org) where
  batch_id_lem : batch_id_of w.jobs jid ≡ j.batch_id
  unfolding batch_id_of
  batch_id_lem = rw (found_job, batch_id_of)

  found_row : {i : ℕ} {x : JobBatch} → find_batch i w.batches ≡ some x → x.id ≡ i
  found_row {i} {x} e =
      (==_iff x.id i).0 (find_first_holds (λ (b : JobBatch). b.id == i) w.batches e)

  pub batch_of_job-none :
      batch_of_job w org jid ≡ none
      → (i : ℕ) (x : JobBatch) → find_batch i w.batches ≡ some x
      → found_is (batch_id_of w.jobs jid) x.id ≡ false
  batch_of_job-none h i x e =
      rw batch_id_lem (go j.batch_id refl (sym (batch_of_job_lem w org jid found_job in_org) ∙ h))
    where
      go :
          (o : Option ℕ)
          → j.batch_id ≡ o
          → elim o [ none ↦ none | some b ↦ find_batch b w.batches ] ≡ none
          → found_is o x.id ≡ false
      go none p q = refl
      go (some b) p q = elim (Bool-cases (b == x.id)) [
        | inl t ↦
            let same : b ≡ i = ground (arith, found_row e) in
            let lost : find_batch i w.batches ≡ none = rw (← same) q in cc
        | inr g ↦ g
      ]

  pub batch_of_job-some :
      {b : JobBatch}
      → batch_of_job w org jid ≡ some b
      → (batch_id_of w.jobs jid ≡ some b.id) × (find_batch b.id w.batches ≡ some b)
  batch_of_job-some {b} h =
      rw batch_id_lem (go j.batch_id refl (sym (batch_of_job_lem w org jid found_job in_org) ∙ h))
    where
      go :
          (o : Option ℕ)
          → j.batch_id ≡ o
          → elim o [ none ↦ none | some c ↦ find_batch c w.batches ] ≡ some b
          → (o ≡ some b.id) × (find_batch b.id w.batches ≡ some b)
      go none p q = cc
      go (some c) p q = (
        ap some (sym (found_row q)),
        subst (λ (i : ℕ). find_batch i w.batches ≡ some b) (sym (found_row q)) q,
      )

-- `w` is the state after the run `r` has been moved, with the counters of the tables before.
module _ (w : World) (jobs : List Job) (runs : List JobRun) (k org : ℕ) (f : JobRun → JobRun)
    {r : JobRun} {j : Job} (distinct : HasDistinct (λ (x : JobRun). x.id) runs)
    (found : find_run k runs ≡ some r) (keeps : (f r).job_id ≡ r.job_id)
    (same_jobs : (i : ℕ) → job_key w.jobs i ≡ job_key jobs i)
    (moved : w.runs ≡ update_where (λ x. x.id == k) f runs)
    (found_job : find_job r.job_id w.jobs ≡ some j) (in_org : j.org_id ≡ org)
    (tallied : (i : ℕ) (b : JobBatch)
      → find_batch i w.batches ≡ some b
      → IsTallied jobs runs b) where
  same_id : batch_id_of w.jobs r.job_id ≡ batch_id_of jobs r.job_id
  same_id = batch_id_of_key jobs w.jobs same_jobs r.job_id

  -- Batches in which the run does not count keep their tallies.
  unmoved :
      (i : ℕ) (x : JobBatch)
      → found_is (batch_id_of w.jobs r.job_id) x.id ≡ false
      → find_batch i w.batches ≡ some x
      → IsTallied w.jobs w.runs x
  unmoved i x h e =
      IsTallied-other jobs w.jobs runs w.runs x k f distinct found keeps same_jobs moved
        (rw same_id at h) (tallied i x e)

  -- Counting at the job's batch restores the tallies of the whole table.
  counted :
      (count : JobBatch → JobBatch) (b : JobBatch)
      → ((x : JobBatch) → (count x).id ≡ x.id)
      → batch_of_job w org r.job_id ≡ some b
      → (found_is (batch_id_of jobs r.job_id) b.id ≡ true
          → IsTallied jobs runs b
          → IsTallied w.jobs w.runs (count b))
      → (i : ℕ) (x : JobBatch)
      → find_batch i (update_where (λ y. y.id == b.id) count w.batches) ≡ some x
      → IsTallied w.jobs w.runs x
  counted count b keeps_id e step =
      let (at_b, row) = batch_of_job-some w org r.job_id found_job in_org e in
      find_batch-count count b.id w.batches (IsTallied w.jobs w.runs) keeps_id row
        (step (rw (← same_id) (rw at_b (==_refl b.id))) (tallied b.id b row))
        (λ i x n h.
          unmoved i x
            (rw at_b (let back = found_row w org r.job_id found_job in_org h in ground arith)) h)

  pub record_job_run_started-AllTallied :
      r.status ≡ RunStatus.pending
      → (f r).status ≡ RunStatus.running
      → AllTallied (record_job_run_started w org r.job_id)
  unfolding record_job_run_started
  record_job_run_started-AllTallied h0 h1 = elim (Option-cases (batch_of_job w org r.job_id)) [
    | inl e ↦
        rw (e, record_job_run_started)
          (λ i x h. unmoved i x (batch_of_job-none w org r.job_id found_job in_org e i x h) h)
    | inr (b, e) ↦
        rw (e, record_job_run_started)
          (counted count_started b (λ x. unfold count_started in refl) e
            (λ here t.
              IsTallied-started jobs w.jobs runs w.runs b k f distinct found keeps same_jobs moved
                here h0 h1 t))
  ]

  pub record_job_run_completed-AllTallied :
      (status : RunStatus) (now : ℕ)
      → status ≢ RunStatus.pending
      → status ≢ RunStatus.running
      → r.status ≡ RunStatus.running
      → (f r).status ≡ status
      → AllTallied (record_job_run_completed w org r.job_id status RunStatus.running now)
  unfolding record_job_run_completed
  record_job_run_completed-AllTallied status now np nr h0 h1 =
      elim (Option-cases (batch_of_job w org r.job_id)) [
        | inl e ↦
            rw (e, record_job_run_completed)
              (λ i x h. unmoved i x (batch_of_job-none w org r.job_id found_job in_org e i x h) h)
        | inr (b, e) ↦
            rw (e, record_job_run_completed)
              (counted (λ x. finish_batch now (count_completed status RunStatus.running x)) b
                (λ x.
                  finish_batch-id now (count_completed status RunStatus.running x)
                  ∙ count_completed-id status RunStatus.running x)
                e
                (λ here t.
                  finish_batch-IsTallied w.jobs w.runs now
                    (count_completed status RunStatus.running b)
                    (IsTallied-completed jobs w.jobs runs w.runs b k f distinct found keeps
                      same_jobs moved here status np nr h0 h1 t)))
      ]

-- A job outside every batch moves no counter.
pub record_job_run_unbatched :
    (w : World) (org i now : ℕ) (s p : RunStatus) {j : Job}
    → find_job i w.jobs ≡ some j
    → j.org_id ≡ org
    → j.batch_id ≡ none
    → (record_job_run_started w org i ≡ w) × (record_job_run_completed w org i s p now ≡ w)
unfolding record_job_run_started record_job_run_completed
record_job_run_unbatched w org i now s p e o h =
    let lost : batch_of_job w org i ≡ none = rw h at (batch_of_job_lem w org i e o) in
    (rw (lost, record_job_run_started), rw (lost, record_job_run_completed))

-- Neither handler writes the tables of jobs and runs or the id generator, and both keep the ids of
-- the batches below it.
abbrev pub KeepsKeys : World → World → Type 0
KeepsKeys w w' =
    (w'.jobs ≡ w.jobs)
    × (w'.runs ≡ w.runs)
    × (w'.next_id ≡ w.next_id)
    × (All (λ (b : JobBatch). b.id < w.next_id) w.batches
        → All (λ (b : JobBatch). b.id < w.next_id) w'.batches)

pub record_job_run_started-KeepsKeys :
    (w : World) (org i : ℕ) → KeepsKeys w (record_job_run_started w org i)
unfolding record_job_run_started
record_job_run_started-KeepsKeys w org i = elim (Option-cases (batch_of_job w org i)) [
  | inl e ↦ rw (e, record_job_run_started) (refl, refl, refl, λ h. h)
  | inr (b, e) ↦
      rw (e, record_job_run_started)
        (
          refl,
          refl,
          refl,
          λ h.
              All-update_where (λ (x : JobBatch). x.id < w.next_id) (λ y. y.id == b.id)
                count_started w.batches (λ x l. unfold count_started in l) h,
        )
]

pub record_job_run_completed-KeepsKeys :
    (w : World) (org i : ℕ) (s p : RunStatus) (now : ℕ)
    → KeepsKeys w (record_job_run_completed w org i s p now)
unfolding record_job_run_completed
record_job_run_completed-KeepsKeys w org i s p now = elim (Option-cases (batch_of_job w org i)) [
  | inl e ↦ rw (e, record_job_run_completed) (refl, refl, refl, λ h. h)
  | inr (b, e) ↦
      rw (e, record_job_run_completed)
        (
          refl,
          refl,
          refl,
          λ h.
              All-update_where (λ (x : JobBatch). x.id < w.next_id) (λ y. y.id == b.id)
                (λ x. finish_batch now (count_completed s p x)) w.batches
                (λ x l.
                  rw (finish_batch-id now (count_completed s p x) ∙ count_completed-id s p x) l)
                h,
        )
]
