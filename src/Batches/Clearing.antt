-- ===== src/Batches/Clearing.antt =====
-- batches.service.ts `cancelBatch`: what its loop does to the runs of its jobs.
use mastermind_7dtd_ai_serve.Base.{
  ℕ, ◌≡◌, refl, sym, ap, ◌∙◌, subst, ◌≢◌, Bool, true, false, ◌&&◌, Option, none, some, List, [],
  ◌∷◌, arith, ◌==◌, found_is, find_first, select, update_where, All, ==_iff, All-map,
  All-update_where, HasDistinct, Option-cases, Bool-cases, inl, inr, count_where-none,
}
use mastermind_7dtd_ai_serve.Schema.{RunStatus, is_status, JobRun, Job}
use mastermind_7dtd_ai_serve.World.{World, QueueEntry}
use mastermind_7dtd_ai_serve.Batches.Cancellation.{
  latest_run, cancel_run, remove_entry, cancel_jobs,
}
use mastermind_7dtd_ai_serve.Batches.Tally.{batch_id_of, counts, tally}

latest_run_absent :
    (job : ℕ) (runs : List JobRun)
    → All (λ (r : JobRun). r.job_id ≢ job) runs
    → latest_run job runs ≡ none
unfolding latest_run
latest_run_absent job [] n = refl
latest_run_absent job (x ∷ runs) (n, ns) =
    let other : (x.job_id == job) ≡ false = ground arith in rw other (latest_run_absent job runs ns)

pub latest_run_only :
    (job : ℕ) (runs : List JobRun)
    → HasDistinct (λ (r : JobRun). r.job_id) runs
    → latest_run job runs ≡ find_first (λ r. r.job_id == job) runs
unfolding latest_run find_first
latest_run_only job [] d = refl
latest_run_only job (x ∷ runs) (n, d) = elim (Bool-cases (x.job_id == job)) [
  | inr g ↦ rw g (latest_run_only job runs d)
  | inl t ↦ rw (t, latest_run_absent job runs (here t)) refl
]
  where
    here : (x.job_id == job) ≡ true → All (λ (r : JobRun). r.job_id ≢ job) runs
    here t = subst (λ k. All (λ (r : JobRun). r.job_id ≢ k) runs) ((==_iff x.job_id job).0 t) n

abbrev is_pending_of : ℕ → JobRun → Bool
is_pending_of job r = is_status RunStatus.pending r.status && r.job_id == job

-- No run of the job is pending.
abbrev IsCleared : ℕ → List JobRun → Type 0
IsCleared job = All (λ (r : JobRun). is_pending_of job r ≡ false)

clear_hit :
    (now job : ℕ) (r : JobRun) (runs : List JobRun)
    → All (λ (x : JobRun). is_pending_of job x ≡ true → some r ≡ some x) runs
    → IsCleared job (update_where (λ x. x.id == r.id) (cancel_run now) runs)
unfolding update_where
clear_hit now job r [] h = tt
clear_hit now job r (x ∷ runs) (h, hs) = elim (Bool-cases (x.id == r.id)) [
  | inl t ↦ rw t (refl, clear_hit now job r runs hs)
  | inr g ↦ rw g (elim (Bool-cases (is_pending_of job x)) [
    | inr free ↦ (free, clear_hit now job r runs hs)
    | inl held ↦ let same : some r ≡ some x = h held in absurd (ground arith)
  ])
]

module _ (removable : QueueEntry → Bool) (org now : ℕ) (seen : List JobRun) where
  -- A pending run is the latest of its job.
  abbrev pub AreLatest : List JobRun → Type 0
  AreLatest = All (λ (r : JobRun).
      is_status RunStatus.pending r.status ≡ true → latest_run r.job_id seen ≡ some r)

  at_job :
      (job : ℕ) (o : Option JobRun) (runs : List JobRun)
      → latest_run job seen ≡ o
      → AreLatest runs
      → All (λ (x : JobRun). is_pending_of job x ≡ true → o ≡ some x) runs
  at_job job o runs e h =
      All-map
        (λ x l held.
          let pending : is_status RunStatus.pending x.status ≡ true = ground arith in
          let own : x.job_id ≡ job = ground arith in
          sym e ∙ (ap (λ k. latest_run k seen) (sym own) ∙ l pending))
        runs h

  cancel_jobs-IsCleared :
      (job : ℕ) (js : List Job) (w : World)
      → IsCleared job w.runs
      → IsCleared job (cancel_jobs removable org now seen js w).0.runs
  unfolding cancel_jobs
  cancel_jobs-IsCleared job [] w h = h
  cancel_jobs-IsCleared job (j ∷ js) w h = elim (Option-cases (latest_run j.id seen)) [
    | inl e ↦ rw (e, cancel_jobs) (cancel_jobs-IsCleared job js w h)
    | inr (r, e) ↦ elim (Bool-cases (is_status RunStatus.pending r.status)) [
      | inr g ↦ rw (e, cancel_jobs) (rw (g, cancel_jobs) (cancel_jobs-IsCleared job js w h))
      | inl g ↦
          rw (e, cancel_jobs)
            (rw (g, cancel_jobs)
              (cancel_jobs-IsCleared job js _
                (All-update_where _ (λ x. x.id == r.id) (cancel_run now) w.runs (λ x l. refl) h)))
    ]
  ]

  -- The loop passes over a job without a pending latest run.
  passed_none :
      (j : Job) (js : List Job) (w : World)
      → latest_run j.id seen ≡ none
      → cancel_jobs removable org now seen (j ∷ js) w ≡ cancel_jobs removable org now seen js w
  unfolding cancel_jobs
  passed_none j js w e = rw (e, cancel_jobs) refl

  passed_over :
      (j : Job) (js : List Job) (w : World) (r : JobRun)
      → latest_run j.id seen ≡ some r
      → is_status RunStatus.pending r.status ≡ false
      → cancel_jobs removable org now seen (j ∷ js) w ≡ cancel_jobs removable org now seen js w
  unfolding cancel_jobs
  passed_over j js w r e g = rw (e, cancel_jobs) (rw (g, cancel_jobs) refl)

  abbrev without : JobRun → World → World
  without r w = record w {
    runs = update_where (λ x. x.id == r.id) (cancel_run now) w.runs;
    queue = remove_entry removable org r.id w.queue;
  }

  taken_out :
      (j : Job) (js : List Job) (w : World) (r : JobRun)
      → latest_run j.id seen ≡ some r
      → is_status RunStatus.pending r.status ≡ true
      → (cancel_jobs removable org now seen (j ∷ js) w).0
        ≡ (cancel_jobs removable org now seen js (without r w)).0
  unfolding cancel_jobs
  taken_out j js w r e g = rw (e, cancel_jobs) (rw (g, cancel_jobs) refl)

  pub cancel_jobs_done :
      (js : List Job) (w : World)
      → AreLatest w.runs
      → All (λ (j : Job). IsCleared j.id (cancel_jobs removable org now seen js w).0.runs) js
  cancel_jobs_done [] w h = tt
  cancel_jobs_done (j ∷ js) w h =
      let rest = λ (v : World) (l : AreLatest v.runs). cancel_jobs_done js v l in
      elim (Option-cases (latest_run j.id seen)) [
        | inl e ↦
            let free : IsCleared j.id w.runs =
              All-map (λ x l. unheld x none l (λ q. cc)) w.runs (at_job j.id none w.runs e h) in
            both (λ q. q.0) (passed_none j js w e) (cancel_jobs-IsCleared j.id js w free, rest w h)
        | inr (r, e) ↦ elim (Bool-cases (is_status RunStatus.pending r.status)) [
          | inr g ↦
              let free : IsCleared j.id w.runs =
                All-map (λ x l. settled x r g l) w.runs (at_job j.id (some r) w.runs e h) in
              both (λ q. q.0) (passed_over j js w r e g)
                (cancel_jobs-IsCleared j.id js w free, rest w h)
          | inl g ↦
              let free = clear_hit now j.id r w.runs (at_job j.id (some r) w.runs e h) in
              both (λ q. q) (taken_out j js w r e g)
                (
                  cancel_jobs-IsCleared j.id js (without r w) free,
                  rest (without r w) (
                      All-update_where _ (λ x. x.id == r.id) (cancel_run now) w.runs (λ x l q. cc)
                        h),
                )
        ]
      ]
    where
      both :
          {A : Type 0} (end' : A → World) {q q' : A}
          → q ≡ q'
          → IsCleared j.id (end' q').runs × All (λ (k : Job). IsCleared k.id (end' q').runs) js
          → IsCleared j.id (end' q).runs × All (λ (k : Job). IsCleared k.id (end' q).runs) js
      both end' e c =
          subst
            (λ v. IsCleared j.id (end' v).runs × All (λ (k : Job). IsCleared k.id (end' v).runs) js)
            (sym e) c

      unheld :
          (x : JobRun) (o : Option JobRun)
          → (is_pending_of j.id x ≡ true → o ≡ some x)
          → (o ≢ some x)
          → is_pending_of j.id x ≡ false
      unheld x o l n = elim (Bool-cases (is_pending_of j.id x)) [
        | inr free ↦ free
        | inl held ↦ absurd (n (l held))
      ]

      settled :
          (x r : JobRun)
          → is_status RunStatus.pending r.status ≡ false
          → (is_pending_of j.id x ≡ true → some r ≡ some x)
          → is_pending_of j.id x ≡ false
      settled x r g l = elim (Bool-cases (is_pending_of j.id x)) [
        | inr free ↦ free
        | inl held ↦ let same : some r ≡ some x = l held in absurd (ground arith)
      ]

-- A run whose job is none of the batch's jobs does not count for the batch.
uncounted :
    (jobs : List Job) (batch : ℕ) (r : JobRun)
    → All (λ (j : Job). is_pending_of j.id r ≡ false) (select (λ j. found_is j.batch_id batch) jobs)
    → counts jobs batch RunStatus.pending r ≡ false
unfolding batch_id_of find_first select
uncounted [] batch r h = ground arith
uncounted (j ∷ jobs) batch r h = elim (Bool-cases (found_is j.batch_id batch)) [
  | inl t ↦
      let (here, rest) = rw t at h in
      elim (Bool-cases (j.id == r.job_id)) [
        | inl own ↦ rw (own, counts, batch_id_of, find_first) (ground arith)
        | inr other ↦ rw (other, counts, batch_id_of, find_first) (uncounted jobs batch r rest)
      ]
  | inr g ↦ elim (Bool-cases (j.id == r.job_id)) [
    | inl own ↦ rw (own, counts, batch_id_of, find_first) (ground (arith, g))
    | inr other ↦ rw (other, counts, batch_id_of, find_first) (uncounted jobs batch r (rw g at h))
  ]
]

pub tally_none :
    (jobs : List Job) (batch : ℕ) (runs : List JobRun)
    → All (λ (j : Job). IsCleared j.id runs) (select (λ j. found_is j.batch_id batch) jobs)
    → tally jobs runs batch RunStatus.pending ≡ 0
unfolding tally
tally_none jobs batch runs h =
    count_where-none (counts jobs batch RunStatus.pending) runs (each runs h)
  where
    each :
        (rs : List JobRun)
        → All (λ (j : Job). IsCleared j.id rs) (select (λ j. found_is j.batch_id batch) jobs)
        → All (λ r. counts jobs batch RunStatus.pending r ≡ false) rs
    each [] h = tt
    each (r ∷ rs) h = (
      uncounted jobs batch r (All-map (λ j l. l.0) (select _ jobs) h),
      each rs (All-map (λ j l. l.1) (select _ jobs) h),
    )
