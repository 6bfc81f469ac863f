-- ===== src/Batches/Ending.antt =====
-- batches.service.ts: when a batch is over. The rows of batches, as the handlers change them.
use mastermind_7dtd_ai_serve.Base.{
  ℕ, ◌≡◌, refl, subst, sym, ==_iff, find_first_holds, ◌∙◌, Bool, true, false, ◌&&◌, inl, inr,
  Option, some, List, [], ◌∷◌, ◌++◌, arith, ◌==◌, Bool-cases, Option-cases, if◌then◌else◌,
  find_first, find_first-append_cases, update_where, select, found_is,
}
use mastermind_7dtd_ai_serve.Base.Int.{pos, is_nonpos, is_pos, ◌+ℤ◌, ◌-ℤ◌}
use mastermind_7dtd_ai_serve.Base.Text.{Text}
use mastermind_7dtd_ai_serve.Schema.{RunStatus, is_status, JobRun, Job, JobBatch}
use mastermind_7dtd_ai_serve.World.{World, QueueEntry, find_batch}
use mastermind_7dtd_ai_serve.Base.Result.{ok, or_throw->>=, require->>=, ok-injective}
use mastermind_7dtd_ai_serve.Batches.{
  audit, emit_progress, batch_not_found, batch_not_running, new_batch, count_completed,
  finish_batch, batch_of_job, record_job_run_completed, count_started, record_job_run_started,
}
use mastermind_7dtd_ai_serve.Batches.Cancellation.{
  is_running, latest_run, cancel_jobs, count_cancelled, cancel_batch,
}
use mastermind_7dtd_ai_serve.Batches.CounterRows.{finish_batch-id, count_completed-id}

-- The batch counts no open run, and is still said to run.
unfoldable pub hangs : JobBatch → Bool
hangs b =
    is_running b.status
    && is_pos b.total_count
    && is_nonpos b.pending_count
    && is_nonpos b.running_count

abbrev pub NoneHangs : World → Type 0
NoneHangs w = (i : ℕ) (b : JobBatch) → find_batch i w.batches ≡ some b → hangs b ≡ false

-- A row found after an update was found before, and may have been updated.
pub found_after :
    (P : JobBatch → Type 0) (q : JobBatch → Bool) (f : JobBatch → JobBatch) (i : ℕ)
    (xs : List JobBatch)
    → ((x : JobBatch) → (f x).id ≡ x.id)
    → ((x : JobBatch) → find_batch i xs ≡ some x → P x)
    → ((x : JobBatch) → q x ≡ true → find_batch i xs ≡ some x → P (f x))
    → (y : JobBatch) → find_batch i (update_where q f xs) ≡ some y
    → P y
unfolding find_first update_where
found_after P q f i [] keep old new y e = cc
found_after P q f i (x ∷ xs) keep old new y e = elim (Bool-cases (x.id == i)) [
  | inl t ↦
      let here : find_batch i (x ∷ xs) ≡ some x = rw (t, find_batch) refl in
      elim (Bool-cases (q x)) [
        | inl u ↦
            let hit : ((f x).id == i) ≡ true = rw (keep x) t in
            let same : f x ≡ y = cc (rw hit at (rw u at e)) in subst P same (new x u here)
        | inr v ↦ let same : x ≡ y = cc (rw t at (rw v at e)) in subst P same (old x here)
      ]
  | inr g ↦
      let miss : ((if q x then f x else x).id == i) ≡ false = elim (Bool-cases (q x)) [
        | inl u ↦ rw u (rw (keep x) g)
        | inr v ↦ rw v g
      ] in
      found_after P q f i xs keep (λ z h. old z (rw (g, find_batch) h))
        (λ z k h. new z k (rw (g, find_batch) h)) y (rw miss at e)
]

pub new_batch_live :
    (w : World) (org : ℕ) (user : Option ℕ) (type : Text) (n now : ℕ)
    → hangs (new_batch w org user type n now) ≡ false
unfolding hangs new_batch
new_batch_live w org user type n now = ground arith

started_live : (b : JobBatch) (n : ℕ) → b.running_count ≡ pos n → hangs (count_started b) ≡ false
unfolding hangs count_started ◌+ℤ◌ ◌-ℤ◌
started_live b n h = ground arith

completed_live :
    (s p : RunStatus) (now : ℕ) (b : JobBatch)
    → hangs (finish_batch now (count_completed s p b)) ≡ false
unfolding hangs finish_batch
completed_live s p now b = ground arith

cancelled_live : (now n : ℕ) (b : JobBatch) → hangs (count_cancelled now n b) ≡ false
unfolding hangs count_cancelled
cancelled_live now n b = refl

found_by_job :
    (w : World) (org job : ℕ) (b : JobBatch)
    → batch_of_job w org job ≡ some b
    → find_batch b.id w.batches ≡ some b
unfolding batch_of_job
found_by_job w org job b e =
    elim (Option-cases (find_first (λ (j : Job). j.id == job && j.org_id == org) w.jobs)) [
      | inl h ↦ cc (rw (h, batch_of_job) at e)
      | inr (j, h) ↦ elim (Option-cases j.batch_id) [
        | inl k ↦ cc (rw (k, batch_of_job) at (rw (h, batch_of_job) at e))
        | inr (c, k) ↦
            let row : find_batch c w.batches ≡ some b =
              rw (k, batch_of_job) at (rw (h, batch_of_job) at e) in
            let same : b.id ≡ c =
              (==_iff b.id c).0 (find_first_holds (λ (x : JobBatch). x.id == c) w.batches row) in
            subst (λ i. find_batch i w.batches ≡ some b) (sym same) row
      ]
    ]

module _ (w : World) (org job : ℕ) (quiet : NoneHangs w) where
  pub record_job_run_started-NoneHangs :
      ((i : ℕ) (b : JobBatch)
        → find_batch i w.batches ≡ some b
        → (n : ℕ) × (b.running_count ≡ pos n))
      → NoneHangs (record_job_run_started w org job)
  unfolding record_job_run_started count_started
  record_job_run_started-NoneHangs counts = elim (Option-cases (batch_of_job w org job)) [
    | inl e ↦ rw (e, record_job_run_started) quiet
    | inr (b, e) ↦
        rw (e, record_job_run_started)
          (λ i.
            found_after (λ x. hangs x ≡ false) (λ x. x.id == b.id) count_started i w.batches
              (λ x. refl) (quiet i) (λ x q k. let (n, c) = counts i x k in started_live x n c))
  ]

  pub record_job_run_completed-NoneHangs :
      (s p : RunStatus) (now : ℕ) → NoneHangs (record_job_run_completed w org job s p now)
  unfolding record_job_run_completed
  record_job_run_completed-NoneHangs s p now = elim (Option-cases (batch_of_job w org job)) [
    | inl e ↦ rw (e, record_job_run_completed) quiet
    | inr (b, e) ↦
        rw (e, record_job_run_completed)
          (λ i.
            found_after (λ x. hangs x ≡ false) (λ x. x.id == b.id)
              (λ x. finish_batch now (count_completed s p x)) i w.batches
              (λ x. finish_batch-id now (count_completed s p x) ∙ count_completed-id s p x)
              (quiet i) (λ x q k. completed_live s p now x))
  ]

cancel_jobs-batches :
    (removable : QueueEntry → Bool) (org now : ℕ) (seen : List JobRun) (js : List Job) (w : World)
    → (cancel_jobs removable org now seen js w).0.batches ≡ w.batches
unfolding cancel_jobs
cancel_jobs-batches removable org now seen [] w = refl
cancel_jobs-batches removable org now seen (j ∷ js) w = elim (Option-cases (latest_run j.id seen)) [
  | inl e ↦ rw (e, cancel_jobs) (cancel_jobs-batches removable org now seen js w)
  | inr (r, e) ↦ elim (Bool-cases (is_status RunStatus.pending r.status)) [
    | inr g ↦
        rw (e, cancel_jobs) (rw (g, cancel_jobs) (cancel_jobs-batches removable org now seen js w))
    | inl t ↦
        rw (e, cancel_jobs) (rw (t, cancel_jobs) (cancel_jobs-batches removable org now seen js _))
  ]
]

pub cancel_batch-NoneHangs :
    (removable : QueueEntry → Bool) (w w' : World) (org batch now : ℕ) (b : JobBatch)
    → NoneHangs w
    → cancel_batch removable w org batch now ≡ ok (w', b)
    → NoneHangs w'
unfolding cancel_batch audit emit_progress count_cancelled
cancel_batch-NoneHangs removable w w' org batch now b quiet e =
    let (b0, found, e1) =
      or_throw->>= (find_first (λ (x : JobBatch). x.id == batch && x.org_id == org) w.batches)
        batch_not_found _ e in
    let (_, e2) = require->>= (is_running b0.status) batch_not_running _ e1 in
    let loop =
      cancel_jobs removable org now w.runs (select (λ j. found_is j.batch_id batch) w.jobs) w in
    let same : loop.0.batches ≡ w.batches = cancel_jobs-batches removable org now w.runs _ w in
    subst (λ (q : World × JobBatch). NoneHangs q.0) (ok-injective e2)
      (rw same (λ i.
        found_after (λ x. hangs x ≡ false) (λ x. x.id == batch) (count_cancelled now loop.1) i
          w.batches (λ x. refl) (quiet i) (λ x q k. cancelled_live now loop.1 x)))

pub appended-NoneHangs :
    (b : JobBatch) (w : World)
    → NoneHangs w
    → hangs b ≡ false
    → (i : ℕ) (x : JobBatch) → find_batch i (w.batches ++ b ∷ []) ≡ some x
    → hangs x ≡ false
appended-NoneHangs b w quiet h i x e =
    elim (find_first-append_cases (λ (y : JobBatch). y.id == i) w.batches b e) [
      | inl old ↦ quiet i x old
      | inr (same, _) ↦ subst (λ y. hangs y ≡ false) same h
    ]
