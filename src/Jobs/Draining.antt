-- ===== src/Jobs/Draining.antt =====
-- The handlers of the job services: a batch whose runs are all handed out ends by the agents' reports.
use mastermind_7dtd_ai_serve.Base.{
  ℕ, zero, suc, ◌≡◌, refl, sym, ap, subst, ◌∙◌, Bool, true, false, ◌&&◌, inl, inr, Option, none,
  some, List, [], ◌∷◌, arith, Bool-cases, Option-cases, found_is, count_where, All, All-found,
}
use mastermind_7dtd_ai_serve.Base.Int.{pos, is_pos}
use mastermind_7dtd_ai_serve.Base.Result.{ok}
use mastermind_7dtd_ai_serve.Schema.{RunStatus, is_status, JobRun, Job, JobBatch}
use mastermind_7dtd_ai_serve.World.{World, find_run, find_job, find_batch}
use mastermind_7dtd_ai_serve.Batches.{count_completed, finish_batch}
use mastermind_7dtd_ai_serve.Batches.Cancellation.{is_running}
use mastermind_7dtd_ai_serve.Batches.Tally.{batch_id_of, counts, tally, IsSound}
use mastermind_7dtd_ai_serve.Batches.Ending.{hangs, NoneHangs}
use mastermind_7dtd_ai_serve.Jobs.AgentCalls.{
  ReportResult, final_status, completed, report_job_result,
}
use mastermind_7dtd_ai_serve.Jobs.Asides.{told, running_of}
use mastermind_7dtd_ai_serve.Jobs.Soundness.{report_job_result-IsSound}
use mastermind_7dtd_ai_serve.Jobs.Reported.{
  report_accepted, reported_row, counted_down, pos-injective, row_id,
}
use mastermind_7dtd_ai_serve.Jobs.Ending.{report_job_result-NoneHangs}

-- `n` results of runs, each as `answer` has it for the id of the run, are accepted one after the other.
pub data Reports (answer : ℕ → ReportResult) (now : ℕ) : ℕ → World → World → Type 0 where
  finished : {w : World} → Reports answer now 0 w w
  result_of :
      {w w1 w' : World} {n : ℕ} (host run : ℕ)
      → report_job_result w host run (answer run) now ≡ ok w1
      → Reports answer now n w1 w'
      → Reports answer now (suc n) w w'

-- A row that is counted, when there is one.
counted_row :
    (p : JobRun → Bool) (P : JobRun → Type 0) (n : ℕ) (rs : List JobRun)
    → count_where p rs ≡ suc n
    → All P rs
    → (r : JobRun) × P r × (p r ≡ true)
unfolding count_where
counted_row p P n [] e h = cc
counted_row p P n (r ∷ rs) e (h, hs) = elim (Bool-cases (p r)) [
  | inl t ↦ (r, h, t)
  | inr g ↦ counted_row p P n rs (omega (arith, rw g at e)) hs
]

found_key : (o : Option ℕ) (b : ℕ) → found_is o b ≡ true → o ≡ some b
found_key none b h = cc
found_key (some c) b h = ap some (ground arith)

job_of_counted :
    (w : World) (b : ℕ) (r : JobRun)
    → counts w.jobs b RunStatus.running r ≡ true
    → (j : Job) × (find_job r.job_id w.jobs ≡ some j)
      × (r.status ≡ RunStatus.running)
      × (j.batch_id ≡ some b)
unfolding batch_id_of
job_of_counted w b r c = elim (Option-cases (find_job r.job_id w.jobs)) [
  | inl h ↦ let none_there = rw (h, batch_id_of) at c in absurd (ground arith)
  | inr (j, h) ↦
      let both : (is_status RunStatus.running r.status && found_is j.batch_id b) ≡ true =
        rw (h, batch_id_of) at c in
      (j, h, running_of r.status (ground arith), found_key j.batch_id b (ground arith))
]

running_run :
    (w : World) (b n : ℕ)
    → IsSound w
    → tally w.jobs w.runs b RunStatus.running ≡ suc n
    → (r : JobRun) × (find_run r.id w.runs ≡ some r) × (counts w.jobs b RunStatus.running r ≡ true)
unfolding tally
running_run w b n s e =
    counted_row (counts w.jobs b RunStatus.running) _ n w.runs e
      (All-found (λ (x : JobRun). x.id) w.runs s.runs_distinct)

over :
    (b : JobBatch)
    → hangs b ≡ false
    → is_pos b.total_count ≡ true
    → b.pending_count ≡ pos 0
    → b.running_count ≡ pos 0
    → is_running b.status ≡ false
unfolding hangs
over b h full hp hr = ground arith

module _ (answer : ℕ → ReportResult) (now : ℕ) where
  -- In a sound state in which no batch is running without open runs: a batch of at least one server
  -- instance, none of whose runs is pending, ends when its running runs report, whatever they report. There
  -- are as many results as the batch has running runs, each accepted in the state that the ones before
  -- it leave, after which the batch is not running any more.
  pub batch_drains :
      (n : ℕ) (w : World) (i : ℕ) (b : JobBatch)
      → IsSound w
      → NoneHangs w
      → find_batch i w.batches ≡ some b
      → is_pos b.total_count ≡ true
      → tally w.jobs w.runs i RunStatus.pending ≡ 0
      → tally w.jobs w.runs i RunStatus.running ≡ n
      → (w' : World) × (b' : JobBatch) × Reports answer now n w w'
        × (find_batch i w'.batches ≡ some b')
        × (is_running b'.status ≡ false)
  batch_drains zero w i b s quiet row full waiting busy =
      let t = s.tallied i b row in
      (
        w,
        b,
        finished,
        row,
        over b (quiet i b row) full (t.pending ∙ ap pos (rw (row_id i w.batches row) waiting))
            (t.running ∙ ap pos (rw (row_id i w.batches row) busy)),
      )
  batch_drains (suc n) w i b s quiet row full waiting busy =
      let same = row_id i w.batches row in
      let t = s.tallied i b row in
      let (r, found, c) = running_run w i n s busy in
      let (j, job, runs, of_batch) = job_of_counted w i r c in
      let dto = answer r.id in
      let w1 =
        completed (told w r.host_id r.id now dto j) r.job_id j (final_status dto.succeeded) now in
      let b1 =
        finish_batch now (count_completed (final_status dto.succeeded) RunStatus.running b) in
      let accepted = report_accepted w dto now r j found job runs in
      let s1 = report_job_result-IsSound w w1 r.host_id r.id now dto s accepted in
      let row1 : find_batch i w1.batches ≡ some b1 =
        subst (λ k. find_batch k w1.batches ≡ some b1) same
          (reported_row w r.host_id r.id dto now r.job_id j j b job refl refl
            (of_batch ∙ ap some (sym same))
            (subst (λ k. find_batch k w.batches ≡ some b) (sym same) row)) in
      let t1 = s1.tallied i b1 row1 in
      let (p1, r1, same_total) =
        counted_down (final_status dto.succeeded) now n b (t.pending ∙ ap pos (rw same waiting))
          (t.running ∙ ap pos (rw same busy)) in
      let (w', b', reports, found', ends) =
        batch_drains n w1 i b1 s1
          (report_job_result-NoneHangs w w1 r.host_id r.id now dto quiet accepted) row1
          (rw same_total full)
          (rw (row_id i w1.batches row1) at (pos-injective (sym t1.pending ∙ p1)))
          (rw (row_id i w1.batches row1) at (pos-injective (sym t1.running ∙ r1))) in
      (w', b', result_of r.host_id r.id accepted reports, found', ends)
