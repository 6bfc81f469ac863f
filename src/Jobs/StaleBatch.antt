-- ===== src/Jobs/StaleBatch.antt =====
-- jobs.service.ts `failStaleRunningJobs` does not tell the batch of a run that it fails.
use mastermind_7dtd_ai_serve.Base.{
  ℕ, ◌<◌, ◌≤◌, ◌≡◌, refl, sym, subst, true, none, some, List, [], ◌∷◌, arith, ◌==◌, find_first,
  select, Bool-cases, inl, inr, count_where-update-le, count_where-update-lt, found_is, ==_refl,
  ==_iff, find_first_holds, find_first-select,
}
use mastermind_7dtd_ai_serve.Base.Int.{pos}
use mastermind_7dtd_ai_serve.Schema.{RunStatus, is_status, JobRun, Job, JobBatch}
use mastermind_7dtd_ai_serve.World.{World, find_run, find_batch}
use mastermind_7dtd_ai_serve.Batches.Tally.{batch_id_of, counts, tally, IsSound}
use mastermind_7dtd_ai_serve.Jobs.Sweep.{
  is_stale, fail_stale, release_stale, fail_stale_running_jobs,
}
use mastermind_7dtd_ai_serve.Jobs.Stale.{
  stale_test, one_round, round_elsewhere, found_id, head_of, tail_of,
}

module _ (now : ℕ) (jobs : List Job) (b : ℕ) where
  round-tally-le :
      (s : JobRun) (runs : List JobRun)
      → tally jobs (one_round now s runs) b RunStatus.running ≤ tally jobs runs b RunStatus.running
  unfolding tally
  round-tally-le s runs = elim (Bool-cases (is_stale now s)) [
    | inr g ↦ rw g (omega arith)
    | inl g ↦ rw g (
        count_where-update-le (stale_test s.id) (counts jobs b RunStatus.running) (fail_stale now s)
          (λ x h. refl) runs)
  ]

  release-tally-le :
      (rs runs : List JobRun)
      → tally jobs (release_stale now rs runs) b RunStatus.running
        ≤ tally jobs runs b RunStatus.running
  unfolding release_stale
  release-tally-le [] runs = omega arith
  release-tally-le (s ∷ rs) runs =
      omega (arith, round-tally-le s runs, release-tally-le rs (one_round now s runs))

  release-tally-lt :
      (rs runs : List JobRun) (i : ℕ) (r : JobRun)
      → find_run i rs ≡ some r
      → find_run i runs ≡ some r
      → r.status ≡ RunStatus.running
      → is_stale now r ≡ true
      → found_is (batch_id_of jobs r.job_id) b ≡ true
      → tally jobs (release_stale now rs runs) b RunStatus.running
        < tally jobs runs b RunStatus.running
  unfolding release_stale
  release-tally-lt [] runs i r q e h t m = absurd (nowhere q)
    where
      nowhere : find_run i [] ≡ some r → ⊥
      nowhere q = let e : find_run i [] ≡ none = unfold find_first in refl in cc
  release-tally-lt (s ∷ rs) runs i r q e h t m = elim (Bool-cases (s.id == i)) [
    | inl u ↦
        let same = head_of i s r rs u q in
        let counted : counts jobs b RunStatus.running r ≡ true = rw h m in
        let hit : stale_test r.id r ≡ true = rw h (rw (==_refl r.id)) in
        let less : tally jobs (one_round now r runs) b RunStatus.running
            < tally jobs runs b RunStatus.running =
          rw t (
            unfold tally in
            count_where-update-lt (stale_test r.id) (counts jobs b RunStatus.running)
              (fail_stale now r) (λ x h. refl) (λ x. x.id == i) runs e hit counted) in
        subst
          (λ (x : JobRun).
            tally jobs (release_stale now rs (one_round now x runs)) b RunStatus.running
            < tally jobs runs b RunStatus.running)
          (sym same) (omega (arith, less, release-tally-le rs (one_round now r runs)))
    | inr g ↦
        let later =
          release-tally-lt rs (one_round now s runs) i r (tail_of i s r rs g q)
            (round_elsewhere now s runs i r e (let own = found_id i runs r e in ground arith)) h t
            m in
        omega (arith, round-tally-le s runs)
  ]

-- In a sound state, when a stale running run of a batch is failed by the sweep, the batch keeps
-- counting it as running: its running counter is then greater than the number of its running runs.
pub stale_run_still_counted :
    (w : World) (now i bid : ℕ) (r : JobRun) (b : JobBatch)
    → IsSound w
    → find_run i w.runs ≡ some r
    → r.status ≡ RunStatus.running
    → is_stale now r ≡ true
    → batch_id_of w.jobs r.job_id ≡ some bid
    → find_batch bid w.batches ≡ some b
    → let w' = fail_stale_running_jobs w now in
      (find_batch bid w'.batches ≡ some b)
      × (n : ℕ) × (b.running_count ≡ pos n)
      × (tally w'.jobs w'.runs b.id RunStatus.running < n)
unfolding fail_stale_running_jobs
stale_run_still_counted w now i bid r b sound e h t m row =
    let own : b.id ≡ bid = batch_row in
    (
      row,
      tally w.jobs w.runs b.id RunStatus.running,
      (sound.tallied bid b row).running,
      release-tally-lt now w.jobs b.id (select (λ x. is_status RunStatus.running x.status) w.runs)
          w.runs i r
          (find_first-select (λ (x : JobRun). x.id) (λ x. is_status RunStatus.running x.status) i
            w.runs e (rw h))
          e h t (rw m (rw own (==_refl bid))),
    )
  where
    batch_row : b.id ≡ bid
    batch_row = (==_iff b.id bid).0 (find_first_holds (λ (x : JobBatch). x.id == bid) w.batches row)
