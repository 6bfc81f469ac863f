-- ===== src/Jobs/Sweep.antt =====
-- control-plane/src/jobs/jobs.service.ts `failStaleRunningJobs`: runs whose agent fell silent.
use mastermind_7dtd_ai_serve.Base.{
  ℕ, ◌+◌, Bool, ◌&&◌, Option, some, List, [], ◌∷◌, ◌==◌, ltb, if◌then◌else◌, or_default,
  update_where, select,
}
use mastermind_7dtd_ai_serve.Base.Text.{lit}
use mastermind_7dtd_ai_serve.Schema.{
  Json, str, date, end, field, get_field, spread, RunStatus, is_status, JobRun,
}
use mastermind_7dtd_ai_serve.World.{World}

-- `Date.parse(result.updatedAt) || startedAt || 0`.
abbrev pub parsed_date : Option Json → ℕ
parsed_date (some (date t)) = t
parsed_date _ = 0

unfoldable pub heartbeat : JobRun → ℕ
heartbeat r =
    let t = parsed_date (get_field (lit "updatedAt") (or_default r.result end)) in
    if t == 0 then or_default r.started_at 0 else t

abbrev pub stale_ms : ℕ
stale_ms = 180000

-- `heartbeat < now - 3 * 60_000`.
abbrev pub is_stale : ℕ → JobRun → Bool
is_stale now r = ltb (heartbeat r + stale_ms) now

abbrev pub fail_stale : ℕ → JobRun → JobRun → JobRun
fail_stale now seen r = record r {
  status = RunStatus.failed;
  finished_at = some now;
  result = some (
      spread (or_default seen.result end) (
        field (lit "errorMessage")
          (str
            (lit "Agent stopped reporting progress; job released as stale. Retry if still needed."))
          (field (lit "recoveredAt") (date now) end)));
}

-- The loop of `failStaleRunningJobs` over the running runs, as read before it began.
unfoldable pub release_stale : ℕ → List JobRun → List JobRun → List JobRun
release_stale now [] runs = runs
release_stale now (r ∷ rs) runs = release_stale now rs (
    if is_stale now r
    then update_where (λ x. x.id == r.id && is_status RunStatus.running x.status) (fail_stale now r)
        runs
    else runs)

unfoldable pub fail_stale_running_jobs : World → ℕ → World
unfolding release_stale
fail_stale_running_jobs w now = record w {
  runs = release_stale now (select (λ r. is_status RunStatus.running r.status) w.runs) w.runs;
}
