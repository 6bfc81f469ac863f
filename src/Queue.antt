-- ===== src/Queue.antt =====
-- control-plane/src/jobs/jobs-queue.service.ts `getNextJobForHost`: how an agent claims a job.
pub mod Claims
use mastermind_7dtd_ai_serve.Base.{
  ℕ, Bool, true, false, not, ◌&&◌, Option, none, some, List, [], ◌∷◌, ◌==◌, ltb, if◌then◌else◌,
  select, take, update_where,
}
use mastermind_7dtd_ai_serve.Base.Text.{Text, lit, includes}
use mastermind_7dtd_ai_serve.World.{QueueJobData, QueueEntry}

-- The job types that do not change the game's state.
unfoldable pub read_only_types : List Text
read_only_types =
    lit "MOD_LIST"
    ∷ lit "MOD_QUARANTINE_LIST"
    ∷ lit "MOD_CONFIG_READ"
    ∷ lit "PROFILE_LIST"
    ∷ lit "PROFILE_READ"
    ∷ lit "PLAYER_LIST_SYNC"
    ∷ lit "PLAYER_ADMIN_LIST"
    ∷ lit "SAVE_LIST"
    ∷ []

unfoldable pub is_read_only : Text → Bool
is_read_only t = includes read_only_types t

-- How BullMQ answers the attempt to take a job that another client may be taking.
pub data Attempt : Type 0 where
  claimed change_delay_failed remove_failed : Attempt

-- BullMQ: `get_jobs first last es` is what `getJobs(['waiting', 'delayed'], first, last)` lists of a
-- queue with these jobs, and `attempt` answers the attempt to take one of them.
pub record QueueClient : Type 0 where
  pub get_jobs : ℕ → ℕ → List QueueEntry → List QueueEntry
  pub attempt : QueueEntry → Attempt

-- `getQueue(orgId).getJobs(['waiting', 'delayed'], 0, 499)`
abbrev pub waiting_jobs : QueueClient → ℕ → List QueueEntry → List QueueEntry
waiting_jobs client org q = client.get_jobs 0 499 (select (λ e. e.org_id == org) q)

abbrev pub same_entry : ℕ → ℕ → QueueEntry → Bool
same_entry org run e = e.org_id == org && e.contents.job_run_id == run

-- The jobs that the loop passes over without an attempt.
abbrev pub is_candidate : ℕ → Bool → QueueEntry → Bool
is_candidate host busy e =
    e.contents.host_id == host && not (busy && not (is_read_only e.contents.type))

abbrev pub change_delay : ℕ → QueueEntry → List QueueEntry → List QueueEntry
change_delay org e q =
    if ltb 0 e.delay
    then update_where (same_entry org e.contents.job_run_id) (λ x. record x { delay = 0 }) q
    else q

-- The loop over the waiting jobs, as read before it began.
unfoldable pub claim_first :
    (QueueEntry → Attempt)
    → ℕ
    → ℕ
    → Bool
    → List QueueEntry
    → List QueueEntry
    → Option QueueJobData × List QueueEntry
claim_first attempt org host busy [] q = (none, q)
claim_first attempt org host busy (e ∷ es) q = elim (is_candidate host busy e) [
  | false ↦ claim_first attempt org host busy es q
  | true ↦ elim (attempt e) [
    | claimed ↦ (
      some e.contents,
      select (λ x. not (same_entry org e.contents.job_run_id x)) (change_delay org e q),
    )
    | remove_failed ↦ claim_first attempt org host busy es (change_delay org e q)
    | change_delay_failed ↦ claim_first attempt org host busy es q
  ]
]

unfoldable pub get_next_job_for_host :
    QueueClient → List QueueEntry → ℕ → ℕ → Bool → Option QueueJobData × List QueueEntry
unfolding claim_first
get_next_job_for_host client q org host busy =
    claim_first client.attempt org host busy (waiting_jobs client org q) q
