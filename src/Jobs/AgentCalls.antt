-- ===== src/Jobs/AgentCalls.antt =====
-- jobs.service.ts and the poll of agent-jobs.controller.ts: what an agent calls.
use mastermind_7dtd_ai_serve.Base.{
  ℕ, Bool, true, false, ◌&&◌, ◌||◌, Option, none, some, [], ◌∷◌, ◌++◌, ◌==◌, leb, if◌then◌else◌,
  or_default, is_some, update_where, length,
}
use mastermind_7dtd_ai_serve.Base.Text.{Text, lit, text_eq, is_digit}
use mastermind_7dtd_ai_serve.Base.Result.{Result, ok, ◌>>=◌, ◌>>◌, require, or_throw}
use mastermind_7dtd_ai_serve.Schema.{
  Json, bool, str, date, Fields, end, field, get_field, RunStatus, is_status, JobRun, Job,
}
use mastermind_7dtd_ai_serve.World.{QueueJobData, World, find_run, find_job}
use mastermind_7dtd_ai_serve.Batches.{record_job_run_completed, record_job_run_started}
use mastermind_7dtd_ai_serve.Queue.{QueueClient, get_next_job_for_host}
use mastermind_7dtd_ai_serve.Jobs.{
  JobError, text_of, optional, text_field, num_field, job_missing, run_not_found, run_not_running,
  run_of_other_host,
}

abbrev pub start_run : ℕ → JobRun → JobRun
start_run now r = record r { status = RunStatus.running; started_at = some now }

-- The batch counters follow, where the job belongs to a batch.
unfoldable pub started : World → ℕ → Job → World
started w job j = if is_some j.batch_id then record_job_run_started w j.org_id job else w

unfoldable pub mark_job_run_started : World → ℕ → ℕ → ℕ → World
unfolding started
mark_job_run_started w host run now = elim (find_run run w.runs) [
  | none ↦ w
  | some r ↦ elim (find_job r.job_id w.jobs) [
    | none ↦ w
    | some j ↦
        if r.host_id == host && is_status RunStatus.pending r.status
        then started (record w { runs = update_where (λ x. x.id == run) (start_run now) w.runs })
            r.job_id j
        else w
  ]
]

pub record ReportResult : Type 0 where
  pub succeeded : Bool
  pub duration_ms : Option ℕ
  pub error_message : Option Text
  pub output : Option Text
  pub extra : Option Fields

abbrev pub final_status : Bool → RunStatus
final_status true = RunStatus.success
final_status false = RunStatus.failed

abbrev pub object_field : Option Fields → Option Json
object_field none = none
object_field (some fs) = some (Json.obj fs)

unfoldable pub result_fields : ReportResult → Fields
result_fields dto = optional (lit "durationMs") (num_field dto.duration_ms) (
    optional (lit "errorMessage") (text_field dto.error_message) (
      optional (lit "output") (text_field dto.output)
        (optional (lit "data") (object_field dto.extra) end)))

abbrev pub finish_run : ℕ → ReportResult → JobRun → JobRun
finish_run now dto r = record r {
  status = final_status dto.succeeded;
  finished_at = some now;
  result = some (result_fields dto);
}

-- `/^[0-9a-f-]{36}$/i`.
is_hex_unit : ℕ → Bool
is_hex_unit c = is_digit c || (leb b'a' c && leb c b'f') || (leb b'A' c && leb c b'F') || c == b'-'

all_hex : Text → Bool
all_hex [] = true
all_hex (c ∷ s) = is_hex_unit c && all_hex s

unfoldable pub is_upload_id : Text → Bool
unfolding is_hex_unit all_hex
is_upload_id s = length s == 36 && all_hex s

unfoldable pub unlink_upload : Job → World → World
unlink_upload j w =
    let upload = text_of (get_field (lit "uploadId") (or_default j.payload end)) in
    if text_eq j.type (lit "MOD_UPLOAD_QUARANTINE") && is_upload_id upload
    then record w { unlinked = w.unlinked ++ upload ∷ [] }
    else w

-- The staged profile itself is dropped from the stored payload.
unfoldable pub redact_profile : Job → Bool → World → World
redact_profile j succeeded w =
    if text_eq j.type (lit "PROFILE_STAGE")
    then record w {
      jobs =
          update_where (λ x. x.id == j.id)
            (λ x. record x {
              payload = some (
                  optional (lit "path") (get_field (lit "path") (or_default j.payload end))
                    (field (lit "staged") (bool succeeded) end));
            })
            w.jobs;
    }
    else w

abbrev sync_of : Job → Option Text → World → World
sync_of j none w = w
sync_of j (some []) w = w
sync_of j (some (c ∷ s)) w = elim j.instance_id [
  | none ↦ w
  | some i ↦ record w {
    syncs = w.syncs ++ record { org_id = j.org_id; instance_id = i; output = c ∷ s } ∷ [];
  }
]

unfoldable pub sync_players : Job → ReportResult → World → World
sync_players j dto w =
    if text_eq j.type (lit "PLAYER_LIST_SYNC") && dto.succeeded then sync_of j dto.output w else w

unfoldable pub completed : World → ℕ → Job → RunStatus → ℕ → World
completed w job j status now =
    if is_some j.batch_id
    then record_job_run_completed w j.org_id job status RunStatus.running now
    else w

unfoldable pub report_job_result : World → ℕ → ℕ → ReportResult → ℕ → Result JobError World
report_job_result w host run dto now = do
  r ← or_throw (find_run run w.runs) run_not_found
  j ← or_throw (find_job r.job_id w.jobs) job_missing
  require (r.host_id == host) run_of_other_host
  require (is_status RunStatus.running r.status) run_not_running
  let w1 = record w { runs = update_where (λ x. x.id == run) (finish_run now dto) w.runs }
  let w2 = sync_players j dto (redact_profile j dto.succeeded (unlink_upload j w1))
  ok (completed w2 r.job_id j (final_status dto.succeeded) now)

abbrev pub progress_fields : Text → Option Text → ℕ → Fields
progress_fields phase message now =
    field (lit "phase") (str phase)
      (optional (lit "message") (text_field message) (field (lit "updatedAt") (date now) end))

-- An empty message is left out, as in `message ? { message } : {}`.
abbrev pub non_empty : Option Text → Option Text
non_empty none = none
non_empty (some []) = none
non_empty (some (c ∷ s)) = some (c ∷ s)

unfoldable pub report_job_progress : World → ℕ → ℕ → Text → Option Text → ℕ → Result JobError World
report_job_progress w host run phase message now = do
  r ← or_throw (find_run run w.runs) run_not_found
  require (r.host_id == host) run_of_other_host
  require (is_status RunStatus.running r.status) run_not_running
  ok (record w {
    runs =
        update_where (λ x. x.id == run)
          (λ x. record x { result = some (progress_fields phase (non_empty message) now) }) w.runs;
  })

-- `poll` for an authenticated host of the org: claim a job and mark its run as running.
unfoldable pub poll : QueueClient → World → ℕ → ℕ → Bool → ℕ → World × Option QueueJobData
poll client w org host busy now =
    let (claimed, q) = get_next_job_for_host client w.queue org host busy in
    let w' = record w { queue = q } in
    elim claimed [
      | none ↦ (w', none)
      | some job ↦ (mark_job_run_started w' host job.job_run_id now, some job)
    ]
