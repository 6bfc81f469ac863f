-- ===== src/Jobs.antt =====
-- control-plane/src/jobs/jobs.service.ts: createJob. Jobs/AgentCalls has what an agent calls, Jobs/PlayerSync and
-- Jobs/Protection what follows a list of the players.
pub mod AgentCalls
pub mod Create
pub mod Commands
pub mod Lifecycle
pub mod Ending
pub mod Reported
pub mod ReportSteps
pub mod Races
pub mod Draining
pub mod RunMoves
pub mod Sweep
pub mod PlayerReports
pub mod PlayerSync
pub mod PlayersSeen
pub mod Protection
pub mod Addresses
pub mod Cooldowns
pub mod Removals
pub mod Stale
pub mod StaleBatch
pub mod Soundness
pub mod Asides
use mastermind_7dtd_ai_serve.Base.{
  ℕ, ◌+◌, Bool, true, false, not, ◌&&◌, ◌||◌, Option, none, some, List, [], ◌∷◌, ◌++◌, ◌==◌, ltb,
  leb, if◌then◌else◌, or_default, is_some, found_is, find_first, update_where, select, length,
}
use mastermind_7dtd_ai_serve.Base.Text.{
  Text, lit, text_eq, includes, trim, to_lower, to_upper, has_unit, is_digit,
}
use mastermind_7dtd_ai_serve.Base.Result.{Result, ok, err, ◌>>=◌, ◌>>◌, require, or_throw}
use mastermind_7dtd_ai_serve.Schema.{
  Json, null, bool, num, str, date, Fields, end, field, get_field, spread, RunStatus, is_status,
  JobRun, Job, ServerInstance,
}
use mastermind_7dtd_ai_serve.World.{
  QueueJobData, QueueEntry, Member, World, add_job, find_run, find_job,
}
use mastermind_7dtd_ai_serve.Batches.{record_job_run_completed, record_job_run_started}
use mastermind_7dtd_ai_serve.Queue.{Attempt, get_next_job_for_host}

pub data JobError : Type 0 where
  command_required command_too_long command_multiline admins_only operators_only
        instance_not_found :
      JobError
  run_not_found run_of_other_host run_not_running job_missing : JobError

unfoldable pub normalize_job_type : Text → Text
normalize_job_type t =
    let s = to_lower t in
    if text_eq s (lit "start")
    then lit "SERVER_START"
    else if text_eq s (lit "stop")
    then lit "SERVER_STOP"
    else if text_eq s (lit "restart")
    then lit "SERVER_RESTART"
    else if text_eq s (lit "rcon")
    then lit "RCON"
    else to_upper t

abbrev pub text_of : Option Json → Text
text_of (some (str s)) = s
text_of _ = []

unfoldable pub is_console : Text → Bool
is_console t = text_eq t (lit "RCON") || text_eq t (lit "SEND_COMMAND")

unfoldable pub is_admin_change : Text → Bool
is_admin_change t = text_eq t (lit "PLAYER_ADMIN_PROMOTE") || text_eq t (lit "PLAYER_ADMIN_DEMOTE")

-- The types of the four tests that ask for an administrator or operator.
unfoldable pub operator_types : List Text
operator_types =
    lit "PLAYER_KICK_ALL"
    ∷ lit "SERVER_KILL"
    ∷ lit "SAVE_BACKUP"
    ∷ lit "SAVE_RESTORE"
    ∷ lit "SAVE_DELETE"
    ∷ lit "SAVE_RETENTION"
    ∷ lit "PROFILE_STAGE"
    ∷ lit "MOD_UPLOAD_QUARANTINE"
    ∷ []

-- The checked console command: trimmed, present, short, on one line.
unfoldable pub check_command : Option Fields → Result JobError (Option Fields)
check_command payload =
    let command = trim (text_of (get_field (lit "command") (or_default payload end))) in
    do
      require (ltb 0 (length command)) command_required
      require (leb (length command) 512) command_too_long
      require (not (has_unit 13 command || has_unit 10 command)) command_multiline
      ok (some (spread (or_default payload end) (field (lit "command") (str command) end)))

unfoldable pub role_of : World → ℕ → ℕ → Option Member
role_of w org user = find_first (λ m. m.user_id == user && m.org_id == org) w.members

unfoldable pub has_role : List Text → Option Member → Bool
has_role roles none = false
has_role roles (some m) = includes roles m.role

unfoldable pub check_role : World → ℕ → ℕ → Text → Result JobError (Unit {0})
check_role w org user t = do
  require (not (is_admin_change t) || has_role (lit "admin" ∷ []) (role_of w org user)) admins_only
  require
      (not (includes operator_types t)
        || has_role (lit "admin" ∷ lit "operator" ∷ []) (role_of w org user))
      operators_only

-- `key: value ?? undefined`; the JSON that is stored and queued leaves undefined keys out.
abbrev pub optional : Text → Option Json → Fields → Fields
optional k none rest = rest
optional k (some v) rest = field k v rest

abbrev pub text_field : Option Text → Option Json
text_field none = none
text_field (some s) = some (str s)

abbrev pub num_field : Option ℕ → Option Json
num_field none = none
num_field (some n) = some (num n)

-- What the server instance contributes to the payload of each of its jobs.
unfoldable pub instance_payload : ServerInstance → Fields → Fields
instance_payload si rest = field (lit "server_instance_id") (num si.id) (
    field (lit "game_type") (str si.game_type) (
      optional (lit "install_path") (text_field si.install_path) (
        optional (lit "start_command") (text_field si.start_command) (
          optional (lit "telnet_host") (text_field si.telnet_host) (
            optional (lit "telnet_port") (num_field si.telnet_port) (
              optional (lit "telnet_password") (text_field si.telnet_password) (
                optional (lit "config") si.config (
                  field (lit "avoid_blood_moon_restart") (bool si.avoid_blood_moon_restart)
                    rest))))))))

unfoldable pub find_instance : World → ℕ → ℕ → Option ServerInstance
find_instance w org i = find_first (λ s. s.id == i && s.org_id == org) w.instances

abbrev pub new_job : World → ℕ → Option ℕ → ServerInstance → Text → Fields → Job
new_job w org user si t payload = record {
  id = w.next_id;
  org_id = org;
  batch_id = none;
  instance_id = some si.id;
  type = t;
  payload = some payload;
  created_by = user;
}

-- The job, its pending run and its queue entry.
unfoldable pub insert_job : World → ℕ → Option ℕ → ServerInstance → Text → Fields → ℕ → World
insert_job w org user si t payload now =
    add_job org
      (record {
        job_id = w.next_id;
        job_run_id = w.next_id + 1;
        host_id = si.host_id;
        instance_id = some si.id;
        type = t;
        payload = payload;
        schedule_id = none;
      })
      (record w {
        jobs = w.jobs ++ new_job w org user si t payload ∷ [];
        runs =
            w.runs
            ++ record {
              id = w.next_id + 1;
              job_id = w.next_id;
              host_id = si.host_id;
              status = RunStatus.pending;
              started_at = none;
              finished_at = none;
              result = none;
              created_at = now;
            }
              ∷ [];
        next_id = w.next_id + 2;
      })

-- The returned pair is `{ jobId, jobRunId }`.
unfoldable pub create_job :
    World → ℕ → ℕ → ℕ → Text → Option Fields → ℕ → Result JobError (World × (ℕ × ℕ))
create_job w org user instance_id job_type payload now = do
  let t = normalize_job_type job_type
  checked ← if is_console t then check_command payload else ok payload
  check_role w org user t
  si ← or_throw (find_instance w org instance_id) instance_not_found
  let merged = spread (instance_payload si end) (or_default checked end)
  ok (insert_job w org (some user) si t merged now, (w.next_id, w.next_id + 1))
