-- ===== src/Scheduler/Queued.antt =====
-- scheduler.service.ts `processScheduleFire`: what a fire puts into the job tables and the queue.
use mastermind_7dtd_ai_serve.Base.{
  ℕ, suc, ◌≡◌, refl, ◌∙◌, ◌≢◌, true, false, Option, none, some, ◌==◌, arith, ==_refl, or_default,
  List, [], ◌∷◌, ◌++◌, ◌&&◌, any, if◌then◌else◌, find_first, All, any-append_last,
  find_first-append_absent,
}
use mastermind_7dtd_ai_serve.Base.Text.{Text, lit, to_upper, text_eq, text_eq_refl}
use mastermind_7dtd_ai_serve.Schema.{
  RunStatus, JobRun, Json, num, bool, Fields, end, field, get_field, get_field-spread,
  get_field_first, Job, ServerInstance,
}
use mastermind_7dtd_ai_serve.World.{World, QueueEntry, add_entry}
use mastermind_7dtd_ai_serve.Jobs.{instance_payload, optional, text_field, num_field}
use mastermind_7dtd_ai_serve.Scheduler.{Schedule}
use mastermind_7dtd_ai_serve.Scheduler.Fire.{
  effective_job_type, merged_payload, is_job_of, has_active_run, add_scheduled_job,
  add_scheduled_run, queue_scheduled,
}

get_field-optional :
    (k j : Text) (v : Option Json) (rest : Fields)
    → text_eq j k ≡ false
    → get_field k (optional j v rest) ≡ get_field k rest
unfolding get_field
get_field-optional k j none rest h = refl
get_field-optional k j (some v) rest h = rw h refl

payload_schedule_id :
    (si : ServerInstance) (rest : Fields)
    → get_field (lit "schedule_id") (instance_payload si rest) ≡ get_field (lit "schedule_id") rest
unfolding instance_payload get_field text_eq lit
payload_schedule_id si rest =
    let k = lit "schedule_id" in
    let blood_moon =
      field (lit "avoid_blood_moon_restart") (bool si.avoid_blood_moon_restart) rest in
    let config = optional (lit "config") si.config blood_moon in
    let password = optional (lit "telnet_password") (text_field si.telnet_password) config in
    let port = optional (lit "telnet_port") (num_field si.telnet_port) password in
    let host = optional (lit "telnet_host") (text_field si.telnet_host) port in
    let command = optional (lit "start_command") (text_field si.start_command) host in
    get_field-optional k (lit "install_path") (text_field si.install_path) command refl
    ∙ get_field-optional k (lit "start_command") (text_field si.start_command) host refl
    ∙ get_field-optional k (lit "telnet_host") (text_field si.telnet_host) port refl
    ∙ get_field-optional k (lit "telnet_port") (num_field si.telnet_port) password refl
    ∙ get_field-optional k (lit "telnet_password") (text_field si.telnet_password) config refl
    ∙ get_field-optional k (lit "config") si.config blood_moon refl

-- The state after a schedule's job is queued.
module _ (s : Schedule) (si : ServerInstance) (now : ℕ) (w : World) where
  abbrev pub after_fire : World
  after_fire =
      queue_scheduled s si w.next_id (suc w.next_id)
        (add_scheduled_run now w.next_id si (add_scheduled_job s si w))

  merged_schedule_id :
      get_field (lit "schedule_id") (or_default s.payload end) ≡ none
      → get_field (lit "schedule_id") (merged_payload s si) ≡ some (num s.id)
  unfolding merged_payload
  merged_schedule_id own =
      get_field-spread (lit "schedule_id")
        (instance_payload si (field (lit "schedule_id") (num s.id) end)) (or_default s.payload end)
      ∙ (rw (own, payload_schedule_id si (field (lit "schedule_id") (num s.id) end))
          (get_field_first (lit "schedule_id") (num s.id) end))

  pub after_fire-active :
      All (λ j. j.id ≢ w.next_id) w.jobs
      → get_field (lit "schedule_id") (or_default s.payload end) ≡ none
      → has_active_run s si after_fire ≡ true
  unfolding has_active_run queue_scheduled add_scheduled_run add_scheduled_job is_job_of find_first
  after_fire-active fresh own = any-append_last _ w.runs _ (
      rw
        (
          find_first-append_absent (λ (j : Job). j.id) w.next_id w.jobs _ fresh,
          ==_refl w.next_id,
          ==_refl s.instance_id,
          text_eq_refl (effective_job_type s si),
          merged_schedule_id own,
          ==_refl s.id,
        )
        refl)

  pub after_fire-instances : after_fire.instances ≡ w.instances
  unfolding queue_scheduled add_scheduled_run add_scheduled_job
  after_fire-instances = refl

-- What a fire adds: a job of the schedule's organisation and server, with the schedule's type (a
-- restart of a 7 Days to Die server is the safe one) and a payload that names the schedule; a pending
-- run of it on the server's host; and an entry of the organisation's queue for this run.
pub record IsQueued (s : Schedule) (si : ServerInstance) (now : ℕ) (w w' : World) : Type 0 where
  pub job : Job
  pub run : JobRun
  pub entry : QueueEntry
  pub payload : Fields
  pub jobs : w'.jobs ≡ w.jobs ++ job ∷ []
  pub runs : w'.runs ≡ w.runs ++ run ∷ []
  pub queue : w'.queue ≡ w.queue ++ entry ∷ []
  pub job_org : job.org_id ≡ s.org_id
  pub job_instance : job.instance_id ≡ some s.instance_id
  pub job_type : job.type ≡ (
      if text_eq si.game_type (lit "7dtd") && text_eq (to_upper s.job_type) (lit "SERVER_RESTART")
      then lit "SERVER_SAFE_RESTART"
      else s.job_type)
  pub job_payload : job.payload ≡ some payload
  pub names_schedule : get_field (lit "schedule_id") payload ≡ some (num s.id)
  pub run_job : run.job_id ≡ job.id
  pub run_host : run.host_id ≡ si.host_id
  pub run_status : run.status ≡ RunStatus.pending
  pub run_created : run.created_at ≡ now
  pub entry_org : entry.org_id ≡ s.org_id
  pub entry_job : entry.contents.job_id ≡ job.id
  pub entry_run : entry.contents.job_run_id ≡ run.id
  pub entry_host : entry.contents.host_id ≡ si.host_id
  pub entry_type : entry.contents.type ≡ job.type
  pub entry_payload : entry.contents.payload ≡ payload
  pub entry_schedule : entry.contents.schedule_id ≡ some s.id

add_entry_new :
    (e : QueueEntry) (q : List QueueEntry)
    → All (λ x. x.contents.job_run_id ≢ e.contents.job_run_id) q
    → add_entry e q ≡ q ++ e ∷ []
unfolding add_entry any
add_entry_new e q fresh = rw (absent q fresh) refl
  where
    absent :
        (xs : List QueueEntry)
        → All (λ x. x.contents.job_run_id ≢ e.contents.job_run_id) xs
        → any (λ x. x.org_id == e.org_id && x.contents.job_run_id == e.contents.job_run_id) xs
          ≡ false
    absent [] h = refl
    absent (x ∷ xs) (n, h) =
        let rest = absent xs h in
        let other : (x.contents.job_run_id == e.contents.job_run_id) ≡ false = ground arith in
        rw (other, rest) (ground arith)

pub after_fire-IsQueued :
    (s : Schedule) (si : ServerInstance) (now : ℕ) (w : World)
    → All (λ x. x.contents.job_run_id ≢ suc w.next_id) w.queue
    → get_field (lit "schedule_id") (or_default s.payload end) ≡ none
    → IsQueued s si now w (after_fire s si now w)
unfolding queue_scheduled add_scheduled_run add_scheduled_job effective_job_type
after_fire-IsQueued s si now w fresh own = record {
  job = _;
  run = _;
  entry = _;
  payload = _;
  jobs = refl;
  runs = refl;
  queue = add_entry_new _ w.queue fresh;
  job_org = refl;
  job_instance = refl;
  job_type = refl;
  job_payload = refl;
  names_schedule = merged_schedule_id s si now w own;
  run_job = refl;
  run_host = refl;
  run_status = refl;
  run_created = refl;
  entry_org = refl;
  entry_job = refl;
  entry_run = refl;
  entry_host = refl;
  entry_type = refl;
  entry_payload = refl;
  entry_schedule = refl;
}
