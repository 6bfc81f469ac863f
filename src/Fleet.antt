-- ===== src/Fleet.antt =====
-- The tables that the pairing, hosts and server-instances services share (control-plane/prisma/schema.prisma:
-- hosts, pairing tokens, server instances, runs, audit log, health samples), and the fields of JSON details.
use mastermind_7dtd_ai_serve.Base.{ℕ, Bool, Option, none, some, List, ◌==◌, find_first}
use mastermind_7dtd_ai_serve.Base.Text.{Text}
use mastermind_7dtd_ai_serve.Schema.{Json, num, str, Fields, field, JobRun}

pub record Host : Type 0 where
  pub id : ℕ
  pub org_id : ℕ
  pub name : Text
  pub last_heartbeat_at : Option ℕ
  pub agent_version : Option Text
  pub agent_key_version : ℕ
  pub status : Option Text
  pub last_metrics : Option Fields
  pub created_at : ℕ

pub record PairingToken : Type 0 where
  pub id : ℕ
  pub org_id : ℕ
  pub token_hash : Text
  pub expires_at : ℕ
  pub used_at : Option ℕ
  pub created_by : ℕ
  pub used_by_host : Option ℕ

pub record Instance : Type 0 where
  pub id : ℕ
  pub org_id : ℕ
  pub host_id : ℕ
  pub game_type_id : ℕ
  pub name : Text
  pub install_path : Option Text
  pub start_command : Option Text
  pub telnet_host : Option Text
  pub telnet_port : Option ℕ
  pub telnet_password : Option Text
  pub config : Option Json

pub record GameType : Type 0 where
  pub id : ℕ
  pub slug : Text

pub record Org : Type 0 where
  pub id : ℕ
  pub health_interval_sec : ℕ

pub record HealthSample : Type 0 where
  pub org_id : ℕ
  pub host_id : ℕ
  pub cpu_percent : ℕ
  pub ram_used_mb : ℕ
  pub ram_total_mb : ℕ
  pub disk_used_gb : ℕ
  pub latency_ms : ℕ
  pub game_reachable : Bool

pub record AuditRow : Type 0 where
  pub org_id : ℕ
  pub actor_id : Option ℕ
  pub action : Text
  pub resource_type : Text
  pub resource_id : ℕ
  pub details : Fields
  pub ip : Option Text

-- `last_sample` is the hosts service's map from host to the time of its last sample. `next_id` stands
-- for the database's generator of fresh ids.
pub record Fleet : Type 0 where
  pub orgs : List Org
  pub hosts : List Host
  pub tokens : List PairingToken
  pub game_types : List GameType
  pub instances : List Instance
  pub runs : List JobRun
  pub audits : List AuditRow
  pub samples : List HealthSample
  pub last_sample : List (ℕ × ℕ)
  pub next_id : ℕ

-- The exceptions' classes, by the message thrown.
pub data FleetError : Type 0 where
  invalid_token token_used token_expired : FleetError
  invalid_agent_token host_mismatch key_rotated key_unreadable missing_header : FleetError
  access_denied host_missing bad_host_name has_instances : FleetError
  host_not_in_org game_type_missing instance_missing : FleetError

abbrev pub find_host : ℕ → List Host → Option Host
find_host i = find_first (λ h. h.id == i)

-- A property whose value may be `undefined` or missing.
abbrev pub text_field : Text → Option Text → Fields → Fields
text_field k none fs = fs
text_field k (some t) fs = field k (str t) fs

abbrev pub num_field : Text → Option ℕ → Fields → Fields
num_field k none fs = fs
num_field k (some n) fs = field k (num n) fs
