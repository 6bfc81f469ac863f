-- ===== src/Hosts.antt =====
-- control-plane/src/hosts/hosts.service.ts: renaming and deleting a host, heartbeats and their health
-- samples, and the sweep that marks silent hosts offline.
pub mod Presence
pub mod Removal
use mastermind_7dtd_ai_serve.Base.{
  ℕ, ◌+◌, ◌-◌, ◌*◌, Bool, true, false, not, ◌&&◌, ◌||◌, Option, none, some, List, [], ◌∷◌, ◌++◌,
  map, ◌==◌, leb, ltb, if◌then◌else◌, or_default, or_else, length, find_first, select, update_where,
  delete_where, count_where, any,
}
use mastermind_7dtd_ai_serve.Base.Text.{Text, lit, text_eq, trim}
use mastermind_7dtd_ai_serve.Base.Result.{Result, ok, err, ◌>>=◌, ◌>>◌, require, or_throw}
use mastermind_7dtd_ai_serve.Schema.{bool, num, str, Fields, end, field, JobRun}
use mastermind_7dtd_ai_serve.Fleet.{
  Host, Instance, Org, HealthSample, AuditRow, Fleet, FleetError, host_missing, bad_host_name,
  has_instances, find_host, num_field,
}

pub record HeartbeatMetrics : Type 0 where
  pub cpu : Option ℕ
  pub ram_used_mb : Option ℕ
  pub ram_total_mb : Option ℕ
  pub disk_used_gb : Option ℕ
  pub latency_ms : Option ℕ
  pub game_reachable : Option Bool
  pub agent_version : Option Text

abbrev online : Text
online = lit "online"

abbrev offline : Text
offline = lit "offline"

abbrev unknown : Text
unknown = lit "unknown"

-- `findFirst({ where: { id, orgId } })`.
unfoldable pub host_in_org : ℕ → ℕ → List Host → Option Host
host_in_org org i = find_first (λ h. h.id == i && h.org_id == org)

host_audit : ℕ → ℕ → Text → ℕ → Fields → AuditRow
host_audit org user action host details = record {
  org_id = org;
  actor_id = some user;
  action = action;
  resource_type = lit "host";
  resource_id = host;
  details = details;
  ip = none;
}

rename_host : ℕ → ℕ → Text → ℕ → Host → Fleet → Fleet
unfolding host_audit
rename_host org i clean user h w = record w {
  hosts = update_where (λ x. x.id == i) (λ x. record x { name = clean }) w.hosts;
  audits =
      w.audits
      ++ host_audit org user (lit "rename") i
          (field (lit "from") (str h.name) (field (lit "to") (str clean) end))
        ∷ [];
}

unfoldable pub rename : ℕ → ℕ → Text → ℕ → Fleet → Result FleetError Fleet
unfolding rename_host
rename org i name user w = do
  let clean = trim name
  require (not (length clean == 0) && leb (length clean) 128) bad_host_name
  h ← or_throw (host_in_org org i w.hosts) host_missing
  ok (rename_host org i clean user h w)

unfoldable pub remove_host : ℕ → ℕ → ℕ → Host → Fleet → Fleet
unfolding host_audit
remove_host org i user h w = record w {
  runs = delete_where (λ r. r.host_id == i) w.runs;
  hosts = delete_where (λ x. x.id == i) w.hosts;
  audits =
      w.audits ++ host_audit org user (lit "delete") i (field (lit "name") (str h.name) end) ∷ [];
}

unfoldable pub remove : ℕ → ℕ → ℕ → Fleet → Result FleetError Fleet
unfolding remove_host
remove org i user w = do
  h ← or_throw (host_in_org org i w.hosts) host_missing
  require (count_where (λ s. s.host_id == i) w.instances == 0) has_instances
  ok (remove_host org i user h w)

-- `existing.status === 'offline' || existing.status === 'unknown'`.
abbrev is_offline_or_unknown : Option Text → Bool
is_offline_or_unknown none = false
is_offline_or_unknown (some s) = text_eq s offline || text_eq s unknown

abbrev bool_field : Text → Option Bool → Fields → Fields
bool_field k none fs = fs
bool_field k (some b) fs = field k (bool b) fs

metrics_data : HeartbeatMetrics → Fields
metrics_data m = num_field (lit "cpu") m.cpu (
    num_field (lit "ramUsedMb") m.ram_used_mb (
      num_field (lit "ramTotalMb") m.ram_total_mb (
        num_field (lit "diskUsedGb") m.disk_used_gb (
          num_field (lit "latencyMs") m.latency_ms
            (bool_field (lit "gameReachable") m.game_reachable end)))))

-- `Object.keys(metricsData).length > 0 ? metricsData : undefined`, where undefined keeps the old value.
abbrev kept_metrics : Fields → Option Fields → Option Fields
kept_metrics end old = old
kept_metrics (field k v fs) old = some (field k v fs)

abbrev metrics_or_old : Option HeartbeatMetrics → Option Fields → Option Fields
metrics_or_old none old = old
metrics_or_old (some m) old = kept_metrics (metrics_data m) old

abbrev version_or_old : Option HeartbeatMetrics → Option Text → Option Text
version_or_old none old = old
version_or_old (some m) old = or_else m.agent_version old

abbrev beaten : ℕ → Option HeartbeatMetrics → Host → Host
beaten now m h = record h {
  last_heartbeat_at = some now;
  status = some online;
  last_metrics = metrics_or_old m h.last_metrics;
  agent_version = version_or_old m h.agent_version;
}

-- `Map.get(key) ?? 0` and `Map.set`.
last_sample_of : ℕ → List (ℕ × ℕ) → ℕ
last_sample_of i [] = 0
last_sample_of i ((j, t) ∷ xs) = if j == i then t else last_sample_of i xs

-- `now - (lastHealthSample.get(hostId) ?? 0) >= org.healthIntervalSec * 1000`.
unfoldable pub add_sample : ℕ → ℕ → ℕ → Option HeartbeatMetrics → Option Org → Fleet → Fleet
unfolding last_sample_of
add_sample now host org (some m) (some o) w =
    if leb (last_sample_of host w.last_sample + o.health_interval_sec * 1000) now
    then record w {
      last_sample = (host, now) ∷ w.last_sample;
      samples =
          w.samples
          ++ record {
            org_id = org;
            host_id = host;
            cpu_percent = or_default m.cpu 0;
            ram_used_mb = or_default m.ram_used_mb 0;
            ram_total_mb = or_default m.ram_total_mb 0;
            disk_used_gb = or_default m.disk_used_gb 0;
            latency_ms = or_default m.latency_ms 0;
            game_reachable = or_default m.game_reachable false;
          }
            ∷ [];
    }
    else w
add_sample now host org _ _ w = w

-- `recordHeartbeat`, with whether the host was offline.
unfoldable pub record_heartbeat :
    ℕ → ℕ → ℕ → Option HeartbeatMetrics → Fleet → Result FleetError (Bool × Fleet)
unfolding metrics_data
record_heartbeat now i org m w = do
  existing ← or_throw (host_in_org org i w.hosts) host_missing
  let beat = record w { hosts = update_where (λ x. x.id == i) (beaten now m) w.hosts }
  ok (
    is_offline_or_unknown existing.status,
    add_sample now i org m (find_first (λ o. o.id == org) w.orgs) beat,
  )

-- `recordHeartbeatByHostIdOnly`.
unfoldable pub record_heartbeat_by_host :
    ℕ → ℕ → Option HeartbeatMetrics → Fleet → Result FleetError (Bool × Fleet)
record_heartbeat_by_host now i m w = do
  host ← or_throw (find_host i w.hosts) host_missing
  record_heartbeat now i host.org_id m w

-- `{ lastHeartbeatAt: { lt: cutoff } }` or null, and `status: { in: ['online', 'unknown'] }`. The cutoff
-- is `now - threshold`, which is before the epoch where the threshold is the larger.
abbrev beat_before : ℕ → ℕ → Option ℕ → Bool
beat_before now threshold none = true
beat_before now threshold (some t) = ltb (t + threshold) now

abbrev is_online_or_unknown : Option Text → Bool
is_online_or_unknown none = false
is_online_or_unknown (some s) = text_eq s online || text_eq s unknown

unfoldable pub is_silent : ℕ → ℕ → Host → Bool
is_silent now threshold h =
    is_online_or_unknown h.status && beat_before now threshold h.last_heartbeat_at

unfoldable pub sweep_offline_hosts : ℕ → ℕ → Fleet → List Host × Fleet
sweep_offline_hosts now threshold w =
    let stale = select (is_silent now threshold) w.hosts in
    (
      stale,
      record w {
        hosts =
            update_where (λ h. any (λ s. s.id == h.id) stale)
              (λ h. record h { status = some offline }) w.hosts;
      },
    )
