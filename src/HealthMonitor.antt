-- ===== src/HealthMonitor.antt =====
-- control-plane/src/health-monitor/health-monitor.service.ts.
use mastermind_7dtd_ai_serve.Base.{
  ℕ, ◌+◌, ◌*◌, min, max, ◌||◌, ◌&&◌, Option, none, some, List, ◌==◌, leb, or_default, take,
  find_first, select, update_where,
}
use mastermind_7dtd_ai_serve.Base.Result.{Result, ok, ◌>>=◌, ◌>>◌, require, or_throw}
use mastermind_7dtd_ai_serve.Fleet.{Host, Org, Fleet}

-- A health sample with the time of its creation.
pub record TimedSample : Type 0 where
  pub org_id : ℕ
  pub host_id : ℕ
  pub created_at : ℕ

pub record Dashboard : Type 0 where
  pub hosts : List Host
  pub samples : List TimedSample
  pub interval_sec : ℕ

pub data MonitorError : Type 0 where
  bad_interval org_missing : MonitorError

-- At least five minutes, at most a day.
abbrev span_minutes : ℕ → ℕ
span_minutes minutes = min (max minutes 5) 1440

abbrev interval_of : Option Org → ℕ
interval_of none = 10
interval_of (some o) = o.health_interval_sec

abbrev find_org : ℕ → Fleet → Option Org
find_org i w = find_first (λ o. o.id == i) w.orgs

-- The samples are those of the table, in the order of creation.
unfoldable pub dashboard : ℕ → Option ℕ → ℕ → List TimedSample → Fleet → Dashboard
dashboard org minutes now samples w = record {
  hosts = select (λ h. h.org_id == org) w.hosts;
  samples = take 5000 (
      select
        (λ s.
          s.org_id == org && leb now (s.created_at + span_minutes (or_default minutes 60) * 60000))
        samples);
  interval_sec = interval_of (find_org org w);
}

unfoldable pub update_interval : ℕ → ℕ → Fleet → Result MonitorError Fleet
update_interval org seconds w = do
  require (seconds == 5 || seconds == 10 || seconds == 30 || seconds == 60) bad_interval
  o ← or_throw (find_org org w) org_missing
  ok (record w {
    orgs = update_where (λ x. x.id == org) (λ x. record x { health_interval_sec = seconds }) w.orgs;
  })
