-- ===== src/Alerts.antt =====
-- control-plane/src/alerts: alerts.service.ts on the rules of alerts, and alert-types.ts. Alerts/Format has
-- the formatter, Alerts/Send the operations that send.
pub mod Format
pub mod Send
pub mod Relay
pub mod Repeats
use mastermind_7dtd_ai_serve.Base.{
  ℕ, zero, suc, Bool, true, false, ◌&&◌, Option, none, some, List, [], ◌∷◌, ◌++◌, ◌==◌, or_default,
  find_first, select, update_where, delete_where,
}
use mastermind_7dtd_ai_serve.Base.Text.{Text, lit, text_eq}
use mastermind_7dtd_ai_serve.Base.Result.{Result, ok, err, ◌>>=◌, or_throw}
use mastermind_7dtd_ai_serve.Schema.{Json}
use mastermind_7dtd_ai_serve.Fleet.{AuditRow}
use mastermind_7dtd_ai_serve.Discord.{Wire, Fetched}

pub data AlertType : Type 0 where
  server_down server_restart agent_offline : AlertType
  frigate_detection player_connected player_disconnected : AlertType

unfoldable pub type_text : AlertType → Text
type_text server_down = lit "SERVER_DOWN"
type_text server_restart = lit "SERVER_RESTART"
type_text agent_offline = lit "AGENT_OFFLINE"
type_text frigate_detection = lit "FRIGATE_DETECTION"
type_text player_connected = lit "PLAYER_CONNECTED"
type_text player_disconnected = lit "PLAYER_DISCONNECTED"

abbrev pub alert_types : List AlertType
alert_types =
    server_down ∷ server_restart ∷ agent_offline ∷ frigate_detection ∷ player_connected
    ∷ player_disconnected ∷ []

-- The context of an alert. A score is its percentage, rounded, the form in which it is shown.
pub record AlertContext : Type 0 where
  pub org_id : ℕ
  pub org_name : Option Text
  pub server_instance_id : Option ℕ
  pub server_instance_name : Option Text
  pub host_id : Option ℕ
  pub host_name : Option Text
  pub last_heartbeat_at : Option Text
  pub reason : Option Text
  pub frigate_camera : Option Text
  pub frigate_label : Option Text
  pub frigate_score : Option ℕ
  pub player_name : Option Text
  pub steam_id : Option Text
  pub eos_id : Option Text
  pub session_seconds : Option ℕ

pub record AlertRule : Type 0 where
  pub id : ℕ
  pub org_id : ℕ
  pub name : Text
  pub condition : Json
  pub channel : Json
  pub enabled : Bool
  pub created_at : ℕ

-- What alerts and the Frigate webhook read of an organisation.
pub record AlertOrg : Type 0 where
  pub id : ℕ
  pub name : Text
  pub discord_webhook_url : Option Text
  pub frigate_webhook_secret : Option Text

-- An entry of `recentPlayerLifecycleAlerts`: the alert's key and the time it was sent.
pub record Recent : Type 0 where
  pub key : Text
  pub at : ℕ

-- The tables, the map of recent alerts, and the Discord service's state with the clock.
pub record Board : Type 0 where
  pub orgs : List AlertOrg
  pub rules : List AlertRule
  pub audits : List AuditRow
  pub recent : List Recent
  pub wire : Wire
  pub next_id : ℕ

-- The parts of a parsed URL that are read.
pub record Url : Type 0 where
  pub protocol : Text
  pub hostname : Text
  pub pathname : Text

-- The platform: the answers of `fetch`, `toISOString` and `new URL`, which may throw.
pub record Outside : Type 0 where
  pub server : ℕ → Fetched
  pub iso : ℕ → Text
  pub parse_url : Text → Option Url

pub data AlertError : Type 0 where
  rule_missing : AlertError

-- `listRules`, newest first.
newest_first : List AlertRule → List AlertRule
newest_first [] = []
newest_first (r ∷ rs) = newest_first rs ++ r ∷ []

unfoldable pub list_rules : ℕ → Board → List AlertRule
unfolding newest_first
list_rules org w = newest_first (select (λ r. r.org_id == org) w.rules)

abbrev pub find_rule : ℕ → ℕ → List AlertRule → Option AlertRule
find_rule org i = find_first (λ r. r.id == i && r.org_id == org)

-- A new row, as `prisma.alertRule.create` makes it.
unfoldable pub add_rule : ℕ → Text → Json → Json → Bool → Board → AlertRule × Board
add_rule org name condition channel enabled w =
    let r : AlertRule = record {
      id = w.next_id;
      org_id = org;
      name = name;
      condition = condition;
      channel = channel;
      enabled = enabled;
      created_at = w.wire.now;
    } in
    (r, record w { rules = w.rules ++ r ∷ []; next_id = suc w.next_id })

unfoldable pub create_rule : ℕ → Text → Json → Json → Option Bool → Board → AlertRule × Board
create_rule org name condition channel enabled w =
    add_rule org name condition channel (or_default enabled true) w

pub record RuleUpdate : Type 0 where
  pub name : Option Text
  pub enabled : Option Bool
  pub condition : Option Json
  pub channel : Option Json

abbrev updated_rule : RuleUpdate → AlertRule → AlertRule
updated_rule u r = record r {
  name = or_default u.name r.name;
  enabled = or_default u.enabled r.enabled;
  condition = or_default u.condition r.condition;
  channel = or_default u.channel r.channel;
}

unfoldable pub update_rule : ℕ → ℕ → RuleUpdate → Board → Result AlertError (AlertRule × Board)
update_rule org i u w = do
  r ← or_throw (find_rule org i w.rules) rule_missing
  ok (updated_rule u r, record w { rules = update_where (λ x. x.id == i) (updated_rule u) w.rules })

unfoldable pub delete_rule : ℕ → ℕ → Board → Result AlertError Board
delete_rule org i w = do
  r ← or_throw (find_rule org i w.rules) rule_missing
  ok (record w { rules = delete_where (λ x. x.id == i) w.rules })
