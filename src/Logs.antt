-- ===== src/Logs.antt =====
-- control-plane/src/logs/logs.service.ts: the state that its operations share. Logs/Search has the operations
-- on texts, Logs/Words and Logs/Moderation the moderation of chat, Logs/Keywords the alerts on keywords,
-- Logs/Mutes the muted players, Logs/Pruning the stored logs, Logs/Relays the Discord relay of chat, Logs/Chat
-- the parsing of chat.
pub mod Search
pub mod Words
pub mod WordRules
pub mod Moderation
pub mod StoredSettings
pub mod Mutes
pub mod Saved
pub mod Sanctions
pub mod Keywords
pub mod Stream
pub mod Pruning
pub mod Relays
pub mod Patterns
pub mod Chat
pub mod PlayerLines
pub mod Arrivals
pub mod Append
use mastermind_7dtd_ai_serve.Base.{
  ℕ, suc, Bool, ◌&&◌, Option, none, some, List, [], ◌∷◌, ◌++◌, ◌==◌, find_first, update_where,
}
use mastermind_7dtd_ai_serve.Base.Text.{Text, text_eq}
use mastermind_7dtd_ai_serve.Schema.{Fields, ServerInstance}
use mastermind_7dtd_ai_serve.World.{World}
use mastermind_7dtd_ai_serve.Players.{Roster}
use mastermind_7dtd_ai_serve.Alerts.{Board}

pub record ServerLog : Type 0 where
  pub id : ℕ
  pub org_id : ℕ
  pub server_instance_id : ℕ
  pub content : Text
  pub created_at : ℕ

-- A row of the events table. Those of this service all have the source type `server_instance`.
pub record Event : Type 0 where
  pub id : ℕ
  pub org_id : ℕ
  pub source_id : ℕ
  pub event_type : Text
  pub payload : Fields
  pub created_at : ℕ

-- The column `log_retention_days` of an organisation.
pub record Retention : Type 0 where
  pub org_id : ℕ
  pub days : ℕ

-- The text kept for a server instance from one chunk to the next.
pub record Tail : Type 0 where
  pub instance_id : ℕ
  pub text : Text

-- The times of a player's last messages, by `instance:player`.
pub record Samples : Type 0 where
  pub key : Text
  pub times : List ℕ

pub record Cooldown : Type 0 where
  pub key : Text
  pub until : ℕ

-- The tables, the maps of the service, and the states of the alerts and job services that it calls. The
-- clock is `board.wire.now`.
pub record LogBook : Type 0 where
  pub board : Board
  pub world : World
  pub logs : List ServerLog
  pub events : List Event
  pub retentions : List Retention
  pub last_prune : List (ℕ × ℕ)
  pub scan_tails : List Tail
  pub line_buffers : List Tail
  pub chat_line_buffers : List Tail
  pub roster : Roster
  pub chat_samples : List Samples
  pub moderation_cooldown : List Cooldown
  pub next_id : ℕ

pub data LogError : Type 0 where
  chunk_too_long instance_not_on_host instance_missing : LogError
  bad_keyword keyword_rule_missing player_id_required : LogError
  org_missing bad_retention bad_webhook : LogError

abbrev pub clock : LogBook → ℕ
clock w = w.board.wire.now

abbrev pub find_server : ℕ → ℕ → LogBook → Option ServerInstance
find_server org i w = find_first (λ s. s.id == i && s.org_id == org) w.world.instances

abbrev pub tail_text : Option Tail → Text
tail_text none = []
tail_text (some t) = t.text

abbrev pub find_tail : ℕ → List Tail → Option Tail
find_tail i = find_first (λ t. t.instance_id == i)

abbrev set_tail_from : Option Tail → ℕ → Text → List Tail → List Tail
set_tail_from none i text ts = ts ++ record { instance_id = i; text = text } ∷ []
set_tail_from (some t) i text ts =
    update_where (λ x. x.instance_id == i) (λ x. record x { text = text }) ts

unfoldable pub set_tail : ℕ → Text → List Tail → List Tail
set_tail i text ts = set_tail_from (find_tail i ts) i text ts

unfoldable pub add_event : ℕ → ℕ → Text → Fields → LogBook → LogBook
add_event org source event_type payload w = record w {
  events =
      w.events
      ++ record {
        id = w.next_id;
        org_id = org;
        source_id = source;
        event_type = event_type;
        payload = payload;
        created_at = clock w;
      }
        ∷ [];
  next_id = suc w.next_id;
}
