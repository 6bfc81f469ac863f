-- ===== src/Logs/Relays.antt =====
-- logs.service.ts: listChat, getChatSettings, updateChatSettings and retryChatRelays.
use mastermind_7dtd_ai_serve.Base.{
  ℕ, min, max, Bool, true, false, not, ◌&&◌, ◌||◌, Option, none, some, List, [], ◌∷◌, ◌++◌, ◌==◌,
  if◌then◌else◌, take, find_first, select, update_where, delete_where,
}
use mastermind_7dtd_ai_serve.Base.Text.{Text, lit, text_eq, trim}
use mastermind_7dtd_ai_serve.Base.Result.{Result, ok, ◌>>=◌, ◌>>◌, require, or_throw}
use mastermind_7dtd_ai_serve.Schema.{Json, num, str, obj, end, field}
use mastermind_7dtd_ai_serve.JsonValues.{property, json_is, json_is_id, string_or}
use mastermind_7dtd_ai_serve.Alerts.{AlertRule, Board, Outside, add_rule}
use mastermind_7dtd_ai_serve.Alerts.Relay.{ChatLine, relay_sent, is_webhook_url, relay_player_chat}
use mastermind_7dtd_ai_serve.Logs.{
  Event, LogBook, LogError, instance_missing, bad_webhook, find_server,
}

abbrev backwards : List Event → List Event
backwards [] = []
backwards (e ∷ es) = backwards es ++ e ∷ []

abbrev of_source : Option ℕ → ℕ → Bool
of_source none source = true
of_source (some i) source = source == i

-- `limit || 200`, between 1 and 500. The newest rows, oldest first.
unfoldable pub list_chat : ℕ → Option ℕ → ℕ → LogBook → List Event
list_chat org instance_id limit w = backwards (
    take (min (max (if limit == 0 then 200 else limit) 1) 500) (
      backwards (
        select
          (λ e.
            e.org_id == org
            && text_eq e.event_type (lit "player_chat")
            && of_source instance_id e.source_id)
          w.events)))

abbrev is_relay_of : ℕ → AlertRule → Bool
is_relay_of i r =
    json_is (lit "chat_relay") (property (lit "type") r.condition)
    && json_is_id i (property (lit "serverInstanceId") r.condition)

abbrev find_relay : ℕ → ℕ → LogBook → Option AlertRule
find_relay org i w = find_first (λ r. r.org_id == org && is_relay_of i r) w.board.rules

abbrev relay_channel : Text → Json
relay_channel url =
    obj (field (lit "type") (str (lit "discord")) (field (lit "webhookUrl") (str url) end))

abbrev relay_condition : ℕ → Json
relay_condition i =
    obj (field (lit "type") (str (lit "chat_relay")) (field (lit "serverInstanceId") (num i) end))

abbrev save_relay : Option AlertRule → ℕ → ℕ → Text → Bool → Text → Board → Board
save_relay none org i name enabled url b =
    (add_rule org name (relay_condition i) (relay_channel url) enabled b).1
save_relay (some r) org i name enabled url b = record b {
  rules =
      update_where (λ x. x.id == r.id)
        (λ x. record x {
          name = name;
          enabled = enabled;
          condition = relay_condition i;
          channel = relay_channel url;
        })
        b.rules;
}

abbrev pub pending_type : Text
pending_type = lit "player_chat_relay_pending"

-- The pending relays of an instance, the oldest ten.
unfoldable pub pending_relays : ℕ → ℕ → LogBook → List Event
pending_relays org i w = take 10 (
    select (λ e. e.org_id == org && e.source_id == i && text_eq e.event_type pending_type) w.events)

abbrev event_id_of : Event → Option Json → ℕ
event_id_of e (some (num n)) = n
event_id_of e v = e.id

module _ (p : Outside) where
  abbrev settings_of : Option AlertRule → Bool × Text
  settings_of none = (false, [])
  settings_of (some r) = (r.enabled, string_or p.iso (property (lit "webhookUrl") r.channel) [])

  unfoldable pub get_chat_settings : ℕ → ℕ → LogBook → Bool × Text
  get_chat_settings org i w = settings_of (find_relay org i w)

  unfoldable pub update_chat_settings :
      ℕ → ℕ → Bool → Text → LogBook → Result LogError ((Bool × Text) × LogBook)
  update_chat_settings org i enabled url w =
      let clean = trim url in
      do
        s ← or_throw (find_server org i w) instance_missing
        require (not enabled || is_webhook_url (p.parse_url clean)) bad_webhook
        ok (
          (enabled, clean),
          record w {
            board =
                save_relay (find_relay org i w) org i (lit "Chat relay: " ++ s.name) enabled clean
                  w.board;
          },
        )

  -- The line of chat that a pending event stores.
  unfoldable pub pending_line : ℕ → ℕ → Event → ChatLine
  pending_line org i e =
      let v : Text → Option Json = λ k. property k (obj e.payload) in
      record {
        event_id = event_id_of e (v (lit "eventId"));
        org_id = org;
        server_instance_id = i;
        server_instance_name = string_or p.iso (v (lit "serverInstanceName")) (lit "7DTD Server");
        player_name = string_or p.iso (v (lit "playerName")) (lit "Unknown");
        player_id = string_or p.iso (v (lit "playerId")) (lit "unknown");
        channel = string_or p.iso (v (lit "channel")) (lit "Global");
        message = string_or p.iso (v (lit "message")) [];
      }

  abbrev settle : Bool → ℕ → LogBook → LogBook
  settle true i w = record w { events = delete_where (λ e. e.id == i) w.events }
  settle false i w = w

  unfoldable pub retry_events : List Event → ℕ → ℕ → LogBook → LogBook
  retry_events [] org i w = w
  retry_events (e ∷ es) org i w =
      let (result, board) = relay_player_chat p (pending_line org i e) w.board in
      retry_events es org i
        (settle (relay_sent result || not result.configured) e.id (record w { board = board }))

  unfoldable pub retry_chat_relays : ℕ → ℕ → LogBook → LogBook
  retry_chat_relays org i w = retry_events (pending_relays org i w) org i w
