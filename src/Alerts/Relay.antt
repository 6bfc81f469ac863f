-- ===== src/Alerts/Relay.antt =====
-- alerts.service.ts: relayPlayerChat and testRule. The emoji are written as their UTF-16 code units.
use mastermind_7dtd_ai_serve.Base.{
  ℕ, Bool, true, false, not, ◌&&◌, ◌||◌, Option, none, some, List, [], ◌∷◌, ◌++◌, ◌==◌,
  if◌then◌else◌, is_some, take, select,
}
use mastermind_7dtd_ai_serve.Base.Text.{Text, lit, text_eq, trim, to_lower}
use mastermind_7dtd_ai_serve.Base.Result.{Result, ok, ◌>>=◌, or_throw}
use mastermind_7dtd_ai_serve.Schema.{bool, str, Fields, end, field}
use mastermind_7dtd_ai_serve.Fleet.{text_field}
use mastermind_7dtd_ai_serve.Discord.{Payload, Sent}
use mastermind_7dtd_ai_serve.JsonValues.{
  decimal, property, json_is, json_is_id, is_truthy, filled, string_or,
}
use mastermind_7dtd_ai_serve.Alerts.{
  AlertRule, Board, Url, Outside, AlertError, rule_missing, find_rule,
}
use mastermind_7dtd_ai_serve.Alerts.Send.{Answer, failure, is_delivered, rule_webhook, send_on}

-- A line of player chat.
pub record ChatLine : Type 0 where
  pub event_id : ℕ
  pub org_id : ℕ
  pub server_instance_id : ℕ
  pub server_instance_name : Text
  pub player_name : Text
  pub player_id : Text
  pub channel : Text
  pub message : Text

pub record RelayResult : Type 0 where
  pub configured : Bool
  pub error : Option Text

-- `sent: !error`: an empty error is falsy.
abbrev pub relay_sent : RelayResult → Bool
relay_sent r = not (is_some (filled r.error))

abbrev is_markup : ℕ → Bool
is_markup u = u == b'*' || u == b'_' || u == b'`' || u == b'~' || u == b'|' || u == b'>'

-- `s.replace(/[*_`~|>]/g, '\\$&')`.
unfoldable pub escape_markup : Text → Text
escape_markup [] = []
escape_markup (u ∷ s) =
    let rest = escape_markup s in if is_markup u then 92 ∷ u ∷ rest else u ∷ rest

-- `s.replace(/@/g, '@\u200b')`.
unfoldable pub break_mentions : Text → Text
break_mentions [] = []
break_mentions (u ∷ s) =
    let rest = break_mentions s in if u == b'@' then u ∷ 8203 ∷ rest else u ∷ rest

unfoldable pub relays : ℕ → AlertRule → Bool
relays instance_id r =
    json_is (lit "chat_relay") (property (lit "type") r.condition)
    && (not (is_truthy (property (lit "serverInstanceId") r.condition))
        || json_is_id instance_id (property (lit "serverInstanceId") r.condition))

unfoldable pub relay_payload : ℕ → ChatLine → Payload
relay_payload now c = record {
  content = none;
  embeds = some (
      record {
        title = some (55357 ∷ 56492 ∷ lit " " ++ take 80 (escape_markup c.player_name));
        description = some (take 1800 (break_mentions c.message));
        color = some 5793266;
        fields = some (
            record { name = lit "Server"; value = c.server_instance_name; inline = true }
            ∷ record { name = lit "Channel"; value = c.channel; inline = true }
            ∷ []);
        footer = some (lit "7DTD player chat " ++ 183 ∷ lit " " ++ c.player_id);
        timestamp = some now;
      }
      ∷ []);
}

abbrev later_error : Option Text → Option Text → Option Text
later_error none error = error
later_error (some e) error = some e

-- `new URL(url)`, and the checks on its parts.
abbrev pub is_webhook_url : Option Url → Bool
is_webhook_url none = false
is_webhook_url (some u) =
    text_eq u.protocol (lit "https:")
    && (text_eq (to_lower u.hostname) (lit "discord.com")
        || text_eq (to_lower u.hostname) (lit "discordapp.com"))
    && text_eq (take 14 u.pathname) (lit "/api/webhooks/")

-- What is wrong with the channel of a rule to be tested.
pub data ChannelCheck : Type 0 where
  unusable : Text → ChannelCheck
  usable : Text → ChannelCheck

abbrev check_url : Option Url → Text → ChannelCheck
check_url none url = unusable (lit "Saved Discord webhook URL is invalid")
check_url (some u) url =
    if is_webhook_url (some u)
    then usable url
    else unusable (lit "Saved channel is not a valid Discord webhook URL")

abbrev test_details : Text → Sent → Fields
test_details name result = field (lit "name") (str name) (
    field (lit "success") (bool (is_delivered result))
      (text_field (lit "error") (failure result) end))

abbrev test_payload : ℕ → Text → Payload
test_payload now name = record {
  content = none;
  embeds = some (
      record {
        title = some (55358 ∷ 56810 ∷ lit " Mastermind alert pipeline test");
        description = some (
            lit "Alert rule **"
            ++ name
            ++ lit "** successfully reached its configured Discord channel.");
        color = some 6514417;
        fields = some (
            record { name = lit "Result"; value = lit "Webhook delivery successful"; inline = true }
            ∷ []);
        footer = some (lit "Mastermind Control Plane " ++ 183 ∷ lit " Manual Test");
        timestamp = some now;
      }
      ∷ []);
}

module _ (p : Outside) where
  abbrev relay_at : Option Text → ChatLine → AlertRule → RelayResult → Board → RelayResult × Board
  relay_at none c r done w = (done, w)
  relay_at (some url) c r done w =
      let key = decimal c.org_id ++ lit ":" ++ decimal r.id ++ lit ":" ++ decimal c.event_id in
      let (result, w1) = send_on p url (relay_payload w.wire.now c) key w in
      (record { configured = true; error = later_error (failure result) done.error }, w1)

  -- The loop over the rules that relay.
  unfoldable pub relay_rules : List AlertRule → ChatLine → RelayResult → Board → RelayResult × Board
  relay_rules [] c done w = (done, w)
  relay_rules (r ∷ rs) c done w =
      let (done', w1) = relay_at (rule_webhook p r) c r done w in relay_rules rs c done' w1

  unfoldable pub relay_player_chat : ChatLine → Board → RelayResult × Board
  relay_player_chat c w =
      relay_rules
        (select (relays c.server_instance_id)
          (select (λ r. r.org_id == c.org_id && r.enabled) w.rules))
        c (record { configured = false; error = none }) w

  unfoldable pub check_channel : AlertRule → ChannelCheck
  check_channel r =
      let type = property (lit "type") r.channel in
      let url = trim (string_or p.iso (property (lit "webhookUrl") r.channel) []) in
      if text_eq (to_lower (string_or p.iso type [])) (lit "discord")
      then check_url (p.parse_url url) url
      else unusable (
          lit "Testing is not supported for "
          ++ string_or p.iso type (lit "this")
          ++ lit " channels")

  abbrev test_at : ChannelCheck → ℕ → ℕ → AlertRule → Board → Answer × Board
  test_at (unusable e) org user r w = (record { sent = false; error = some e }, w)
  test_at (usable url) org user r w =
      let (result, w1) =
        send_on p url (test_payload w.wire.now r.name) (decimal org ++ lit ":rule-test") w in
      (
        record { sent = is_delivered result; error = failure result },
        record w1 {
          audits =
              w1.audits
              ++ record {
                org_id = org;
                actor_id = some user;
                action = lit "alert_test";
                resource_type = lit "alert_rule";
                resource_id = r.id;
                details = test_details r.name result;
                ip = none;
              }
                ∷ [];
        },
      )

  unfoldable pub test_rule : ℕ → ℕ → ℕ → Board → Result AlertError (Answer × Board)
  test_rule org i user w = do
    r ← or_throw (find_rule org i w.rules) rule_missing
    ok (test_at (check_channel r) org user r w)
