-- ===== src/Alerts/Send.antt =====
-- alerts.service.ts: sendAlert, sendMatchingRules, relayPlayerChat and testRule.
use mastermind_7dtd_ai_serve.Base.{
  ℕ, ◌+◌, Bool, true, false, ◌&&◌, Option, none, some, List, [], ◌∷◌, ◌++◌, ◌==◌, ltb, leb,
  if◌then◌else◌, length, find_first, select, update_where, delete_where,
}
use mastermind_7dtd_ai_serve.Base.Text.{Text, lit, text_eq, trim, to_lower, to_upper}
use mastermind_7dtd_ai_serve.Schema.{bool, str, end, field}
use mastermind_7dtd_ai_serve.Fleet.{text_field, num_field}
use mastermind_7dtd_ai_serve.Discord.{Payload, Sent, delivered, undelivered, send}
use mastermind_7dtd_ai_serve.JsonValues.{decimal, property, text_or_else, filled, string_or}
use mastermind_7dtd_ai_serve.Alerts.{
  AlertType, player_connected, player_disconnected, type_text, alert_types, AlertContext, AlertRule,
  AlertOrg, Recent, Board, Outside,
}
use mastermind_7dtd_ai_serve.Alerts.Format.{format_discord_alert}

-- What `sendAlert` and `testRule` answer: `error` is `none` where the message was sent.
pub record Answer : Type 0 where
  pub sent : Bool
  pub error : Option Text

abbrev pub failure : Sent → Option Text
failure delivered = none
failure (undelivered status error) = some error

abbrev pub is_delivered : Sent → Bool
is_delivered delivered = true
is_delivered (undelivered status error) = false

abbrev pub find_org : ℕ → List AlertOrg → Option AlertOrg
find_org i = find_first (λ o. o.id == i)

-- `auditAlert`: an empty error is left out.
unfoldable pub audit_alert : Text → AlertContext → Bool → Option Text → Board → Board
audit_alert type c success error w = record w {
  audits =
      w.audits
      ++ record {
        org_id = c.org_id;
        actor_id = none;
        action = lit "alert_sent";
        resource_type = lit "discord";
        resource_id = c.org_id;
        details = field (lit "alertType") (str type) (
            field (lit "success") (bool success) (
              text_field (lit "error") (filled error) (
                num_field (lit "serverInstanceId") c.server_instance_id
                  (num_field (lit "hostId") c.host_id end))));
        ip = none;
      }
        ∷ [];
}

abbrev pub known_type : Text → List AlertType → Option AlertType
known_type type = find_first (λ t. text_eq (type_text t) type)

-- `org?.discordWebhookUrl?.trim()` is not empty: the organisation and its URL.
abbrev pub webhook_of : Option AlertOrg → Option (AlertOrg × Text)
webhook_of none = none
webhook_of (some o) = elim o.discord_webhook_url [
  | none ↦ none
  | some url ↦ elim (filled (some (trim url))) [ none ↦ none | some t ↦ some (o, url) ]
]

abbrev pub is_lifecycle : AlertType → Bool
is_lifecycle player_connected = true
is_lifecycle player_disconnected = true
is_lifecycle type = false

abbrev lowered_name : Option Text → Option Text
lowered_name none = none
lowered_name (some name) = some (to_lower (trim name))

-- `context.playerName?.trim().toLocaleLowerCase() || context.steamId || context.eosId`, if truthy.
unfoldable pub player_of : AlertContext → Option Text
player_of c = filled (text_or_else (lowered_name c.player_name) (text_or_else c.steam_id c.eos_id))

abbrev id_or_undefined : Option ℕ → Text
id_or_undefined none = lit "undefined"
id_or_undefined (some i) = decimal i

unfoldable pub lifecycle_key : AlertType → AlertContext → Text → Text
lifecycle_key type c player =
    decimal c.org_id
    ++ lit ":"
    ++ id_or_undefined c.server_instance_id
    ++ lit ":"
    ++ type_text type
    ++ lit ":"
    ++ player

abbrev pub find_recent : Text → List Recent → Option Recent
find_recent key = find_first (λ r. text_eq r.key key)

abbrev pub set_from : Option Recent → Text → ℕ → List Recent → List Recent
set_from none key now recent = recent ++ record { key = key; at = now } ∷ []
set_from (some r) key now recent =
    update_where (λ x. text_eq x.key key) (λ x. record x { at = now }) recent

-- `map.set(key, now)`.
unfoldable pub set_recent : Text → ℕ → List Recent → List Recent
set_recent key now recent = set_from (find_recent key recent) key now recent

-- The removal of old entries from a map of more than 1000.
unfoldable pub prune_recent : ℕ → List Recent → List Recent
prune_recent now recent =
    let kept = delete_where (λ r. leb (r.at + 15000) now) recent in
    if ltb 1000 (length recent) then kept else recent

abbrev pub is_fresh : ℕ → Option Recent → Bool
is_fresh now none = false
is_fresh now (some r) = ltb now (r.at + 15000)

-- `some` is the map after the call, `none` an early return.
unfoldable pub note_lifecycle : ℕ → Text → List Recent → Option (List Recent)
note_lifecycle now key recent =
    if is_fresh now (find_recent key recent)
    then none
    else some (prune_recent now (set_recent key now recent))

abbrev pub note_player : AlertType → AlertContext → Option Text → Board → Option Board
note_player type c none w = some w
note_player type c (some player) w =
    elim (note_lifecycle w.wire.now (lifecycle_key type c player) w.recent) [
      | none ↦ none
      | some recent ↦ some (record w { recent = recent })
    ]

unfoldable pub note_alert : AlertType → AlertContext → Board → Option Board
note_alert type c w = if is_lifecycle type then note_player type c (player_of c) w else some w

abbrev name_of : Option AlertOrg → Option Text
name_of none = none
name_of (some o) = some o.name

module _ (p : Outside) where
  -- `discord.send` on the board.
  unfoldable pub send_on : Text → Payload → Text → Board → Sent × Board
  send_on url payload key w =
      let (result, wire) = send p.server url payload key w.wire in
      (result, record w { wire = wire })

  abbrev pub send_to :
      Option (AlertOrg × Text) → Text → AlertType → AlertContext → Board → Answer × Board
  send_to none text type c w = (
    record { sent = false; error = some (lit "No Discord webhook configured for org") },
    audit_alert text c false (some (lit "No webhook configured")) w,
  )
  send_to (some (o, url)) text type c w =
      let payload = format_discord_alert w.wire.now type (record c { org_name = some o.name }) in
      let (result, w1) = send_on url payload (decimal c.org_id) w in
      (
        record { sent = is_delivered result; error = failure result },
        audit_alert text c (is_delivered result) (failure result) w1,
      )

  unfoldable pub send_alert : Text → AlertContext → Board → Answer × Board
  send_alert text c w = elim (known_type text alert_types) [
    | none ↦ (record { sent = false; error = some (lit "Unknown alert type: " ++ text) }, w)
    | some type ↦ send_to (webhook_of (find_org c.org_id w.orgs)) text type c w
  ]

  -- The type of a rule's condition, in capitals.
  unfoldable pub matches_type : AlertType → AlertRule → Bool
  matches_type type r =
      text_eq (to_upper (string_or p.iso (property (lit "type") r.condition) [])) (type_text type)

  -- The webhook of a rule whose channel is Discord with a URL.
  unfoldable pub rule_webhook : AlertRule → Option Text
  rule_webhook r =
      if text_eq (to_lower (string_or p.iso (property (lit "type") r.channel) [])) (lit "discord")
      then filled (some (trim (string_or p.iso (property (lit "webhookUrl") r.channel) [])))
      else none

  abbrev pub notify_at :
      Option Text → AlertType → AlertContext → Payload → AlertRule → Board → Board
  notify_at none type c payload r w = w
  notify_at (some url) type c payload r w =
      let (result, w1) = send_on url payload (decimal c.org_id ++ lit ":" ++ decimal r.id) w in
      audit_alert (type_text type) c (is_delivered result) (failure result) w1

  -- The loop over the matching rules.
  unfoldable pub notify_rules : List AlertRule → AlertType → AlertContext → Payload → Board → Board
  notify_rules [] type c payload w = w
  notify_rules (r ∷ rs) type c payload w =
      notify_rules rs type c payload (notify_at (rule_webhook r) type c payload r w)

  unfoldable pub matching_rules : AlertType → AlertContext → Board → List AlertRule
  matching_rules type c w =
      select (matches_type type) (select (λ r. r.org_id == c.org_id && r.enabled) w.rules)

  unfoldable pub notify_matching : AlertType → AlertContext → Board → Board
  notify_matching type c w =
      notify_rules (matching_rules type c w) type c
        (format_discord_alert w.wire.now type
          (record c { org_name = name_of (find_org c.org_id w.orgs) }))
        w

  unfoldable pub send_matching_rules : AlertType → AlertContext → Board → Board
  send_matching_rules type c w = elim (note_alert type c w) [
    | none ↦ w
    | some w1 ↦ notify_matching type c w1
  ]
