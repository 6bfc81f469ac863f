-- ===== src/Alerts/Format.antt =====
-- control-plane/src/alerts/formatters/discord-alert.formatter.ts. The emoji of the titles are written as
-- their UTF-16 code units.
use mastermind_7dtd_ai_serve.Base.{
  ℕ, ◌/◌, ◌%◌, Bool, true, false, Option, none, some, List, [], ◌∷◌, ◌++◌, ◌==◌, if◌then◌else◌,
}
use mastermind_7dtd_ai_serve.Base.Text.{Text, lit}
use mastermind_7dtd_ai_serve.Discord.{EmbedField, Embed, Payload}
use mastermind_7dtd_ai_serve.JsonValues.{decimal, filled}
use mastermind_7dtd_ai_serve.Alerts.{
  AlertType, server_down, server_restart, agent_offline, frigate_detection, player_connected,
  player_disconnected, AlertContext,
}

unfoldable pub color_of : AlertType → ℕ
color_of server_down = 15158332
color_of server_restart = 15965202
color_of agent_offline = 10181046
color_of frigate_detection = 3447003
color_of player_connected = 3066993
color_of player_disconnected = 9807270

unfoldable pub get_title : AlertType → Text
get_title server_down = 55357 ∷ 56628 ∷ lit " Server down"
get_title server_restart = 55357 ∷ 57312 ∷ lit " Server restart"
get_title agent_offline = 55357 ∷ 57315 ∷ lit " Agent offline"
get_title frigate_detection = 55357 ∷ 56567 ∷ lit " Frigate detection event"
get_title player_connected = 55357 ∷ 57314 ∷ lit " Player connected"
get_title player_disconnected = 9898 ∷ lit " Player disconnected"

-- `list.filter(Boolean).join(' ')` of three parts, of which the last is not empty.
abbrev duration_part : ℕ → Text → Text
duration_part n unit = if n == 0 then [] else decimal n ++ unit ++ lit " "

unfoldable pub format_duration : ℕ → Text
format_duration seconds =
    duration_part (seconds / 3600) (lit "h")
    ++ duration_part (seconds % 3600 / 60) (lit "m")
    ++ decimal (seconds % 60)
    ++ lit "s"

abbrev text_entry : Text → Bool → Option Text → List EmbedField
text_entry name inline none = []
text_entry name inline (some value) = record { name = name; value = value; inline = inline } ∷ []

abbrev id_text : Option ℕ → Option Text
id_text none = none
id_text (some i) = some (decimal i)

abbrev percentage : Option ℕ → Option Text
percentage none = none
percentage (some n) = some (decimal n ++ lit "%")

abbrev playtime : AlertType → Option ℕ → Option Text
playtime player_disconnected (some seconds) = some (format_duration seconds)
playtime type seconds = none

unfoldable pub embed_fields : AlertType → AlertContext → List EmbedField
embed_fields type c =
    text_entry (lit "Org") true (filled c.org_name)
    ++ text_entry (lit "Server") true (filled c.server_instance_name)
    ++ text_entry (lit "Host") true (filled c.host_name)
    ++ text_entry (lit "Server ID") false (id_text c.server_instance_id)
    ++ text_entry (lit "Host ID") false (id_text c.host_id)
    ++ text_entry (lit "Last heartbeat") false (filled c.last_heartbeat_at)
    ++ text_entry (lit "Reason") false (filled c.reason)
    ++ text_entry (lit "Camera") true (filled c.frigate_camera)
    ++ text_entry (lit "Detected") true (filled c.frigate_label)
    ++ text_entry (lit "Confidence") true (percentage c.frigate_score)
    ++ text_entry (lit "Player") true (filled c.player_name)
    ++ text_entry (lit "Steam ID") false (filled c.steam_id)
    ++ text_entry (lit "EOS ID") false (filled c.eos_id)
    ++ text_entry (lit "Session playtime") true (playtime type c.session_seconds)

abbrev some_fields : List EmbedField → Option (List EmbedField)
some_fields [] = none
some_fields (f ∷ fs) = some (f ∷ fs)

unfoldable pub build_embed : ℕ → AlertType → AlertContext → Embed
build_embed now type c = record {
  title = some (get_title type);
  description = none;
  color = some (color_of type);
  fields = some_fields (embed_fields type c);
  footer = some (lit "Mastermind Control Plane");
  timestamp = some now;
}

unfoldable pub format_discord_alert : ℕ → AlertType → AlertContext → Payload
format_discord_alert now type c = record {
  content = none;
  embeds = some (build_embed now type c ∷ []);
}
