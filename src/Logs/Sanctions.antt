-- ===== src/Logs/Sanctions.antt =====
-- logs.service.ts: moderateChat and enqueueModerationCommand.
use mastermind_7dtd_ai_serve.Base.{
  ℕ, ◌+◌, ◌*◌, Bool, true, false, not, ◌&&◌, ◌||◌, Option, none, some, List, [], ◌∷◌, ◌++◌, ◌==◌,
  leb, ltb, length, any, find_first, select, update_where,
}
use mastermind_7dtd_ai_serve.Base.Text.{Text, lit, text_eq, to_lower, is_digit}
use mastermind_7dtd_ai_serve.Schema.{str, end, field, ServerInstance}
use mastermind_7dtd_ai_serve.JsonValues.{decimal}
use mastermind_7dtd_ai_serve.Jobs.{instance_payload, insert_job}
use mastermind_7dtd_ai_serve.Logs.{Samples, Cooldown, LogBook, clock, find_server, add_event}
use mastermind_7dtd_ai_serve.Logs.Search.{contains}
use mastermind_7dtd_ai_serve.Logs.Words.{
  ModerationAction, log, warn, kick, BadWordRule, action_text,
}
use mastermind_7dtd_ai_serve.Logs.Moderation.{get_chat_moderation}
use mastermind_7dtd_ai_serve.Logs.StoredSettings.{ChatModeration}

-- A message of a player.
pub record Message : Type 0 where
  pub player_id : Text
  pub player_name : Text
  pub text : Text

abbrev player_key : ℕ → Message → Text
player_key i m = decimal i ++ lit ":" ++ m.player_id

abbrev times_of : Option Samples → List ℕ
times_of none = []
times_of (some s) = s.times

abbrev find_samples : Text → List Samples → Option Samples
find_samples key = find_first (λ s. text_eq s.key key)

abbrev set_samples_from : Option Samples → Text → List ℕ → List Samples → List Samples
set_samples_from none key times ss = ss ++ record { key = key; times = times } ∷ []
set_samples_from (some s) key times ss =
    update_where (λ x. text_eq x.key key) (λ x. record x { times = times }) ss

-- The player's messages in the window that ends now, this one included: `t >= now - window * 1000`.
unfoldable pub recent_times : ℕ → ℕ → Text → List Samples → List ℕ
recent_times now window key ss =
    select (λ t. leb now (t + window * 1000)) (times_of (find_samples key ss)) ++ now ∷ []

unfoldable pub is_muted : Text → ChatModeration → Bool
is_muted player c = any (λ m. text_eq m.player_id player) c.muted_players

unfoldable pub bad_word : Text → ChatModeration → Option BadWordRule
bad_word text c = find_first (λ r. contains r.word (to_lower text)) c.bad_word_rules

unfoldable pub is_flood : List ℕ → ChatModeration → Bool
is_flood times c = c.flood_enabled && ltb c.flood_messages (length times)

-- The reason and the action, where there is cause for one.
abbrev verdict_from :
    Bool → Option BadWordRule → Bool → ChatModeration → Option (Text × ModerationAction)
verdict_from true bad flood c = some (lit "Player is muted", kick)
verdict_from false (some r) flood c = some (lit "Blocked word: " ++ r.word, r.action)
verdict_from false none true c = some (lit "Chat flooding", c.flood_action)
verdict_from false none false c = none

unfoldable pub verdict : Message → List ℕ → ChatModeration → Option (Text × ModerationAction)
verdict m times c = verdict_from (is_muted m.player_id c) (bad_word m.text c) (is_flood times c) c

-- `s.replace(/["\\]/g, '')`.
unfoldable pub unquoted : Text → Text
unquoted s = select (λ u. not (u == 34 || u == 92)) s

-- `s.replace(/[^A-Za-z0-9_:-]/g, '')`.
unfoldable pub safe_id : Text → Text
safe_id s =
    select
      (λ u.
        (leb b'A' u && leb u b'Z')
        || (leb b'a' u && leb u b'z')
        || is_digit u
        || u == b'_'
        || u == b':'
        || u == b'-')
      s

-- The console command of an action other than `log`.
unfoldable pub moderation_command : Text → ModerationAction → Message → Text
moderation_command reason warn m =
    lit "say " ++ 34 ∷ unquoted m.player_name ++ lit " warning: " ++ reason ++ 34 ∷ []
moderation_command reason action m =
    lit "kick "
    ++ safe_id m.player_id
    ++ lit " "
    ++ 34 ∷ lit "Chat moderation: "
    ++ unquoted reason
    ++ 34 ∷ []

abbrev enqueue_on : Option ServerInstance → ℕ → Text → LogBook → LogBook
enqueue_on none org command w = w
enqueue_on (some s) org command w = record w {
  world =
      insert_job w.world org none s (lit "RCON")
        (instance_payload s (field (lit "command") (str command) end)) (clock w);
}

unfoldable pub enqueue_moderation_command : ℕ → ℕ → Text → LogBook → LogBook
enqueue_moderation_command org i command w = enqueue_on (find_server org i w) org command w

abbrev until_of : Option Cooldown → ℕ
until_of none = 0
until_of (some c) = c.until

abbrev find_cooldown : Text → List Cooldown → Option Cooldown
find_cooldown key = find_first (λ c. text_eq c.key key)

abbrev set_cooldown_from : Option Cooldown → Text → ℕ → List Cooldown → List Cooldown
set_cooldown_from none key until cs = cs ++ record { key = key; until = until } ∷ []
set_cooldown_from (some c) key until cs =
    update_where (λ x. text_eq x.key key) (λ x. record x { until = until }) cs

-- `action !== 'log'`.
abbrev is_sanction : ModerationAction → Bool
is_sanction log = false
is_sanction action = true

-- The command of a sanction, unless the player is in the cooldown of five seconds.
unfoldable pub sanction : ℕ → ℕ → Text → Text → ModerationAction → Message → LogBook → LogBook
sanction org i key reason action m w =
    let found = find_cooldown key w.moderation_cooldown in
    elim (is_sanction action && ltb (until_of found) (clock w)) [
      | true ↦ enqueue_moderation_command org i (moderation_command reason action m) (record w {
        moderation_cooldown = set_cooldown_from found key (clock w + 5000) w.moderation_cooldown;
      })
      | false ↦ w
    ]

abbrev act_on : Option (Text × ModerationAction) → ℕ → ℕ → Text → Message → LogBook → Bool × LogBook
act_on none org i key m w = (false, w)
act_on (some v) org i key m w =
    let (reason, action) = v in
    (
      true,
      sanction org i key reason action m (
          add_event org i (lit "chat_moderation_action")
            (field (lit "playerId") (str m.player_id) (
              field (lit "playerName") (str m.player_name) (
                field (lit "message") (str m.text) (
                  field (lit "reason") (str reason)
                    (field (lit "action") (str (action_text action)) end)))))
            w),
    )

abbrev moderate_by : ChatModeration → ℕ → ℕ → Message → LogBook → Bool × LogBook
moderate_by c org i m w =
    let key = player_key i m in
    let times = recent_times (clock w) c.flood_window_seconds key w.chat_samples in
    act_on (verdict m times c) org i key m (record w {
      chat_samples = set_samples_from (find_samples key w.chat_samples) key times w.chat_samples;
    })

-- Whether the message was acted on, so that it is not relayed.
unfoldable pub moderate_chat : (ℕ → Text) → ℕ → ℕ → Message → LogBook → Bool × LogBook
moderate_chat iso org i m w =
    let c = get_chat_moderation iso org i w in
    elim c.enabled [ true ↦ moderate_by c org i m w | false ↦ (false, w) ]
