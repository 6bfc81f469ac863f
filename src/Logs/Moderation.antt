-- ===== src/Logs/Moderation.antt =====
-- logs.service.ts: getChatModeration and updateChatModeration. Logs/StoredSettings has the settings.
use mastermind_7dtd_ai_serve.Base.{
  ℕ, min, max, Bool, Option, none, some, List, ◌++◌, ◌==◌, or_default, update_where,
}
use mastermind_7dtd_ai_serve.Base.Text.{Text, lit}
use mastermind_7dtd_ai_serve.Base.Result.{Result, ok, ◌>>=◌, or_throw}
use mastermind_7dtd_ai_serve.Schema.{Json, null, str, arr, obj, nil, end, field}
use mastermind_7dtd_ai_serve.JsonValues.{property}
use mastermind_7dtd_ai_serve.Alerts.{AlertRule, Board, add_rule}
use mastermind_7dtd_ai_serve.Logs.{LogBook, LogError, instance_missing, find_server}
use mastermind_7dtd_ai_serve.Logs.Words.{
  ModerationAction, warn, action_text, moderation_action, clean_bad_word_rules,
}
use mastermind_7dtd_ai_serve.Logs.StoredSettings.{
  Muted, ChatModeration, moderation_defaults, find_moderation, rule_items, stored, bool_or, num_or,
  muted_from,
}

-- `badWordRules` if it is a list, or else `badWords` if that is one.
abbrev source_rules : Option Json → Option Json → Json
source_rules (some (arr js)) words = arr js
source_rules v (some (arr js)) = arr js
source_rules v words = arr nil

-- What the caller asks to change. Word rules may come in either form.
pub record ModerationInput : Type 0 where
  pub enabled : Option Bool
  pub bad_word_rules : Option Json
  pub bad_words : Option Json
  pub bad_word_action : Option Json
  pub flood_enabled : Option Bool
  pub flood_messages : Option ℕ
  pub flood_window_seconds : Option ℕ
  pub flood_action : Option Json
  pub muted_players : Option (List Muted)

abbrev pub dashboard : Json
dashboard = obj (field (lit "type") (str (lit "dashboard")) end)

module _ (iso : ℕ → Text) where
  abbrev pub read_settings : Bool → Json → ChatModeration
  read_settings enabled c =
      let d = moderation_defaults in
      let legacy = moderation_action iso (property (lit "badWordAction") c) warn in
      record {
        enabled = enabled;
        bad_word_rules =
            clean_bad_word_rules iso
              (source_rules (property (lit "badWordRules") c) (property (lit "badWords") c)) legacy;
        bad_word_action = legacy;
        flood_enabled = bool_or (property (lit "floodEnabled") c) d.flood_enabled;
        flood_messages = num_or (property (lit "floodMessages") c) d.flood_messages;
        flood_window_seconds =
            num_or (property (lit "floodWindowSeconds") c) d.flood_window_seconds;
        flood_action = moderation_action iso (property (lit "floodAction") c) d.flood_action;
        muted_players = muted_from (property (lit "mutedPlayers") c);
      }

  abbrev pub settings_from : Option AlertRule → ChatModeration
  settings_from none = moderation_defaults
  settings_from (some r) = read_settings r.enabled r.condition

  unfoldable pub get_chat_moderation : ℕ → ℕ → LogBook → ChatModeration
  get_chat_moderation org i w = settings_from (find_moderation org i w.board.rules)

  abbrev action_json : Option Json → ModerationAction → Option Json
  action_json none current = some (str (action_text current))
  action_json (some null) current = some (str (action_text current))
  action_json v current = v

  abbrev pub requested : ModerationInput → ChatModeration → Json
  requested u current = elim u.bad_word_rules [
    | some v ↦ v
    | none ↦ elim u.bad_words [ some v ↦ v | none ↦ arr (rule_items current.bad_word_rules) ]
  ]

  unfoldable pub new_settings : ModerationInput → ChatModeration → ChatModeration
  new_settings u current =
      let legacy =
        moderation_action iso (action_json u.bad_word_action current.bad_word_action) warn in
      record {
        enabled = or_default u.enabled current.enabled;
        bad_word_rules = clean_bad_word_rules iso (requested u current) legacy;
        bad_word_action = legacy;
        flood_enabled = or_default u.flood_enabled current.flood_enabled;
        flood_messages = min 30 (max 2 (or_default u.flood_messages current.flood_messages));
        flood_window_seconds =
            min 300 (max 2 (or_default u.flood_window_seconds current.flood_window_seconds));
        flood_action =
            moderation_action iso (action_json u.flood_action current.flood_action)
              current.flood_action;
        muted_players = or_default u.muted_players current.muted_players;
      }

  abbrev pub save_moderation : Option AlertRule → ℕ → ℕ → Text → ChatModeration → Board → Board
  save_moderation none org i name c b =
      (add_rule org name (obj (stored i c)) dashboard c.enabled b).1
  save_moderation (some r) org i name c b = record b {
    rules =
        update_where (λ x. x.id == r.id)
          (λ x. record x {
            name = name;
            enabled = c.enabled;
            condition = obj (stored i c);
            channel = dashboard;
          })
          b.rules;
  }

  unfoldable pub update_chat_moderation :
      ℕ → ℕ → ModerationInput → LogBook → Result LogError (ChatModeration × LogBook)
  update_chat_moderation org i u w = do
    s ← or_throw (find_server org i w) instance_missing
    let settings = new_settings u (get_chat_moderation org i w)
    ok (
      settings,
      record w {
        board =
            save_moderation (find_moderation org i w.board.rules) org i
              (lit "Chat moderation: " ++ s.name) settings w.board;
      },
    )
