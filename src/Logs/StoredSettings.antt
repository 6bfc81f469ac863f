-- ===== src/Logs/StoredSettings.antt =====
-- logs.service.ts: the settings for the moderation of chat, and how they are stored in the condition of an alert
-- rule. A setting stored with a value that this service never writes is read as if it were missing.
use mastermind_7dtd_ai_serve.Base.{
  ℕ, Bool, true, false, ◌&&◌, Option, some, List, [], ◌∷◌, map, ◌==◌, find_first,
}
use mastermind_7dtd_ai_serve.Base.Text.{Text, lit}
use mastermind_7dtd_ai_serve.Schema.{
  Json, bool, num, str, date, arr, obj, Items, nil, cons, Fields, end, field,
}
use mastermind_7dtd_ai_serve.JsonValues.{property, json_is, json_is_id}
use mastermind_7dtd_ai_serve.Alerts.{AlertRule}
use mastermind_7dtd_ai_serve.Logs.Words.{ModerationAction, warn, kick, BadWordRule, action_text}

pub record Muted : Type 0 where
  pub player_id : Text
  pub player_name : Text
  pub created_at : ℕ

pub record ChatModeration : Type 0 where
  pub enabled : Bool
  pub bad_word_rules : List BadWordRule
  pub bad_word_action : ModerationAction
  pub flood_enabled : Bool
  pub flood_messages : ℕ
  pub flood_window_seconds : ℕ
  pub flood_action : ModerationAction
  pub muted_players : List Muted

-- `badWords`.
abbrev pub bad_words : ChatModeration → List Text
bad_words c = map (λ r. r.word) c.bad_word_rules

unfoldable pub moderation_defaults : ChatModeration
moderation_defaults = record {
  enabled = false;
  bad_word_rules = [];
  bad_word_action = warn;
  flood_enabled = true;
  flood_messages = 5;
  flood_window_seconds = 10;
  flood_action = kick;
  muted_players = [];
}

abbrev moderation_type : Text
moderation_type = lit "chat_moderation"

abbrev is_moderation : AlertRule → Bool
is_moderation r = json_is moderation_type (property (lit "type") r.condition)

abbrev pub is_moderation_of : ℕ → AlertRule → Bool
is_moderation_of i r =
    is_moderation r && json_is_id i (property (lit "serverInstanceId") r.condition)

abbrev pub find_moderation : ℕ → ℕ → List AlertRule → Option AlertRule
find_moderation org i = find_first (λ r. r.org_id == org && is_moderation_of i r)

-- The settings as they are stored.
unfoldable pub rule_items : List BadWordRule → Items
rule_items [] = nil
rule_items (r ∷ rs) =
    cons
      (obj
        (field (lit "word") (str r.word) (field (lit "action") (str (action_text r.action)) end)))
      (rule_items rs)

unfoldable pub word_items : List Text → Items
word_items [] = nil
word_items (w ∷ ws) = cons (str w) (word_items ws)

unfoldable pub muted_items : List Muted → Items
muted_items [] = nil
muted_items (m ∷ ms) =
    cons
      (obj (
        field (lit "playerId") (str m.player_id) (
          field (lit "playerName") (str m.player_name)
            (field (lit "createdAt") (date m.created_at) end))))
      (muted_items ms)

unfoldable pub stored : ℕ → ChatModeration → Fields
stored i c = field (lit "type") (str moderation_type) (
    field (lit "serverInstanceId") (num i) (
      field (lit "enabled") (bool c.enabled) (
        field (lit "badWordRules") (arr (rule_items c.bad_word_rules)) (
          field (lit "badWords") (arr (word_items (bad_words c))) (
            field (lit "badWordAction") (str (action_text c.bad_word_action)) (
              field (lit "floodEnabled") (bool c.flood_enabled) (
                field (lit "floodMessages") (num c.flood_messages) (
                  field (lit "floodWindowSeconds") (num c.flood_window_seconds) (
                    field (lit "floodAction") (str (action_text c.flood_action))
                      (field (lit "mutedPlayers") (arr (muted_items c.muted_players)) end))))))))))

abbrev pub bool_or : Option Json → Bool → Bool
bool_or (some (bool b)) d = b
bool_or v d = d

abbrev pub num_or : Option Json → ℕ → ℕ
num_or (some (num n)) d = n
num_or v d = d

abbrev text_or_empty : Option Json → Text
text_or_empty (some (str s)) = s
text_or_empty v = []

abbrev date_or_zero : Option Json → ℕ
date_or_zero (some (date t)) = t
date_or_zero v = 0

abbrev read_muted_item : Json → Muted
read_muted_item j = record {
  player_id = text_or_empty (property (lit "playerId") j);
  player_name = text_or_empty (property (lit "playerName") j);
  created_at = date_or_zero (property (lit "createdAt") j);
}

unfoldable pub read_muted : Items → List Muted
read_muted nil = []
read_muted (cons j js) = read_muted_item j ∷ read_muted js

abbrev pub muted_from : Option Json → List Muted
muted_from (some (arr js)) = read_muted js
muted_from v = []
