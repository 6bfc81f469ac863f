-- ===== src/Logs/Words.antt =====
-- logs.service.ts: moderationAction and cleanBadWordRules.
use mastermind_7dtd_ai_serve.Base.{
  ℕ, zero, suc, Bool, true, false, not, ◌||◌, Option, some, List, [], ◌∷◌, ltb, if◌then◌else◌,
  is_some, length,
}
use mastermind_7dtd_ai_serve.Base.Text.{Text, lit, text_eq, includes, trim, to_lower}
use mastermind_7dtd_ai_serve.Schema.{Json, obj, arr, Items, nil, cons, end, field}
use mastermind_7dtd_ai_serve.JsonValues.{property, string_or, filled}

pub data ModerationAction : Type 0 where
  log warn kick : ModerationAction

pub record BadWordRule : Type 0 where
  pub word : Text
  pub action : ModerationAction

unfoldable pub action_text : ModerationAction → Text
action_text log = lit "log"
action_text warn = lit "warn"
action_text kick = lit "kick"

-- The action that the text names, or the fallback.
abbrev pub action_or : Text → ModerationAction → ModerationAction
action_or t fallback =
    if text_eq t (lit "log")
    then log
    else (if text_eq t (lit "warn")
        then warn
        else (if text_eq t (lit "kick") then kick else fallback))

module _ (iso : ℕ → Text) where
  -- `undefined` is written `undefined` by `String`, which names no action.
  unfoldable pub moderation_action : Option Json → ModerationAction → ModerationAction
  moderation_action value fallback = action_or (string_or iso value (lit "undefined")) fallback

  -- An item as a record: what is not an object stands for its word.
  abbrev as_record : Json → Json
  as_record (obj fs) = obj fs
  as_record (arr js) = obj end
  as_record j = obj (field (lit "word") j end)

  unfoldable pub word_of : Json → Text
  word_of item = to_lower (trim (string_or iso (property (lit "word") (as_record item)) []))

  unfoldable pub action_of : ModerationAction → Json → ModerationAction
  action_of fallback item = moderation_action (property (lit "action") (as_record item)) fallback

  abbrev pub is_skipped : List Text → Text → Bool
  is_skipped seen word =
      not (is_some (filled (some word))) || ltb 80 (length word) || includes seen word

  -- The loop, with the rules that may still be added and the words seen.
  unfoldable pub clean_items : ModerationAction → ℕ → List Text → Items → List BadWordRule
  clean_items fallback zero seen items = []
  clean_items fallback (suc room) seen nil = []
  clean_items fallback (suc room) seen (cons item items) = elim (is_skipped seen (word_of item)) [
    | true ↦ clean_items fallback (suc room) seen items
    | false ↦
        record { word = word_of item; action = action_of fallback item }
        ∷ clean_items fallback room (word_of item ∷ seen) items
  ]

  unfoldable pub clean_bad_word_rules : Json → ModerationAction → List BadWordRule
  clean_bad_word_rules (arr items) fallback = clean_items fallback 200 [] items
  clean_bad_word_rules value fallback = []
