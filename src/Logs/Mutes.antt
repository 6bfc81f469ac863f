-- ===== src/Logs/Mutes.antt =====
-- logs.service.ts: setPlayerMuted.
use mastermind_7dtd_ai_serve.Base.{
  ℕ, Bool, true, false, some, List, [], ◌∷◌, ◌++◌, is_some, take, delete_where,
}
use mastermind_7dtd_ai_serve.Base.Text.{Text, text_eq, trim}
use mastermind_7dtd_ai_serve.Base.Result.{Result, ◌>>◌, require}
use mastermind_7dtd_ai_serve.Schema.{str, arr}
use mastermind_7dtd_ai_serve.JsonValues.{filled}
use mastermind_7dtd_ai_serve.Logs.{LogBook, LogError, player_id_required, clock}
use mastermind_7dtd_ai_serve.Logs.Words.{action_text}
use mastermind_7dtd_ai_serve.Logs.Moderation.{
  ModerationInput, get_chat_moderation, update_chat_moderation,
}
use mastermind_7dtd_ai_serve.Logs.StoredSettings.{
  Muted, ChatModeration, bad_words, rule_items, word_items,
}

module _ (iso : ℕ → Text) where
  -- The current settings as the input of an update.
  abbrev all_of : ChatModeration → ModerationInput
  all_of c = record {
    enabled = some c.enabled;
    bad_word_rules = some (arr (rule_items c.bad_word_rules));
    bad_words = some (arr (word_items (bad_words c)));
    bad_word_action = some (str (action_text c.bad_word_action));
    flood_enabled = some c.flood_enabled;
    flood_messages = some c.flood_messages;
    flood_window_seconds = some c.flood_window_seconds;
    flood_action = some (str (action_text c.flood_action));
    muted_players = some c.muted_players;
  }

  abbrev name_or_id : Text → Text → Text
  name_or_id [] i = i
  name_or_id (c ∷ s) i = c ∷ s

  unfoldable pub muted_list : Text → Text → Bool → ℕ → List Muted → List Muted
  muted_list player name muted now ms =
      let others = delete_where (λ m. text_eq m.player_id player) ms in
      let entry : Muted = record {
        player_id = player;
        player_name = name_or_id (take 128 (trim name)) player;
        created_at = now;
      } in
      elim muted [ true ↦ others ++ entry ∷ [] | false ↦ others ]

  unfoldable pub set_player_muted :
      ℕ → ℕ → Text → Text → Bool → LogBook → Result LogError (ChatModeration × LogBook)
  set_player_muted org i player name muted w =
      let current = get_chat_moderation iso org i w in
      let clean = take 128 (trim player) in
      do
        require (is_some (filled (some clean))) player_id_required
        update_chat_moderation iso org i
            (all_of (record current {
              muted_players = muted_list clean name muted (clock w) current.muted_players;
            }))
            w
