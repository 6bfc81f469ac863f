-- ===== src/Logs/Saved.antt =====
-- logs.service.ts: the moderation settings that were saved are those that are read.
use mastermind_7dtd_ai_serve.Base.{
  ℕ, zero, suc, ◌≤◌, ◌≡◌, refl, sym, ap, ◌∙◌, Bool, true, false, ◌&&◌, Option, none, some, List, [],
  ◌∷◌, ◌++◌, arith, ◌==◌, ==_refl, inl, inr, Bool-cases, Option-cases, length, find_first_holds,
  find_first-append_last, find_first-update_found, HasDistinct, All, All-map, All-zip,
}
use mastermind_7dtd_ai_serve.Base.Text.{Text, lit, text_eq, includes, trim, to_lower}
use mastermind_7dtd_ai_serve.Base.Text.Trims.{to_lower-trim_again}
use mastermind_7dtd_ai_serve.Base.Result.{ok, ok-injective}
use mastermind_7dtd_ai_serve.Schema.{
  Json, null, bool, num, date, str, obj, arr, Items, nil, cons, end, field, get_field,
}
use mastermind_7dtd_ai_serve.JsonValues.{property, json_is, json_is_id, json_string, string_or}
use mastermind_7dtd_ai_serve.Alerts.{AlertRule, Board, add_rule}
use mastermind_7dtd_ai_serve.Logs.{LogBook, find_server}
use mastermind_7dtd_ai_serve.Logs.Words.{
  ModerationAction, log, warn, kick, BadWordRule, action_text, moderation_action, word_of,
  action_of, is_skipped, clean_items, clean_bad_word_rules,
}
use mastermind_7dtd_ai_serve.Logs.WordRules.{IsWord, AreDistinct, clean_bad_word_rules-AreDistinct}
use mastermind_7dtd_ai_serve.Logs.Moderation.{
  ModerationInput, settings_from, dashboard, read_settings, get_chat_moderation, requested,
  new_settings, save_moderation, update_chat_moderation,
}
use mastermind_7dtd_ai_serve.Logs.StoredSettings.{
  Muted, ChatModeration, rule_items, muted_items, stored, read_muted, is_moderation_of,
  find_moderation,
}

-- The word is trimmed and in lower case.
abbrev IsPlain : BadWordRule → Type 0
IsPlain r = to_lower (trim r.word) ≡ r.word

module _ (iso : ℕ → Text) where
  clean_items-IsPlain :
      (fallback : ModerationAction) (room : ℕ) (seen : List Text) (items : Items)
      → All IsPlain (clean_items iso fallback room seen items)
  unfolding clean_items word_of
  clean_items-IsPlain fallback zero seen items = tt
  clean_items-IsPlain fallback (suc room) seen nil = tt
  clean_items-IsPlain fallback (suc room) seen (cons item items) =
      elim (Bool-cases (is_skipped iso seen (word_of iso item))) [
        | inl t ↦ rw (t, clean_items) (clean_items-IsPlain fallback (suc room) seen items)
        | inr g ↦
            rw (g, clean_items)
              (
                to_lower-trim_again _,
                clean_items-IsPlain fallback room (word_of iso item ∷ seen) items,
              )
      ]

  clean_bad_word_rules-IsPlain :
      (value : Json) (fallback : ModerationAction)
      → All IsPlain (clean_bad_word_rules iso value fallback)
  unfolding clean_bad_word_rules
  clean_bad_word_rules-IsPlain (arr items) fallback = clean_items-IsPlain fallback 200 [] items
  clean_bad_word_rules-IsPlain (obj fs) fallback = tt
  clean_bad_word_rules-IsPlain null fallback = tt
  clean_bad_word_rules-IsPlain (bool b) fallback = tt
  clean_bad_word_rules-IsPlain (num n) fallback = tt
  clean_bad_word_rules-IsPlain (str s) fallback = tt
  clean_bad_word_rules-IsPlain (date d) fallback = tt

  abbrev rule_json : BadWordRule → Json
  rule_json r =
      obj (field (lit "word") (str r.word) (field (lit "action") (str (action_text r.action)) end))

  word_of-rule_json : (r : BadWordRule) → word_of iso (rule_json r) ≡ to_lower (trim r.word)
  unfolding word_of property get_field text_eq lit string_or json_string
  word_of-rule_json r = refl

  moderation_action-action_text :
      (a fallback : ModerationAction)
      → moderation_action iso (some (str (action_text a))) fallback ≡ a
  unfolding moderation_action string_or json_string action_text text_eq lit
  moderation_action-action_text log fallback = refl
  moderation_action-action_text warn fallback = refl
  moderation_action-action_text kick fallback = refl

  action_of-rule_json :
      (fallback : ModerationAction) (r : BadWordRule)
      → action_of iso fallback (rule_json r) ≡ r.action
  unfolding action_of property get_field text_eq lit
  action_of-rule_json fallback r = moderation_action-action_text r.action fallback

  clean_again :
      (fallback : ModerationAction) (room : ℕ) (seen : List Text) (rs : List BadWordRule)
      → length rs ≤ room
      → All (λ r. IsWord r.word × IsPlain r × (includes seen r.word ≡ false)) rs
      → AreDistinct rs
      → clean_items iso fallback room seen (rule_items rs) ≡ rs
  unfolding clean_items rule_items includes
  clean_again fallback zero seen [] l h d = refl
  clean_again fallback (suc room) seen [] l h d = refl
  clean_again fallback zero seen (r ∷ rs) l h d = absurd (omega arith)
  clean_again fallback (suc room) seen (r ∷ rs) l ((w, plain, new), h) (apart, d) =
      let same : word_of iso (rule_json r) ≡ r.word = word_of-rule_json r ∙ plain in
      let kept : is_skipped iso seen (word_of iso (rule_json r)) ≡ false = rw same (ground arith) in
      rw (kept, clean_items)
        (rw (same, action_of-rule_json fallback r)
          (ap (λ xs. r ∷ xs)
            (clean_again fallback room (r.word ∷ seen) rs (omega arith)
              (All-map (λ x ((a, b, c), e). (a, b, rw (e, c) refl)) rs (All-zip _ _ rs h apart))
              d)))

  cleaned_again :
      (value : Json) (fallback : ModerationAction)
      → let rs = clean_bad_word_rules iso value fallback in
        clean_bad_word_rules iso (arr (rule_items rs)) fallback ≡ rs
  unfolding includes
  cleaned_again value fallback =
      let rs = clean_bad_word_rules iso value fallback in
      let (l, words, apart, all) = clean_bad_word_rules-AreDistinct iso value fallback in
      unfold clean_bad_word_rules in
      (clean_again fallback 200 [] rs l
        (All-map (λ r (w, plain). (w, plain, refl)) rs
          (All-zip _ _ rs words (clean_bad_word_rules-IsPlain value fallback)))
        apart)

  read_muted-muted_items : (ms : List Muted) → read_muted (muted_items ms) ≡ ms
  unfolding read_muted muted_items property get_field text_eq lit
  read_muted-muted_items [] = refl
  read_muted-muted_items (m ∷ ms) = ap (λ xs. m ∷ xs) (read_muted-muted_items ms)

  -- Settings whose words are clean are read as they were stored.
  read_settings-stored :
      (i : ℕ) (c : ChatModeration)
      → clean_bad_word_rules iso (arr (rule_items c.bad_word_rules)) c.bad_word_action
        ≡ c.bad_word_rules
      → read_settings iso c.enabled (obj (stored i c)) ≡ c
  unfolding stored property get_field text_eq lit
  read_settings-stored i c clean =
      rw
        (
          moderation_action-action_text c.bad_word_action warn,
          moderation_action-action_text c.flood_action,
          read_muted-muted_items c.muted_players,
          clean,
        )
        refl

  new_settings-clean :
      (u : ModerationInput) (current : ChatModeration)
      → let c = new_settings iso u current in
        clean_bad_word_rules iso (arr (rule_items c.bad_word_rules)) c.bad_word_action
        ≡ c.bad_word_rules
  unfolding new_settings
  new_settings-clean u current =
      cleaned_again (requested iso u current) (new_settings iso u current).bad_word_action

  is_moderation_of-stored :
      (i : ℕ) (r : AlertRule) (c : ChatModeration)
      → is_moderation_of i (record r { condition = obj (stored i c) }) ≡ true
  unfolding stored property get_field text_eq lit json_is json_is_id
  is_moderation_of-stored i r c = ==_refl i

  -- After settings are saved, the organisation's rule for the instance holds them.
  save_moderation-find_moderation :
      (o : Option AlertRule) (org i : ℕ) (name : Text) (c : ChatModeration) (b : Board)
      → HasDistinct (λ r. r.id) b.rules
      → find_moderation org i b.rules ≡ o
      → (r : AlertRule) × (find_moderation org i (save_moderation iso o org i name c b).rules
          ≡ some (record r { enabled = c.enabled; condition = obj (stored i c) }))
  unfolding add_rule
  save_moderation-find_moderation none org i name c b d e =
      let new : AlertRule = (add_rule org name (obj (stored i c)) dashboard c.enabled b).0 in
      (
        new,
        find_first-append_last (λ r. r.org_id == org && is_moderation_of i r) b.rules new e
            (rw (==_refl org) (is_moderation_of-stored i new c)),
      )
  save_moderation-find_moderation (some r) org i name c b d e =
      let p : AlertRule → Bool = λ x. x.org_id == org && is_moderation_of i x in
      let f : AlertRule → AlertRule = λ x. record x {
        name = name;
        enabled = c.enabled;
        condition = obj (stored i c);
        channel = dashboard;
      } in
      let of_org : (r.org_id == org) ≡ true = ground (arith, find_first_holds p b.rules e) in
      (
        f r,
        find_first-update_found (λ x. x.id) p f b.rules d e
            (rw of_org (is_moderation_of-stored i r c)),
      )

  -- With distinct rule ids: after an update of the moderation settings of a server instance that succeeds,
  -- the settings that are read for the instance are those that the update answered, word rules, flood
  -- limits and muted players included.
  pub update_chat_moderation-get_chat_moderation :
      (org i : ℕ) (u : ModerationInput) (w w' : LogBook) (c : ChatModeration)
      → HasDistinct (λ r. r.id) w.board.rules
      → update_chat_moderation iso org i u w ≡ ok (c, w')
      → get_chat_moderation iso org i w' ≡ c
  unfolding update_chat_moderation get_chat_moderation
  update_chat_moderation-get_chat_moderation org i u w w' c d run =
      elim (Option-cases (find_server org i w)) [
        | inl e ↦ cc (rw (e, update_chat_moderation) at run)
        | inr (s, e) ↦
            let current = get_chat_moderation iso org i w in
            let made = new_settings iso u current in
            let name = lit "Chat moderation: " ++ s.name in
            let pair = ok-injective (rw (e, update_chat_moderation) at run) in
            let (r, found) =
              save_moderation-find_moderation (find_moderation org i w.board.rules) org i name made
                w.board d refl in
            ap (λ v. settings_from iso (find_moderation org i v.1.board.rules)) (sym pair)
            ∙ ap (settings_from iso) found
            ∙ read_settings-stored i made (new_settings-clean u current)
            ∙ ap (λ v. v.0) pair
      ]
