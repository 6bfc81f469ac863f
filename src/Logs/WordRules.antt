-- ===== src/Logs/WordRules.antt =====
-- logs.service.ts cleanBadWordRules: what the rules are.
use mastermind_7dtd_ai_serve.Base.{
  ℕ, zero, suc, ◌≤◌, ◌<◌, ◌≡◌, refl, Bool, true, false, ◌&&◌, ◌||◌, some, List, [], ◌∷◌, arith, ◌⊎◌,
  inl, inr, leb, ltb, is_some, Bool-cases, length, any, All, All-map,
}
use mastermind_7dtd_ai_serve.Base.Text.{Text, text_eq, text_eq_iff, text_eq_refl, includes}
use mastermind_7dtd_ai_serve.Schema.{Json, obj, arr, null, bool, num, date, str, Items, nil, cons}
use mastermind_7dtd_ai_serve.JsonValues.{filled}
use mastermind_7dtd_ai_serve.Logs.Words.{
  ModerationAction, BadWordRule, word_of, is_skipped, clean_items, clean_bad_word_rules,
}

-- The word can be a rule's.
abbrev pub is_word : Text → Bool
is_word t = is_some (filled (some t)) && leb (length t) 80

abbrev pub IsWord : Text → Type 0
IsWord t = (is_some (filled (some t)) ≡ true) × (length t ≤ 80)

-- No two rules have the same word.
abbrev pub AreDistinct : List BadWordRule → Type 0
AreDistinct [] = Unit
AreDistinct (r ∷ rs) = All (λ s. text_eq r.word s.word ≡ false) rs × AreDistinct rs

module _ (iso : ℕ → Text) where
  -- An item of the list gives the word.
  unfoldable pub mentions : Text → Items → Bool
  mentions t nil = false
  mentions t (cons item items) = text_eq (word_of iso item) t || mentions t items

  skip_facts :
      (seen : List Text) (word : Text)
      → is_skipped iso seen word ≡ false
      → IsWord word × (includes seen word ≡ false)
  skip_facts seen word e = ((ground arith, ground arith), ground arith)

  unseen :
      (seen : List Text) (word : Text) (rs : List BadWordRule)
      → All (λ r. IsWord r.word × (includes (word ∷ seen) r.word ≡ false)) rs
      → All (λ r. IsWord r.word × (includes seen r.word ≡ false)) rs
        × All (λ s. text_eq word s.word ≡ false) rs
  unfolding includes
  unseen seen word rs h =
      (All-map (λ r (w, i). (w, ground arith)) rs h, All-map (λ r (w, i). ground arith) rs h)

  clean_items_lem :
      (fallback : ModerationAction) (room : ℕ) (seen : List Text) (items : Items)
      → let rs = clean_items iso fallback room seen items in
        (length rs ≤ room)
        × All (λ r. IsWord r.word × (includes seen r.word ≡ false)) rs
        × AreDistinct rs
  unfolding clean_items
  clean_items_lem fallback zero seen items = (omega arith, tt, tt)
  clean_items_lem fallback (suc room) seen nil = (omega arith, tt, tt)
  clean_items_lem fallback (suc room) seen (cons item items) =
      elim (Bool-cases (is_skipped iso seen (word_of iso item))) [
        | inl t ↦ rw (t, clean_items) (clean_items_lem fallback (suc room) seen items)
        | inr g ↦
            let word = word_of iso item in
            let (l, words, apart) = clean_items_lem fallback room (word ∷ seen) items in
            let (words', fresh) = unseen seen word _ words in
            rw (g, clean_items) (omega arith, (skip_facts seen word g, words'), (fresh, apart))
      ]

  not_skipped :
      (seen : List Text) (t : Text)
      → IsWord t
      → includes seen t ≡ false
      → is_skipped iso seen t ≡ false
  not_skipped seen t (w, l) i = ground arith

  seen_next :
      (seen : List Text) (word t : Text)
      → text_eq word t ≡ false
      → includes seen t ≡ false
      → includes (word ∷ seen) t ≡ false
  unfolding includes
  seen_next seen word t n i = rw n i

  -- The words that the items of a list give.
  unfoldable pub word_list : Items → List Text
  word_list nil = []
  word_list (cons item items) = word_of iso item ∷ word_list items

  abbrev pub words_in : Json → List Text
  words_in (arr items) = word_list items
  words_in value = []

  clean_items_complete :
      (fallback : ModerationAction) (room : ℕ) (seen : List Text) (items : Items) (t : Text)
      → IsWord t
      → includes seen t ≡ false
      → mentions t items ≡ true
      → length (clean_items iso fallback room seen items) < room
      → any (λ r. text_eq r.word t) (clean_items iso fallback room seen items) ≡ true
  unfolding clean_items mentions any
  clean_items_complete fallback zero seen items t w i m l = absurd (omega arith)
  clean_items_complete fallback (suc room) seen nil t w i m l = cc
  clean_items_complete fallback (suc room) seen (cons item items) t w i m l =
      let word = word_of iso item in
      elim (Bool-cases (is_skipped iso seen word)) [
        | inl s ↦ elim (Bool-cases (text_eq word t)) [
          | inl e ↦
              let same : word ≡ t = (text_eq_iff word t).0 e in
              let kept : is_skipped iso seen word ≡ false = rw same (not_skipped seen t w i) in cc
          | inr n ↦
              rw (s, clean_items)
                (clean_items_complete fallback (suc room) seen items t w i (ground arith)
                  (rw (s, clean_items) at l))
        ]
        | inr g ↦ elim (Bool-cases (text_eq word t)) [
          | inl e ↦ rw (g, clean_items) (rw e refl)
          | inr n ↦
              rw (g, clean_items)
                (rw n (
                  clean_items_complete fallback room (word ∷ seen) items t w
                    (seen_next seen word t n i) (ground arith)
                    (let l' = rw (g, clean_items) at l in omega arith)))
        ]
      ]

  word_list-mentions : (items : Items) → All (λ t. mentions t items ≡ true) (word_list items)
  unfolding word_list mentions
  word_list-mentions nil = tt
  word_list-mentions (cons item items) = (
    rw (text_eq_refl (word_of iso item)) refl,
    All-map (λ t m. ground arith) (word_list items) (word_list-mentions items),
  )

  words_kept :
      (fallback : ModerationAction) (rs : List BadWordRule) (items : Items)
      → length rs ≤ 200
      → ((t : Text)
          → IsWord t
          → mentions t items ≡ true
          → length rs < 200
          → any (λ r. text_eq r.word t) rs ≡ true)
      → All
          (λ t. (is_word t ≡ false) ⊎ (length rs ≡ 200) ⊎ (any (λ r. text_eq r.word t) rs ≡ true))
          (word_list items)
  words_kept fallback rs items l complete =
      All-map
        (λ t m. elim (Bool-cases (is_word t)) [
          | inr g ↦ inl g
          | inl w ↦ elim (Bool-cases (ltb (length rs) 200)) [
            | inl few ↦ inr (inr (complete t (ground arith, ground arith) m (ground arith)))
            | inr full ↦ inr (inl (ground arith))
          ]
        ])
        (word_list items) (word_list-mentions items)

  -- The rules that are read from any value: at most 200, each with a word that is not empty and at most 80
  -- units long, no word twice; and unless there are 200, every such word of the list's items has its rule.
  pub clean_bad_word_rules-AreDistinct :
      (value : Json) (fallback : ModerationAction)
      → let rs = clean_bad_word_rules iso value fallback in
        (length rs ≤ 200)
        × All (λ r. IsWord r.word) rs
        × AreDistinct rs
        × All
            (λ t. (is_word t ≡ false) ⊎ (length rs ≡ 200) ⊎ (any (λ r. text_eq r.word t) rs ≡ true))
            (words_in value)
  unfolding clean_bad_word_rules includes
  clean_bad_word_rules-AreDistinct (arr items) fallback =
      let (l, words, apart) = clean_items_lem fallback 200 [] items in
      (
        l,
        All-map (λ r (w, i). w) (clean_items iso fallback 200 [] items) words,
        apart,
        words_kept fallback (clean_items iso fallback 200 [] items) items l
            (λ t w m few. clean_items_complete fallback 200 [] items t w refl m few),
      )
  clean_bad_word_rules-AreDistinct (obj fs) fallback = (omega arith, tt, tt, tt)
  clean_bad_word_rules-AreDistinct null fallback = (omega arith, tt, tt, tt)
  clean_bad_word_rules-AreDistinct (bool b) fallback = (omega arith, tt, tt, tt)
  clean_bad_word_rules-AreDistinct (num n) fallback = (omega arith, tt, tt, tt)
  clean_bad_word_rules-AreDistinct (str s) fallback = (omega arith, tt, tt, tt)
  clean_bad_word_rules-AreDistinct (date d) fallback = (omega arith, tt, tt, tt)
