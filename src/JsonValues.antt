-- ===== src/JsonValues.antt =====
-- What the services read from JSON values of any shape: JavaScript's property access, truthiness and
-- `String(value)`, and decimal numerals.
use mastermind_7dtd_ai_serve.Base.{
  ℕ, zero, suc, ◌+◌, ◌/◌, ◌%◌, Bool, true, false, Option, none, some, [], ◌∷◌, ◌++◌, ◌==◌, ltb,
  if◌then◌else◌,
}
use mastermind_7dtd_ai_serve.Base.Text.{Text, lit, text_eq}
use mastermind_7dtd_ai_serve.Schema.{
  Json, null, bool, num, str, date, arr, obj, Items, nil, cons, get_field,
}

-- The digits of `n` before `tail`. A round divides by ten, so `n` + 1 rounds are enough.
digits_before : ℕ → ℕ → Text → Text
digits_before zero n tail = tail
digits_before (suc fuel) n tail =
    let more = digits_before fuel (n / 10) ((48 + n % 10) ∷ tail) in
    if ltb n 10 then (48 + n) ∷ tail else more

-- `String(n)` of a natural number, and how an id is written.
unfoldable pub decimal : ℕ → Text
unfolding digits_before
decimal n = digits_before (suc n) n []

-- `value?.k`, with `null` read as `undefined`, as `??` and the truthiness tests that follow do.
abbrev defined : Option Json → Option Json
defined (some null) = none
defined v = v

unfoldable pub property : Text → Json → Option Json
property k (obj fs) = defined (get_field k fs)
property k v = none

-- `value === 'text'`.
unfoldable pub json_is : Text → Option Json → Bool
json_is t (some (str s)) = text_eq s t
json_is t v = false

-- `value === id`, for an id.
unfoldable pub json_is_id : ℕ → Option Json → Bool
json_is_id i (some (num n)) = n == i
json_is_id i v = false

-- Truthiness. Ids, which `num` writes here, are texts that are not empty.
unfoldable pub is_truthy : Option Json → Bool
is_truthy none = false
is_truthy (some null) = false
is_truthy (some (bool b)) = b
is_truthy (some (str [])) = false
is_truthy (some v) = true

-- `a || b` on optional texts: the empty text is falsy.
abbrev pub text_or_else : Option Text → Option Text → Option Text
text_or_else (some (c ∷ s)) b = some (c ∷ s)
text_or_else a b = b

abbrev pub filled : Option Text → Option Text
filled (some (c ∷ s)) = some (c ∷ s)
filled a = none

-- An item of `list.join(',')`: `null` is the empty text.
abbrev joined : Json → Text → Text
joined null s = []
joined j s = s

-- `iso` writes a date.
module _ (iso : ℕ → Text) where
  unfoldable mutual
    -- `String(value)`.
    pub json_string : Json → Text
    json_string null = lit "null"
    json_string (bool true) = lit "true"
    json_string (bool false) = lit "false"
    json_string (num n) = decimal n
    json_string (str s) = s
    json_string (date t) = iso t
    json_string (arr js) = items_string js
    json_string (obj fs) = lit "[object Object]"

    -- `list.join(',')`.
    pub items_string : Items → Text
    items_string nil = []
    items_string (cons j js) = joined j (json_string j) ++ rest_string js

    pub rest_string : Items → Text
    rest_string nil = []
    rest_string (cons j js) = lit "," ++ joined j (json_string j) ++ rest_string js

  -- `String(value ?? fallback)`.
  unfoldable pub string_or : Option Json → Text → Text
  string_or none fallback = fallback
  string_or (some j) fallback = json_string j
