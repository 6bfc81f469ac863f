-- ===== src/Cron.antt =====
-- control-plane/src/scheduler/cron-next.ts: the next run of a cron expression. Cron/ExecutionWindow has the window.
-- Local time is the host's: the operations of JavaScript's Date are the fields of a `Calendar`.
pub mod Fields
pub mod Search
pub mod Window
pub mod ExecutionWindow
use mathlib.Core.List.{reverse}
use mastermind_7dtd_ai_serve.Base.{
  ℕ, zero, suc, ◌+◌, ◌-◌, ◌*◌, ◌≤◌, ◌<◌, ◌≡◌, Bool, true, false, not, ◌&&◌, ◌||◌, Option, none,
  some, List, [], ◌∷◌, ◌++◌, ◌==◌, ltb, leb, if◌then◌else◌, any, length,
}
use mastermind_7dtd_ai_serve.Base.Text.{
  Text, lit, text_eq, trim, split, is_space, is_digit, digits_from,
}
use mastermind_7dtd_ai_serve.Base.Result.{Result, ok, err, ◌>>=◌, ◌>>◌, require}

-- A time value is a number of milliseconds since the epoch. The setters give the new time value.
pub record Calendar : Type 0 where
  -- `getMonth() + 1`, `getDate()`, `getDay()`, `getHours()`, `getMinutes()`.
  pub month : ℕ → ℕ
  pub date : ℕ → ℕ
  pub day : ℕ → ℕ
  pub hours : ℕ → ℕ
  pub minutes : ℕ → ℕ
  -- `setSeconds(0, 0)`, `setMinutes(n)`, `setDate(n)`, `setHours(h, m, 0, 0)`.
  pub clear_seconds : ℕ → ℕ
  pub set_minutes : ℕ → ℕ → ℕ
  pub set_date : ℕ → ℕ → ℕ
  pub set_hours : ℕ → ℕ → ℕ → ℕ

pub data CronError : Type 0 where
  expected_five_fields : CronError
  invalid_field : Text → CronError
  no_next_run : CronError

-- `s.match(/^\*\/(\d+)$/)`, with the number's value.
all_digits : Text → Bool
unfolding is_digit
all_digits [] = true
all_digits (c ∷ s) = is_digit c && all_digits s

step_digits : Text → Option ℕ
step_digits [] = none
step_digits (c ∷ s) = if all_digits (c ∷ s) then some (digits_from 0 (c ∷ s)).0 else none

unfoldable pub match_step : Text → Option ℕ
unfolding step_digits all_digits digits_from
match_step [] = none
match_step (a ∷ []) = none
match_step (a ∷ b ∷ s) = if a == b'*' && b == b'/' then step_digits s else none

-- `parseInt(s, 10)` of a trimmed text: `none` is NaN. A negative number is out of every range, so only
-- its being a number matters; minus zero is zero.
pub data Parsed : Type 0 where
  nan negative : Parsed
  natural : ℕ → Parsed

parse_digits : Text → Parsed
parse_digits [] = nan
parse_digits (c ∷ s) = if is_digit c then natural (digits_from 0 (c ∷ s)).0 else nan

negate : Parsed → Parsed
negate (natural zero) = natural 0
negate (natural (suc n)) = negative
negate p = p

unfoldable pub parse_int : Text → Parsed
unfolding parse_digits negate is_digit digits_from
parse_int [] = nan
parse_int (c ∷ s) =
    if c == b'-'
    then negate (parse_digits s)
    else if c == b'+'
    then parse_digits s
    else parse_digits (c ∷ s)

-- `for (let value = min; value <= max; value += amount) set.add(value)`, with the rounds left.
unfoldable pub steps : ℕ → ℕ → ℕ → ℕ → List ℕ
steps zero value top amount = []
steps (suc n) value top amount =
    let rest = value ∷ steps n (value + amount) top amount in if leb value top then rest else []

-- One comma-separated item: the values that it adds.
unfoldable pub parse_item : Text → Text → ℕ → ℕ → Result CronError (List ℕ)
parse_item field s low top = elim (match_step s) [
  | some amount ↦
      if ltb amount 1 || ltb (top - low + 1) amount
      then err (invalid_field field)
      else ok (steps (top - low + 1) low top amount)
  | none ↦ elim (parse_int (trim s)) [
    | natural n ↦ if ltb n low || ltb top n then err (invalid_field field) else ok (n ∷ [])
    | _ ↦ err (invalid_field field)
  ]
]

unfoldable pub parse_items : Text → List Text → ℕ → ℕ → Result CronError (List ℕ)
parse_items field [] low top = ok []
parse_items field (s ∷ ss) low top = do
  first ← parse_item field s low top
  rest ← parse_items field ss low top
  ok (first ++ rest)

-- A field's set of values; `none` is `*`.
unfoldable pub parse_set : Text → ℕ → ℕ → Result CronError (Option (List ℕ))
parse_set field low top =
    if text_eq field (lit "*")
    then ok none
    else parse_items field (split b',' field) low top >>= λ values. ok (some values)

-- `set && !set.has(value)` is the test that skips a minute.
unfoldable pub allows : Option (List ℕ) → ℕ → Bool
allows none value = true
allows (some values) value = any (λ x. x == value) values

pub record Cron : Type 0 where
  pub minutes : Option (List ℕ)
  pub hours : Option (List ℕ)
  pub doms : Option (List ℕ)
  pub months : Option (List ℕ)
  pub dows : Option (List ℕ)

-- `s.trim().split(/\s+/)`; of an empty text it has no part here and one empty part in JavaScript, and
-- five parts in neither.
flush : Text → List Text → List Text
flush [] rest = rest
flush (c ∷ s) rest = reverse (c ∷ s) ∷ rest

words_from : Text → Text → List Text
words_from cur [] = flush cur []
words_from cur (c ∷ s) =
    let closed = flush cur (words_from [] s) in
    let longer = words_from (c ∷ cur) s in if is_space c then closed else longer

unfoldable pub words : Text → List Text
unfolding words_from flush is_space
words s = words_from [] s

five_fields : List Text → Result CronError Cron
five_fields (minF ∷ hourF ∷ domF ∷ monthF ∷ dowF ∷ []) = do
  minutes ← parse_set minF 0 59
  hours ← parse_set hourF 0 23
  doms ← parse_set domF 1 31
  months ← parse_set monthF 1 12
  dows ← parse_set dowF 0 6
  ok (record { minutes = minutes; hours = hours; doms = doms; months = months; dows = dows })
five_fields _ = err expected_five_fields

unfoldable pub parse_cron : Text → Result CronError Cron
unfolding five_fields
parse_cron expression = five_fields (words (trim expression))

abbrev pub minute_ms : ℕ
minute_ms = 60000

-- `maxIter`.
abbrev pub max_minutes : ℕ
max_minutes = 366 * 24 * 60

found_or_throw : Option ℕ → Result CronError ℕ
found_or_throw none = err no_next_run
found_or_throw (some t) = ok t

module _ (cal : Calendar) where
  unfoldable pub matches : Cron → ℕ → Bool
  matches cron t =
      allows cron.months (cal.month t)
      && allows cron.doms (cal.date t)
      && allows cron.dows (cal.day t)
      && allows cron.hours (cal.hours t)
      && allows cron.minutes (cal.minutes t)

  -- The loop, with the rounds left.
  unfoldable pub search_from : ℕ → Cron → ℕ → Option ℕ
  search_from zero cron t = none
  search_from (suc n) cron t = elim (matches cron t) [
    | true ↦ some t
    | false ↦ search_from n cron (t + minute_ms)
  ]

  -- `t.setSeconds(0, 0); t.setMinutes(t.getMinutes() + 1)`.
  unfoldable pub first_candidate : ℕ → ℕ
  first_candidate from = let t = cal.clear_seconds from in cal.set_minutes t (cal.minutes t + 1)

  unfoldable pub get_next_cron_run : Text → ℕ → Result CronError ℕ
  unfolding found_or_throw
  get_next_cron_run expression from = do
    cron ← parse_cron expression
    found_or_throw (search_from max_minutes cron (first_candidate from))
