-- ===== src/Cron/ExecutionWindow.antt =====
-- control-plane/src/scheduler/cron-next.ts: clampToExecutionWindow.
use mastermind_7dtd_ai_serve.Base.{
  ℕ, ◌+◌, ◌*◌, Bool, true, false, ◌&&◌, Option, none, some, List, [], ◌∷◌, ltb, leb, if◌then◌else◌,
}
use mastermind_7dtd_ai_serve.Base.Text.{Text, trim, split, digits_from}
use mastermind_7dtd_ai_serve.Cron.{Calendar, all_digits}

-- `Number(part)` of an unsigned decimal or empty part; `none` is NaN.
number_of : Text → Option ℕ
number_of [] = some 0
number_of (c ∷ s) = if all_digits (c ∷ s) then some (digits_from 0 (c ∷ s)).0 else none

part_number : List Text → Option ℕ
part_number [] = none
part_number (s ∷ ss) = number_of (trim s)

unfoldable pub drop_part : List Text → List Text
drop_part [] = []
drop_part (s ∷ ss) = ss

both : Option ℕ → Option ℕ → Option (ℕ × ℕ)
both none m = none
both (some h) none = none
both (some h) (some m) = some (h, m)

-- `const [h, m] = text.split(':').map(Number)`; `none` where either is NaN or missing.
unfoldable pub parse_time : Text → Option (ℕ × ℕ)
unfolding part_number number_of all_digits digits_from drop_part both
parse_time s = both (part_number (split b':' s)) (part_number (drop_part (split b':' s)))

abbrev pub is_blank : Option Text → Bool
is_blank none = true
is_blank (some []) = true
is_blank (some (c ∷ s)) = false

-- The window's start on the day after `t`.
abbrev pub tomorrow : Calendar → ℕ → ℕ × ℕ → ℕ
tomorrow cal t (sh, sm) = cal.set_hours (cal.set_date t (cal.date t + 1)) sh sm

-- The clamp with both times of the window parsed.
unfoldable pub clamp_to_window : Calendar → ℕ → ℕ × ℕ → ℕ × ℕ → ℕ
clamp_to_window cal t (sh, sm) (eh, em) =
    let now_mins = cal.hours t * 60 + cal.minutes t in
    let start_mins = sh * 60 + sm in
    let end_mins = eh * 60 + em in
    if leb start_mins end_mins
    then if leb start_mins now_mins && leb now_mins end_mins
      then t
      else if ltb now_mins start_mins
      then cal.set_hours t sh sm
      else tomorrow cal t (sh, sm)
    else tomorrow cal t (sh, sm)

abbrev clamp_parsed : Calendar → ℕ → Option (ℕ × ℕ) → Option (ℕ × ℕ) → Option ℕ
clamp_parsed cal t (some s) (some e) = some (clamp_to_window cal t s e)
clamp_parsed cal t (some s) none = some (tomorrow cal t s)
clamp_parsed cal t none e = none

-- `none` is an invalid date, which a malformed start leads to. A malformed end makes every comparison
-- with NaN false.
unfoldable pub clamp_to_execution_window : Calendar → ℕ → Option Text → Option Text → Option ℕ
clamp_to_execution_window cal t (some (a ∷ s)) (some (b ∷ e)) =
    clamp_parsed cal t (parse_time (a ∷ s)) (parse_time (b ∷ e))
clamp_to_execution_window cal t _ _ = some t
