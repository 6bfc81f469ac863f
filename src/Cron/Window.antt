-- ===== src/Cron/Window.antt =====
-- cron-next.ts `clampToExecutionWindow`: the day's window and the overnight window.
use native.Mathlib.Decide.{dec_lt}
use mastermind_7dtd_ai_serve.Base.{◌⊎◌, inl, inr, ℕ, ◌+◌, ◌*◌, ◌≤◌, ◌<◌, ◌≡◌, some, ◌∷◌, arith}
use mastermind_7dtd_ai_serve.Base.Text.{Text}
use mastermind_7dtd_ai_serve.Cron.{Calendar}
use mastermind_7dtd_ai_serve.Cron.ExecutionWindow.{
  parse_time, tomorrow, clamp_to_window, clamp_to_execution_window,
}

abbrev pub in_minutes : ℕ × ℕ → ℕ
in_minutes (h, m) = h * 60 + m

abbrev pub minute_of_day : Calendar → ℕ → ℕ
minute_of_day cal t = cal.hours t * 60 + cal.minutes t

-- For a window whose start is not after its end, with both texts parsed: a time of day in the window is
-- kept, one before it is moved to the start on the same day, and one after it to the start on the next
-- day.
clamp_to_execution_window_day :
    (cal : Calendar) (t a b : ℕ) (s e : Text) (start finish : ℕ × ℕ)
    → parse_time (a ∷ s) ≡ some start
    → parse_time (b ∷ e) ≡ some finish
    → in_minutes start ≤ in_minutes finish
    → ((in_minutes start ≤ minute_of_day cal t
          → minute_of_day cal t ≤ in_minutes finish
          → clamp_to_execution_window cal t (some (a ∷ s)) (some (b ∷ e)) ≡ some t)
        × (minute_of_day cal t < in_minutes start
            → clamp_to_execution_window cal t (some (a ∷ s)) (some (b ∷ e))
              ≡ some (cal.set_hours t start.0 start.1))
        × (in_minutes finish < minute_of_day cal t
            → clamp_to_execution_window cal t (some (a ∷ s)) (some (b ∷ e))
              ≡ some (tomorrow cal t start)))
unfolding clamp_to_execution_window clamp_to_window
clamp_to_execution_window_day cal t a b s e (sh, sm) (eh, em) hs he l =
    rw (hs, he) ((λ x y. ground (arith)), (λ x. ground (arith)), (λ x. ground (arith)))

-- For an overnight window, whose start is after its end, with both texts parsed, every time is moved to
-- the start on the next day, also a time of day that lies in the window.
clamp_to_execution_window_overnight :
    (cal : Calendar) (t a b : ℕ) (s e : Text) (start finish : ℕ × ℕ)
    → parse_time (a ∷ s) ≡ some start
    → parse_time (b ∷ e) ≡ some finish
    → in_minutes finish < in_minutes start
    → clamp_to_execution_window cal t (some (a ∷ s)) (some (b ∷ e)) ≡ some (tomorrow cal t start)
unfolding clamp_to_execution_window clamp_to_window
clamp_to_execution_window_overnight cal t a b s e (sh, sm) (eh, em) hs he l =
    rw (hs, he) (ground arith)

-- For a window with both texts parsed, by the time of day: if the start is not after the end, a time in the
-- window is kept, one before it is moved to the start on the same day, and one after it to the start on the
-- next day; if the start is after the end, every time is moved to the start on the next day, also a time in
-- the window.
pub clamp_to_execution_window_cases :
    (cal : Calendar) (t a b : ℕ) (s e : Text) (start finish : ℕ × ℕ)
    → parse_time (a ∷ s) ≡ some start
    → parse_time (b ∷ e) ≡ some finish
    → let moved = clamp_to_execution_window cal t (some (a ∷ s)) (some (b ∷ e)) in
      let at = minute_of_day cal t in
      ((in_minutes finish < in_minutes start)
        × (moved ≡ some (cal.set_hours (cal.set_date t (cal.date t + 1)) start.0 start.1)))
      ⊎ ((in_minutes start ≤ at) × (at ≤ in_minutes finish) × (moved ≡ some t))
      ⊎ ((in_minutes start ≤ in_minutes finish)
          × (at < in_minutes start)
          × (moved ≡ some (cal.set_hours t start.0 start.1)))
      ⊎ ((in_minutes start ≤ in_minutes finish)
          × (in_minutes finish < at)
          × (moved ≡ some (cal.set_hours (cal.set_date t (cal.date t + 1)) start.0 start.1)))
clamp_to_execution_window_cases cal t a b s e start finish hs he =
    elim (dec_lt (in_minutes finish) (in_minutes start)) [
      | yes p ↦ inl (p, clamp_to_execution_window_overnight cal t a b s e start finish hs he p)
      | no n ↦
          let l : in_minutes start ≤ in_minutes finish = omega arith in
          let (within, before, past) =
            clamp_to_execution_window_day cal t a b s e start finish hs he l in
          elim (dec_lt (minute_of_day cal t) (in_minutes start)) [
            | yes p ↦ inr (inr (inl (l, p, before p)))
            | no late ↦ elim (dec_lt (in_minutes finish) (minute_of_day cal t)) [
              | yes p ↦ inr (inr (inr (l, p, past p)))
              | no early ↦
                  let x : in_minutes start ≤ minute_of_day cal t = omega arith in
                  let y : minute_of_day cal t ≤ in_minutes finish = omega arith in
                  inr (inl (x, y, within x y))
            ]
          ]
    ]
