-- ===== src/Examples/Crons.antt =====
-- Every quarter of an hour, on a clock in UTC without seconds, and two execution windows.
use mastermind_7dtd_ai_serve.Base.{
  ℕ, ◌+◌, ◌-◌, ◌*◌, ◌/◌, ◌%◌, ◌≡◌, refl, ◌≤◌, ◌<◌, ◌⊎◌, none, some, [], ◌∷◌,
}
use mastermind_7dtd_ai_serve.Base.Text.{lit, text_eq, split, trim, digits_from, is_digit, is_space}
use mastermind_7dtd_ai_serve.Base.Result.{ok, err}
use mastermind_7dtd_ai_serve.Cron.{
  Calendar, no_next_run, Cron, parse_cron, words, parse_set, parse_items, parse_item, match_step,
  steps, get_next_cron_run,
}
use mastermind_7dtd_ai_serve.Cron.ExecutionWindow.{parse_time, clamp_to_execution_window, drop_part}
use mastermind_7dtd_ai_serve.Cron.Search.{IsFirst, Fits, minute_after, get_next_cron_run-IsFirst}
use mastermind_7dtd_ai_serve.Cron.Window.{
  in_minutes, minute_of_day, clamp_to_execution_window_cases,
}

-- One month of days that start at time 0.
abbrev pub utc : Calendar
utc = record {
  month = λ t. 1;
  date = λ t. t / 86400000 + 1;
  day = λ t. t / 86400000 % 7;
  hours = λ t. t / 3600000 % 24;
  minutes = λ t. t / 60000 % 60;
  clear_seconds = λ t. t / 60000 * 60000;
  set_minutes = λ t m. t / 3600000 * 3600000 + m * 60000;
  set_date = λ t d. (d - 1) * 86400000 + t % 86400000;
  set_hours = λ t h m. t / 86400000 * 86400000 + h * 3600000 + m * 60000;
}

abbrev quarters : Cron
quarters = record {
  minutes = some (0 ∷ 15 ∷ 30 ∷ 45 ∷ []);
  hours = none;
  doms = none;
  months = none;
  dows = none;
}

quarters_eq : parse_cron (lit "*/15 * * * *") ≡ ok quarters
unfolding parse_cron words lit trim is_space parse_set parse_items parse_item match_step steps
    text_eq split digits_from is_digit
quarters_eq = refl

get_next_cron_run-IsFirst_example :
    ((t : ℕ) × (get_next_cron_run utc (lit "*/15 * * * *") 60000 ≡ ok t)
      × IsFirst utc quarters (366 * 24 * 60) (minute_after utc 60000) t)
    ⊎ ((get_next_cron_run utc (lit "*/15 * * * *") 60000 ≡ err no_next_run)
        × ((k : ℕ)
            → k < 366 * 24 * 60
            → Fits utc quarters (minute_after utc 60000 + k * 60000)
            → ⊥))
get_next_cron_run-IsFirst_example =
    get_next_cron_run-IsFirst utc (lit "*/15 * * * *") 60000 quarters quarters_eq

time_facts : (parse_time (lit "09:00") ≡ some (9, 0)) × (parse_time (lit "17:30") ≡ some (17, 30))
unfolding parse_time lit trim is_space split digits_from is_digit drop_part
time_facts = (refl, refl)

clamp_to_execution_window_cases_example :
    let moved = clamp_to_execution_window utc 3600000 (some (lit "09:00")) (some (lit "17:30")) in
    let at = minute_of_day utc 3600000 in
    ((in_minutes (17, 30) < in_minutes (9, 0))
      × (moved ≡ some (utc.set_hours (utc.set_date 3600000 (utc.date 3600000 + 1)) 9 0)))
    ⊎ ((in_minutes (9, 0) ≤ at) × (at ≤ in_minutes (17, 30)) × (moved ≡ some 3600000))
    ⊎ ((in_minutes (9, 0) ≤ in_minutes (17, 30))
        × (at < in_minutes (9, 0))
        × (moved ≡ some (utc.set_hours 3600000 9 0)))
    ⊎ ((in_minutes (9, 0) ≤ in_minutes (17, 30))
        × (in_minutes (17, 30) < at)
        × (moved ≡ some (utc.set_hours (utc.set_date 3600000 (utc.date 3600000 + 1)) 9 0)))
unfolding lit
clamp_to_execution_window_cases_example =
    clamp_to_execution_window_cases utc 3600000 b'0' b'1' (lit "9:00") (lit "7:30") (9, 0) (17, 30)
      time_facts.0 time_facts.1
