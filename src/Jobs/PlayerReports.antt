-- ===== src/Jobs/PlayerReports.antt =====
-- control-plane/src/jobs/jobs.service.ts reconcilePlayers: what the game server's answer to `lp` says of each
-- player. An entity id and an address, which are only stored, are left out.
use mastermind_7dtd_ai_serve.Base.{ℕ, Bool, not, Option, none, some, List, [], ◌∷◌, ◌++◌, ◌==◌}
use mastermind_7dtd_ai_serve.Base.Text.{Text, lit, trim, split, is_space, is_digit, digits_from}
use mastermind_7dtd_ai_serve.JsonValues.{filled}
use mastermind_7dtd_ai_serve.Logs.Patterns.{◌>>=◌, after}
use mastermind_7dtd_ai_serve.Logs.Chat.{complete_lines}
use mastermind_7dtd_ai_serve.Logs.PlayerLines.{
  after_any_case, first_at, matches, span, skip_spaces, either, run_of, is_hex, key_from,
}

-- The rest after one or more units that pass a test.
unfoldable pub some_units : (ℕ → Bool) → Text → Option Text
some_units test s = do let (taken, rest) = span test s; taken' ← filled (some taken); some rest

-- `Total of\s+\d+\s+in the game`.
unfoldable pub total_at : Text → Option Text
total_at s = do
  a ← after_any_case (lit "Total of") s
  b ← some_units is_space a
  c ← some_units is_digit b
  d ← some_units is_space c
  after_any_case (lit "in the game") d

unfoldable pub is_player_list : Text → Bool
is_player_list output = matches total_at output

-- `([^,]+),` after `\s*`. Where nothing stands between the spaces and the comma, the expression takes one
-- of the spaces as the name.
abbrev listed_name : Text → Option Text
listed_name s = do
  let (spaces, rest) = span is_space s
  let (name, stop) = span (λ u. not (u == b',')) rest
  rest' ← after (lit ",") stop
  elim (filled (some name)) [
    | some n ↦ some n
    | none ↦ elim (filled (some spaces)) [ some t ↦ some (lit " ") | none ↦ none ]
  ]

-- The id and the name of a line `1. id=171, Name, ...`.
unfoldable pub head_of : Text → Option (Text × Text)
head_of line = do
  a ← some_units is_digit (skip_spaces line)
  b ← after (lit ".") a
  c ← some_units is_space b
  d ← after_any_case (lit "id=") c
  let (digits, e) = span is_digit d
  id ← filled (some digits)
  f ← after (lit ",") e
  name ← listed_name f
  some (id, name)

-- `(?:a|b)=prefix(run)`.
abbrev listed_id : Text → Text → Text → (ℕ → Bool) → ℕ → ℕ → Text → Option Text
listed_id a b prefix test least most s = do
  rest ← either (after_any_case a s) (after_any_case b s)
  value ← after (lit "=") rest
  id ← after_any_case prefix value
  run_of test least most id

-- `label\s*=\s*(\d+)`.
abbrev pub counter_at : Text → Text → Option ℕ
counter_at label s = do
  a ← after_any_case label s
  b ← after (lit "=") (skip_spaces a)
  run ← filled (some (span is_digit (skip_spaces b)).0)
  some (digits_from 0 run).0

abbrev number_or : ℕ → Option ℕ → ℕ
number_or default none = default
number_or default (some n) = n

-- A counter that has one of two labels at the leftmost place.
unfoldable pub counter_of : Text → Text → ℕ → Text → ℕ
counter_of a b default line =
    number_or default
      (first_at (λ s. elim (counter_at a s) [ some n ↦ some n | none ↦ counter_at b s ]) line)

unfoldable pub listed_steam : Text → Option Text
listed_steam = first_at (listed_id (lit "pltfmid") (lit "steamid") (lit "Steam_") is_digit 15 20)

unfoldable pub listed_eos : Text → Option Text
listed_eos = first_at (listed_id (lit "crossid") (lit "pltfmid") (lit "EOS_") is_hex 20 64)

pub record PlayerReport : Type 0 where
  pub key : Text
  pub name : Text
  pub steam : Option Text
  pub eos : Option Text
  pub zombie_kills : ℕ
  pub player_kills : ℕ
  pub deaths : ℕ
  pub level : ℕ

unfoldable pub reported : Text → Option PlayerReport
reported line = do
  head ← head_of line
  some (record {
    key = key_from (listed_steam line) (listed_eos line) (trim head.1);
    name = trim head.1;
    steam = listed_steam line;
    eos = listed_eos line;
    zombie_kills = counter_of (lit "zombies") (lit "zombiekills") 0 line;
    player_kills = counter_of (lit "players") (lit "playerkills") 0 line;
    deaths = counter_of (lit "deaths") (lit "deaths") 0 line;
    level = counter_of (lit "level") (lit "level") 1 line;
  })

-- `output.split(/\r?\n/)`.
abbrev pub report_lines : Text → List Text
report_lines output = let (whole, last) = complete_lines (split 10 output) in whole ++ last ∷ []
