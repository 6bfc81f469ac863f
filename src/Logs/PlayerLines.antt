-- ===== src/Logs/PlayerLines.antt =====
-- logs.service.ts parsePlayers: what a line of the log says of a player. The regular expressions ignore case,
-- and are matched leftmost, as JavaScript does.
use mastermind_7dtd_ai_serve.Base.{
  ℕ, Bool, false, not, ◌&&◌, ◌||◌, Option, none, some, [], ◌∷◌, ◌++◌, ◌==◌, leb, if◌then◌else◌,
  or_else, is_some, length, take, drop, any,
}
use mastermind_7dtd_ai_serve.Base.Text.{Text, lit, trim, to_lower, is_space, is_digit}
use mastermind_7dtd_ai_serve.JsonValues.{filled}
use mastermind_7dtd_ai_serve.Logs.Patterns.{◌>>=◌, after, quoted_from, is_terminator, is_word_unit}

-- The rest after a literal, in any case.
unfoldable pub after_any_case : Text → Text → Option Text
after_any_case literal s = elim (after (to_lower literal) (to_lower s)) [
  | none ↦ none
  | some r ↦ some (drop (length literal) s)
]

-- The first place, the end of the text included, at which a pattern matches.
unfoldable pub first_at : {A : Type 0} → (Text → Option A) → Text → Option A
first_at pattern [] = pattern []
first_at pattern (c ∷ s) =
    let later = first_at pattern s in elim (pattern (c ∷ s)) [ some a ↦ some a | none ↦ later ]

abbrev pub matches : {A : Type 0} → (Text → Option A) → Text → Bool
matches pattern s = is_some (first_at pattern s)

-- The longest start of units that pass a test, and the rest.
unfoldable pub span : (ℕ → Bool) → Text → Text × Text
span test [] = ([], [])
span test (c ∷ s) =
    let (more, rest) = span test s in if test c then (c ∷ more, rest) else ([], c ∷ s)

-- The part of a text that `.*` can take.
abbrev one_line_part : Text → Text
one_line_part s = (span (λ u. not (is_terminator u)) s).0

-- `GMSG: Player '.*' joined the game`, with what follows the name.
unfoldable pub announcement : Text → Text → Option Text
announcement ending s = do
  rest ← after_any_case (lit "GMSG: Player '") s
  first_at (after_any_case ending) (one_line_part rest)

abbrev pub skip_spaces : Text → Text
skip_spaces s = (span is_space s).1

abbrev at_boundary : Text → Option Text
at_boundary [] = some []
at_boundary (c ∷ s) = if is_word_unit c then none else some (c ∷ s)

abbrev pub either : Option Text → Option Text → Option Text
either none b = b
either (some a) b = some a

-- `PlayerSpawnedInWorld\s*\(reason:\s*(?:EnterMultiplayer|JoinMultiplayer)\b`.
unfoldable pub spawned : Text → Option Text
spawned s = do
  a ← after_any_case (lit "PlayerSpawnedInWorld") s
  b ← after_any_case (lit "(reason:") (skip_spaces a)
  c ←
      either (after_any_case (lit "EnterMultiplayer") (skip_spaces b))
        (after_any_case (lit "JoinMultiplayer") (skip_spaces b))
  at_boundary c

unfoldable pub is_joined : Text → Bool
is_joined line = matches (announcement (lit "' joined the game")) line || matches spawned line

unfoldable pub is_left : Text → Bool
is_left line =
    matches (after_any_case (lit "PlayerDisconnected")) line
    || matches (announcement (lit "' left")) line

-- `\s*=\s*'?`.
abbrev assigned : Text → Option Text
assigned s = do
  a ← after (lit "=") (skip_spaces s)
  let b = skip_spaces a
  some (elim (after (39 ∷ []) b) [ some c ↦ c | none ↦ b ])

-- From `least` to `most` units of a class, as many as there are.
unfoldable pub run_of : (ℕ → Bool) → ℕ → ℕ → Text → Option Text
run_of test least most s =
    let run = take most (span test s).0 in if leb least (length run) then some run else none

-- `(?:a|b)\s*=\s*'?prefix(run)`.
abbrev platform_id : Text → Text → Text → (ℕ → Bool) → ℕ → ℕ → Text → Option Text
platform_id a b prefix test least most s = do
  rest ← either (after_any_case a s) (after_any_case b s)
  value ← assigned rest
  id ← after_any_case prefix value
  run_of test least most id

abbrev plain_steam_at : Text → Option Text
plain_steam_at s = do
  rest ← after (lit "7656119") s
  run ← run_of is_digit 10 10 rest
  stop ← at_boundary (drop 10 rest)
  some (lit "7656119" ++ run)

-- `\b(7656119[0-9]{10})\b`, given whether the unit before is of a word.
unfoldable pub plain_steam : Bool → Text → Option Text
plain_steam inside [] = none
plain_steam inside (c ∷ s) =
    let later = plain_steam (is_word_unit c) s in
    elim (if inside then none else plain_steam_at (c ∷ s)) [ some m ↦ some m | none ↦ later ]

unfoldable pub steam_of : Text → Option Text
steam_of line =
    or_else
      (first_at (platform_id (lit "PltfmId") (lit "OwnerID") (lit "Steam_") is_digit 15 20) line)
      (plain_steam false line)

abbrev pub is_hex : ℕ → Bool
is_hex u = is_digit u || (leb b'a' u && leb u b'f') || (leb b'A' u && leb u b'F')

unfoldable pub eos_of : Text → Option Text
eos_of line = first_at (platform_id (lit "CrossId") (lit "PltfmId") (lit "EOS_") is_hex 20 64) line

abbrev is_name_unit : ℕ → Bool
is_name_unit u = not (u == 39 || u == 44 || u == 13 || u == 10)

-- `([^',\r\n]+)`. Where nothing of a name follows the spaces after the equals sign, the expression takes
-- one of the spaces as the name.
abbrev name_value : Text → Option Text
name_value s = do
  a ← after (lit "=") (skip_spaces s)
  let (spaces, b) = span is_space a
  let value = (span is_name_unit (elim (after (39 ∷ []) b) [ some c ↦ c | none ↦ b ])).0
  elim (filled (some value)) [
    | some v ↦ some v
    | none ↦ if any is_name_unit spaces then some (32 ∷ []) else none
  ]

unfoldable pub assigned_name : Text → Option Text
assigned_name s = do rest ← after_any_case (lit "PlayerName") s; name_value rest

unfoldable pub announced_name : Text → Option Text
announced_name s = do
  rest ← after_any_case (lit "GMSG: Player '") s
  name ← quoted_from [] rest
  some name.0

abbrev trimmed : Option Text → Option Text
trimmed none = none
trimmed (some s) = some (trim s)

unfoldable pub name_in : Text → Option Text
name_in line = trimmed (or_else (first_at assigned_name line) (first_at announced_name line))

abbrev pub key_from : Option Text → Option Text → Text → Text
key_from (some s) eos name = lit "steam:" ++ s
key_from none (some e) name = lit "eos:" ++ e
key_from none none name = lit "name:" ++ to_lower name

-- The player of a line, with a name: the identity's key, and the ids.
pub record PlayerLine : Type 0 where
  pub key : Text
  pub name : Text
  pub steam : Option Text
  pub eos : Option Text

unfoldable pub player_line : Text → Option PlayerLine
player_line line = do
  name ← filled (name_in line)
  some (record {
    key = key_from (steam_of line) (eos_of line) name;
    name = name;
    steam = steam_of line;
    eos = eos_of line;
  })
