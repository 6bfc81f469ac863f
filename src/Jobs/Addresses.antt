-- ===== src/Jobs/Addresses.antt =====
-- control-plane/src/jobs/jobs.service.ts enforceConnectionTools: what a line says of a connection.
use mastermind_7dtd_ai_serve.Base.{
  ℕ, Bool, false, not, ◌&&◌, ◌||◌, Option, none, some, List, [], ◌∷◌, ◌++◌, ◌==◌, leb,
  if◌then◌else◌, length, any,
}
use mastermind_7dtd_ai_serve.Base.Text.{Text, lit, text_eq, to_lower, is_space}
use mastermind_7dtd_ai_serve.JsonValues.{decimal, filled}
use mastermind_7dtd_ai_serve.Players.{starts_with}
use mastermind_7dtd_ai_serve.Logs.Patterns.{◌>>=◌, after, is_word_unit}
use mastermind_7dtd_ai_serve.Logs.PlayerLines.{after_any_case, span, skip_spaces, either}
use mastermind_7dtd_ai_serve.Jobs.PlayerReports.{counter_at}

-- The first match that starts at a word boundary, given whether the unit before is of a word. The pattern
-- starts with a letter.
unfoldable pub first_word_at : {A : Type 0} → (Text → Option A) → Bool → Text → Option A
first_word_at pattern inside [] = none
first_word_at pattern inside (c ∷ s) =
    let later = first_word_at pattern (is_word_unit c) s in
    elim (if inside then none else pattern (c ∷ s)) [ some a ↦ some a | none ↦ later ]

-- `\bping\s*=\s*(\d+)`.
unfoldable pub ping_of : Text → Option ℕ
ping_of line = first_word_at (counter_at (lit "ping")) false line

-- `\[[^\]]+\]`.
abbrev bracketed : Text → Option Text
bracketed s = do
  a ← after (lit "[") s
  let (inner, b) = span (λ u. not (u == b']')) a
  inside ← filled (some inner)
  c ← after (lit "]") b
  some (lit "[" ++ inside ++ lit "]")

-- `\bip\s*=\s*(\[[^\]]+\]|[^,\s]+)` at its first unit.
abbrev address_at : Text → Option Text
address_at s = do
  a ← after_any_case (lit "ip") s
  b ← after (lit "=") (skip_spaces a)
  let c = skip_spaces b
  either (bracketed c) (filled (some (span (λ u. not (u == b',' || is_space u)) c).0))

unfoldable pub without_last_bracket : Text → Text
without_last_bracket [] = []
without_last_bracket (c ∷ []) = if c == b']' then [] else c ∷ []
without_last_bracket (c ∷ d ∷ s) = c ∷ without_last_bracket (d ∷ s)

-- `.replace(/^\[|\]$/g, '').split(':')[0]`.
unfoldable pub bare_address : Text → Text
bare_address s =
    let opened : Text = elim (after (lit "[") s) [ some r ↦ r | none ↦ s ] in
    (span (λ u. not (u == b':')) (without_last_bracket opened)).0

-- An address that is not empty.
unfoldable pub address_of : Text → Option Text
address_of line = do found ← first_word_at address_at false line; filled (some (bare_address found))

abbrev private_starts : List Text
private_starts = lit "10." ∷ lit "127." ∷ lit "192.168." ∷ lit "169.254." ∷ lit "fc" ∷ lit "fd" ∷ []

abbrev private_seconds : List ℕ
private_seconds = 16 ∷ 17 ∷ 18 ∷ 19 ∷ 20 ∷ 21 ∷ 22 ∷ 23 ∷ 24 ∷ 25 ∷ 26 ∷ 27 ∷ 28 ∷ 29 ∷ 30 ∷ 31 ∷ []

unfoldable pub is_private_address : Text → Bool
is_private_address ip =
    let s = to_lower ip in
    any (starts_with s) private_starts
    || any (λ n. starts_with s (lit "172." ++ decimal n ++ lit ".")) private_seconds
    || text_eq s (lit "::1")

-- `/^[A-Z]{2}$/`.
unfoldable pub is_country_code : Text → Bool
is_country_code s = length s == 2 && not (any (λ u. not (leb b'A' u && leb u b'Z')) s)
