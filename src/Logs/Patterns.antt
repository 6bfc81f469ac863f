-- ===== src/Logs/Patterns.antt =====
-- logs.service.ts: the regular expressions for lines of chat. They are matched as JavaScript does: leftmost,
-- and greedy where a part can end in several places.
use mastermind_7dtd_ai_serve.Base.{
  ℕ, ◌+◌, Bool, true, false, ◌&&◌, ◌||◌, Option, none, some, [], ◌∷◌, ◌++◌, ◌==◌, leb,
  if◌then◌else◌, is_some, length, take, drop, any,
}
use mastermind_7dtd_ai_serve.Base.Text.{Text, lit, is_digit}
use mastermind_7dtd_ai_serve.JsonValues.{filled}
use mastermind_7dtd_ai_serve.Players.{starts_with}
use mastermind_7dtd_ai_serve.Logs.Search.{last_index_of}

infixl 5 ◌>>=◌
abbrev pub ◌>>=◌ : {A B : Type 0} → Option A → (A → Option B) → Option B
none >>= rest = none
some a >>= rest = rest a

-- The rest after a literal.
unfoldable pub after : Text → Text → Option Text
after literal s = if starts_with s literal then some (drop (length literal) s) else none

-- `([^']+)'`: the units before the next quote, at least one, and the rest after the quote.
unfoldable pub quoted_from : Text → Text → Option (Text × Text)
quoted_from taken [] = none
quoted_from taken (c ∷ s) =
    let more = quoted_from (taken ++ c ∷ []) s in
    if c == 39 then (if is_some (filled (some taken)) then some (taken, s) else none) else more

abbrev pub is_terminator : ℕ → Bool
is_terminator u = u == 10 || u == 13 || u == 8232 || u == 8233

-- `(.*)$` takes the rest if it is one line.
unfoldable pub one_line : Text → Option Text
one_line s = if any is_terminator s then none else some s

-- What a line of chat says: `from`, `entity id`, `to`, the player's name and the message.
pub record ChatMatch : Type 0 where
  pub player_id : Text
  pub entity_id : Text
  pub channel : Text
  pub name : Text
  pub message : Text

-- `'(.*)': (.*)$` after its first quote: the last place where `': ` stands ends the name.
unfoldable pub name_and_message : Text → Option (Text × Text)
name_and_message s = do
  line ← one_line s
  at ← last_index_of (39 ∷ 58 ∷ 32 ∷ []) line
  some (take at line, drop (at + 3) line)

unfoldable pub player_chat_at : Text → Option ChatMatch
player_chat_at s = do
  a ← after (lit "Chat (from '") s
  from ← quoted_from [] a
  b ← after (lit ", entity id '") from.1
  entity ← quoted_from [] b
  c ← after (lit ", to '") entity.1
  to ← quoted_from [] c
  d ← after (lit "): '") to.1
  said ← name_and_message d
  some (record {
    player_id = from.0;
    entity_id = entity.0;
    channel = to.0;
    name = said.0;
    message = said.1;
  })

unfoldable pub server_chat_at : Text → Option ChatMatch
server_chat_at s = do
  a ← after (lit "Chat (from '-non-player-', entity id '-1', to '") s
  to ← quoted_from [] a
  b ← after (lit "): ") to.1
  line ← one_line b
  some (record {
    player_id = lit "-non-player-";
    entity_id = lit "-1";
    channel = to.0;
    name = lit "Server";
    message = line;
  })

abbrev pub is_word_unit : ℕ → Bool
is_word_unit u = (leb b'A' u && leb u b'Z') || (leb b'a' u && leb u b'z') || is_digit u || u == b'_'

-- The leftmost match at a word boundary, given whether the unit before is of a word. The pattern starts
-- with a letter.
unfoldable pub search_from : (Text → Option ChatMatch) → Bool → Text → Option ChatMatch
search_from pattern inside [] = none
search_from pattern inside (c ∷ s) =
    let later = search_from pattern (is_word_unit c) s in
    elim (if inside then none else pattern (c ∷ s)) [ some m ↦ some m | none ↦ later ]

-- The match of a line, and whether it is the server's.
abbrev chat_from : Option ChatMatch → Option ChatMatch → Option (Bool × ChatMatch)
chat_from (some m) player = some (true, m)
chat_from none (some m) = some (false, m)
chat_from none none = none

unfoldable pub match_chat : Text → Option (Bool × ChatMatch)
match_chat line =
    chat_from (search_from server_chat_at false line) (search_from player_chat_at false line)
