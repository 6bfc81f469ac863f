-- ===== src/Logs/Chat.antt =====
-- logs.service.ts: parseChat.
use mastermind_7dtd_ai_serve.Base.{
  ℕ, ◌+◌, Bool, true, false, not, ◌&&◌, ◌||◌, Option, none, some, List, [], ◌∷◌, ◌++◌, ◌==◌, leb,
  if◌then◌else◌, is_some, length, take, any, select,
}
use mastermind_7dtd_ai_serve.Base.Text.{Text, lit, text_eq, trim, split, is_space}
use mastermind_7dtd_ai_serve.Schema.{num, str, Fields, end, field, get_field}
use mastermind_7dtd_ai_serve.Fleet.{text_field}
use mastermind_7dtd_ai_serve.JsonValues.{json_is, filled}
use mastermind_7dtd_ai_serve.Alerts.{Outside}
use mastermind_7dtd_ai_serve.Alerts.Relay.{ChatLine, RelayResult, relay_sent, relay_player_chat}
use mastermind_7dtd_ai_serve.Logs.{LogBook, tail_text, find_tail, set_tail, add_event}
use mastermind_7dtd_ai_serve.Logs.Search.{last_index_of, last_units}
use mastermind_7dtd_ai_serve.Logs.Patterns.{ChatMatch, match_chat}
use mastermind_7dtd_ai_serve.Logs.Sanctions.{moderate_chat}
use mastermind_7dtd_ai_serve.Logs.Relays.{pending_type}

-- The control characters that are taken out of a message.
abbrev is_control : ℕ → Bool
is_control u = leb u 8 || u == 11 || u == 12 || (leb 14 u && leb u 31) || u == 127

unfoldable pub clean_message : Text → Text
clean_message s = take 2000 (trim (select (λ u. not (is_control u)) s))

-- `/^(\S+)/`, or the empty text.
unfoldable pub first_word : Text → Text
first_word [] = []
first_word (c ∷ s) = let rest = first_word s in if is_space c then [] else c ∷ rest

abbrev without_return : Text → Text
without_return s = elim (last_index_of (13 ∷ []) s) [
  | some i ↦ if i + 1 == length s then take i s else s
  | none ↦ s
]

-- `text.split(/\r?\n/)`: the complete lines and the last, open one.
unfoldable pub complete_lines : List Text → List Text × Text
complete_lines [] = ([], [])
complete_lines (l ∷ []) = ([], l)
complete_lines (l ∷ m ∷ ls) =
    let (whole, open') = complete_lines (m ∷ ls) in (without_return l ∷ whole, open')

abbrev chat_payload : ChatMatch → Text → Text → Text → Text → Fields
chat_payload m name message instance_name stamp = field (lit "playerId") (str m.player_id) (
    field (lit "entityId") (str m.entity_id) (
      field (lit "playerName") (str name) (
        field (lit "channel") (str m.channel) (
          field (lit "message") (str message) (
            field (lit "serverInstanceName") (str instance_name)
              (field (lit "logTimestamp") (str stamp) end))))))

-- An event of this chat line is there already.
unfoldable pub is_duplicate : ℕ → ℕ → Text → LogBook → Bool
is_duplicate org i stamp w =
    is_some (filled (some stamp))
    && any
        (λ e.
          e.org_id == org
          && e.source_id == i
          && text_eq e.event_type (lit "player_chat")
          && json_is stamp (get_field (lit "logTimestamp") e.payload))
        w.events

module _ (p : Outside) where
  abbrev note_pending : RelayResult → ChatLine → LogBook → LogBook
  note_pending r c w = elim (r.configured && not (relay_sent r)) [
    | false ↦ w
    | true ↦
        add_event c.org_id c.server_instance_id pending_type
          (field (lit "eventId") (num c.event_id) (
            field (lit "orgId") (num c.org_id) (
              field (lit "serverInstanceId") (num c.server_instance_id) (
                field (lit "serverInstanceName") (str c.server_instance_name) (
                  field (lit "playerName") (str c.player_name) (
                    field (lit "playerId") (str c.player_id) (
                      field (lit "channel") (str c.channel) (
                        field (lit "message") (str c.message)
                          (text_field (lit "lastError") r.error end)))))))))
          w
  ]

  unfoldable pub relay_line : ChatLine → LogBook → LogBook
  relay_line c w =
      let (result, board) = relay_player_chat p c w.board in
      note_pending result c (record w { board = board })

  -- A player's line, after its event is stored: moderation, and the relay unless that acted on it.
  unfoldable pub handle_player_line : ChatLine → LogBook → LogBook
  handle_player_line c w =
      let (moderated, w1) =
        moderate_chat p.iso c.org_id c.server_instance_id
          (record { player_id = c.player_id; player_name = c.player_name; text = c.message }) w in
      elim moderated [ true ↦ w1 | false ↦ relay_line c w1 ]

  unfoldable pub store_chat :
      Bool → ChatMatch → Text → Text → Text → ℕ → ℕ → Text → LogBook → LogBook
  store_chat is_server m name message stamp org i instance_name w =
      let w1 =
        add_event org i (lit "player_chat") (chat_payload m name message instance_name stamp) w in
      elim is_server [
        | true ↦ w1
        | false ↦
            handle_player_line
              (record {
                event_id = w.next_id;
                org_id = org;
                server_instance_id = i;
                server_instance_name = instance_name;
                player_name = name;
                player_id = m.player_id;
                channel = m.channel;
                message = message;
              })
              w1
      ]

  abbrev handle_match : Option (Bool × ChatMatch) → Text → ℕ → ℕ → Text → LogBook → LogBook
  handle_match none line org i instance_name w = w
  handle_match (some v) line org i instance_name w =
      let (is_server, m) = v in
      let name = take 128 (trim m.name) in
      let message = clean_message m.message in
      let stamp = first_word line in
      elim (is_some (filled (some name))
        && is_some (filled (some message))
        && not (is_duplicate org i stamp w)) [
          | true ↦ store_chat is_server m name message stamp org i instance_name w
          | false ↦ w
        ]

  unfoldable pub handle_lines : List Text → ℕ → ℕ → Text → LogBook → LogBook
  handle_lines [] org i instance_name w = w
  handle_lines (line ∷ lines) org i instance_name w =
      handle_lines lines org i instance_name
        (handle_match (match_chat line) line org i instance_name w)

  unfoldable pub parse_chat : ℕ → ℕ → Text → Text → LogBook → LogBook
  parse_chat org i instance_name content w =
      let (lines, open') =
        complete_lines (split 10 (tail_text (find_tail i w.chat_line_buffers) ++ content)) in
      handle_lines lines org i instance_name
        (record w { chat_line_buffers = set_tail i (last_units 4096 open') w.chat_line_buffers })
