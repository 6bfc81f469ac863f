-- ===== src/Logs/Arrivals.antt =====
-- logs.service.ts: parsePlayers. A player's entity id and organisation, which are only stored, are left out.
use mastermind_7dtd_ai_serve.Base.{
  ℕ, suc, ◌+◌, ◌-◌, ◌/◌, Bool, true, false, not, ◌&&◌, ◌||◌, Option, none, some, List, [], ◌∷◌,
  ◌++◌, ◌==◌, or_else, is_some, update_where,
}
use mastermind_7dtd_ai_serve.Base.Text.{Text, split}
use mastermind_7dtd_ai_serve.Players.{Player, Roster, find_player, reconcile_name_fallback}
use mastermind_7dtd_ai_serve.Alerts.{
  AlertType, player_connected, player_disconnected, AlertContext, Outside,
}
use mastermind_7dtd_ai_serve.Alerts.Send.{send_matching_rules}
use mastermind_7dtd_ai_serve.Logs.{LogBook, clock, tail_text, find_tail, set_tail}
use mastermind_7dtd_ai_serve.Logs.Search.{last_units}
use mastermind_7dtd_ai_serve.Logs.Chat.{complete_lines}
use mastermind_7dtd_ai_serve.Logs.PlayerLines.{PlayerLine, is_joined, is_left, player_line}

abbrev pub player_context :
    ℕ → ℕ → Text → Text → Option Text → Option Text → Option ℕ → AlertContext
player_context org i instance_name name steam eos seconds = record {
  org_id = org;
  org_name = none;
  server_instance_id = some i;
  server_instance_name = some instance_name;
  host_id = none;
  host_name = none;
  last_heartbeat_at = none;
  reason = none;
  frigate_camera = none;
  frigate_label = none;
  frigate_score = none;
  player_name = some name;
  steam_id = steam;
  eos_id = eos;
  session_seconds = seconds;
}

abbrev pub is_online : Option Player → Bool
is_online none = false
is_online (some p) = p.online

-- The `upsert` of a player who comes.
abbrev new_player : ℕ → ℕ → ℕ → PlayerLine → Player
new_player id i now l = record {
  id = id;
  instance_id = i;
  identity_key = l.key;
  steam_id = l.steam;
  eos_id = l.eos;
  name = l.name;
  online = true;
  current_session_started_at = some now;
  lifetime_seconds = 0;
  zombie_kills = 0;
  player_kills = 0;
  deaths = 0;
  level = 1;
  first_seen_at = now;
  last_seen_at = now;
}

abbrev pub session_start : Bool → ℕ → Option ℕ → Option ℕ
session_start true now start = start
session_start false now start = some now

abbrev returned_player : ℕ → PlayerLine → Player → Player
returned_player now l p = record p {
  steam_id = or_else l.steam p.steam_id;
  eos_id = or_else l.eos p.eos_id;
  name = l.name;
  online = true;
  last_seen_at = now;
  current_session_started_at = session_start p.online now p.current_session_started_at;
}

-- The row's id, and the roster with it.
abbrev upsert_player : Option Player → ℕ → ℕ → ℕ → PlayerLine → Roster → ℕ × Roster
upsert_player none id i now l r =
    (id, record r { players = r.players ++ new_player id i now l ∷ [] })
upsert_player (some p) id i now l r = (
  p.id,
  record r { players = update_where (λ x. x.id == p.id) (returned_player now l) r.players },
)

abbrev pub open_session : ℕ → ℕ → ℕ → Roster → Roster
open_session id player now r = record r {
  sessions =
      r.sessions
      ++ record {
        id = id;
        player_id = player;
        started_at = now;
        ended_at = none;
        duration_seconds = none;
      }
        ∷ [];
}

-- `Math.max(0, Math.floor((now - started) / 1000))`.
abbrev pub session_seconds : ℕ → Option ℕ → ℕ
session_seconds now none = 0
session_seconds now (some started) = (now - started) / 1000

unfoldable pub close_sessions : ℕ → ℕ → Player → Roster → Roster
close_sessions now seconds p r = record r {
  players =
      update_where (λ x. x.id == p.id)
        (λ x. record x {
          online = false;
          last_seen_at = now;
          current_session_started_at = none;
          lifetime_seconds = x.lifetime_seconds + seconds;
        })
        r.players;
  sessions =
      update_where (λ s. s.player_id == p.id && not (is_some s.ended_at))
        (λ s. record s { ended_at = some now; duration_seconds = some seconds }) r.sessions;
}

module _ (p : Outside) where
  abbrev pub alert : AlertType → AlertContext → LogBook → LogBook
  alert t c w = record w { board = send_matching_rules p t c w.board }

  unfoldable pub player_came : Option Player → ℕ → ℕ → Text → PlayerLine → LogBook → LogBook
  player_came existing org i instance_name l w =
      let (id, roster) = upsert_player existing w.next_id i (clock w) l w.roster in
      let w1 : LogBook = record w { roster = roster; next_id = suc w.next_id } in
      elim (is_online existing) [
        | true ↦ w1
        | false ↦
            alert player_connected (player_context org i instance_name l.name l.steam l.eos none)
              (record w1 {
                roster = open_session w1.next_id id (clock w) roster;
                next_id = suc w1.next_id;
              })
      ]

  abbrev player_went : Option Player → ℕ → ℕ → Text → PlayerLine → LogBook → LogBook
  player_went none org i instance_name l w = w
  player_went (some x) org i instance_name l w =
      let seconds = session_seconds (clock w) x.current_session_started_at in
      elim x.online [
        | true ↦
            alert player_disconnected
              (player_context org i instance_name l.name (or_else l.steam x.steam_id)
                (or_else l.eos x.eos_id) (some seconds))
              (record w { roster = close_sessions (clock w) seconds x w.roster })
        | false ↦ w
      ]

  abbrev note_player : Option PlayerLine → Bool → ℕ → ℕ → Text → LogBook → LogBook
  note_player none joined org i instance_name w = w
  note_player (some l) joined org i instance_name w =
      let w1 : LogBook = record w {
        roster = reconcile_name_fallback i l.key l.name l.steam l.eos w.roster;
      } in
      let existing = find_player i l.key w1.roster.players in
      elim joined [
        | true ↦ player_came existing org i instance_name l w1
        | false ↦ player_went existing org i instance_name l w1
      ]

  unfoldable pub note_lines : List Text → ℕ → ℕ → Text → LogBook → LogBook
  note_lines [] org i instance_name w = w
  note_lines (line ∷ lines) org i instance_name w =
      note_lines lines org i instance_name (elim (is_joined line || is_left line) [
        | true ↦ note_player (player_line line) (is_joined line) org i instance_name w
        | false ↦ w
      ])

  unfoldable pub parse_players : ℕ → ℕ → Text → Text → LogBook → LogBook
  parse_players org i instance_name content w =
      let (lines, open') =
        complete_lines (split 10 (tail_text (find_tail i w.line_buffers) ++ content)) in
      note_lines lines org i instance_name
        (record w { line_buffers = set_tail i (last_units 4096 open') w.line_buffers })
