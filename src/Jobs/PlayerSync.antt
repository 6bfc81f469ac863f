-- ===== src/Jobs/PlayerSync.antt =====
-- control-plane/src/jobs/jobs.service.ts reconcilePlayers: the players' rows after a PLAYER_LIST_SYNC job.
use mastermind_7dtd_ai_serve.Base.{
  ℕ, suc, ◌+◌, Bool, true, false, not, ◌&&◌, Option, none, some, List, [], ◌∷◌, ◌++◌, ◌==◌, ltb,
  if◌then◌else◌, or_else, is_some, find_first, select, update_where,
}
use mastermind_7dtd_ai_serve.Base.Text.{Text, lit, includes}
use mastermind_7dtd_ai_serve.Schema.{ServerInstance}
use mastermind_7dtd_ai_serve.Players.{Player, Roster, find_player, reconcile_name_fallback}
use mastermind_7dtd_ai_serve.Alerts.{player_disconnected, Outside}
use mastermind_7dtd_ai_serve.Logs.{LogBook, clock}
use mastermind_7dtd_ai_serve.Logs.Arrivals.{
  player_context, is_online, session_start, open_session, session_seconds, alert,
}
use mastermind_7dtd_ai_serve.Jobs.PlayerReports.{
  PlayerReport, reported, is_player_list, report_lines,
}

abbrev listed_player : ℕ → ℕ → ℕ → PlayerReport → Player
listed_player id i now l = record {
  id = id;
  instance_id = i;
  identity_key = l.key;
  steam_id = l.steam;
  eos_id = l.eos;
  name = l.name;
  online = true;
  current_session_started_at = some now;
  lifetime_seconds = 0;
  zombie_kills = l.zombie_kills;
  player_kills = l.player_kills;
  deaths = l.deaths;
  level = l.level;
  first_seen_at = now;
  last_seen_at = now;
}

abbrev seen_player : ℕ → PlayerReport → Player → Player
seen_player now l p = record p {
  steam_id = or_else l.steam p.steam_id;
  eos_id = or_else l.eos p.eos_id;
  name = l.name;
  online = true;
  last_seen_at = now;
  zombie_kills = l.zombie_kills;
  player_kills = l.player_kills;
  deaths = l.deaths;
  level = l.level;
  current_session_started_at = session_start p.online now p.current_session_started_at;
}

abbrev upsert_listed : Option Player → ℕ → ℕ → ℕ → PlayerReport → Roster → ℕ × Roster
upsert_listed none id i now l r =
    (id, record r { players = r.players ++ listed_player id i now l ∷ [] })
upsert_listed (some p) id i now l r =
    (p.id, record r { players = update_where (λ x. x.id == p.id) (seen_player now l) r.players })

unfoldable pub note_report : ℕ → ℕ → PlayerReport → LogBook → LogBook
note_report now i l w =
    let joined = reconcile_name_fallback i l.key l.name l.steam l.eos w.roster in
    let existing = find_player i l.key joined.players in
    let (id, roster) = upsert_listed existing w.next_id i now l joined in
    let w1 : LogBook = record w { roster = roster; next_id = suc w.next_id } in
    elim (is_online existing) [
      | true ↦ w1
      | false ↦ record w1 {
        roster = open_session w1.next_id id now roster;
        next_id = suc w1.next_id;
      }
    ]

-- The loop over the lines: the keys that were seen, and the state.
unfoldable pub note_reports : ℕ → ℕ → List Text → List Text → LogBook → List Text × LogBook
note_reports now i [] seen w = (seen, w)
note_reports now i (line ∷ lines) seen w = elim (reported line) [
  | none ↦ note_reports now i lines seen w
  | some l ↦ note_reports now i lines (seen ++ l.key ∷ []) (note_report now i l w)
]

abbrev pub is_missing : ℕ → List Text → Player → Bool
is_missing i seen x = x.instance_id == i && x.online && not (includes seen x.identity_key)

-- The end of a missing player's session.
abbrev session_end : ℕ → Player → ℕ
session_end now x = if ltb x.last_seen_at now then x.last_seen_at else now

abbrev pub end_sessions : ℕ → ℕ → Player → Roster → Roster
end_sessions end' seconds p r = record r {
  players =
      update_where (λ x. x.id == p.id)
        (λ x. record x {
          online = false;
          current_session_started_at = none;
          lifetime_seconds = x.lifetime_seconds + seconds;
        })
        r.players;
  sessions =
      update_where (λ s. s.player_id == p.id && not (is_some s.ended_at))
        (λ s. record s { ended_at = some end'; duration_seconds = some seconds }) r.sessions;
}

abbrev pub name_or_game : Option ServerInstance → Text
name_or_game none = lit "7DTD Server"
name_or_game (some s) = s.name

module _ (p : Outside) where
  unfoldable pub end_missing : ℕ → ℕ → ℕ → Text → List Player → LogBook → LogBook
  end_missing now org i instance_name [] w = w
  end_missing now org i instance_name (x ∷ xs) w =
      let end' = session_end now x in
      let seconds = session_seconds end' x.current_session_started_at in
      end_missing now org i instance_name xs (
        alert p player_disconnected
          (player_context org i instance_name x.name x.steam_id x.eos_id (some seconds))
          (record w { roster = end_sessions end' seconds x w.roster }))

  unfoldable pub reconcile_players : ℕ → ℕ → Text → LogBook → LogBook
  reconcile_players org i output w =
      if is_player_list output
      then (let now = clock w in
          let (seen, noted) = note_reports now i (report_lines output) [] w in
          end_missing now org i (name_or_game (find_first (λ s. s.id == i) w.world.instances))
            (select (is_missing i seen) noted.roster.players) noted)
      else w
