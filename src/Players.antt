-- ===== src/Players.antt =====
-- control-plane/src/players/player-identity.ts `reconcileNameFallback`: a record that was kept under a
-- player's name is joined with the player's stable identity once that is known.
pub mod Identity
use mastermind_7dtd_ai_serve.Base.{
  ℕ, ◌+◌, ◌≤◌, ◌<◌, max, min, Bool, true, false, ◌&&◌, ◌||◌, Option, none, some, List, [], ◌∷◌,
  ◌++◌, ◌==◌, ltb, if◌then◌else◌, or_else, find_first, update_where, delete_where,
}
use mastermind_7dtd_ai_serve.Base.Text.{Text, lit, text_eq, to_lower}

pub record Player : Type 0 where
  pub id : ℕ
  pub instance_id : ℕ
  pub identity_key : Text
  pub steam_id : Option Text
  pub eos_id : Option Text
  pub name : Text
  pub online : Bool
  pub current_session_started_at : Option ℕ
  pub lifetime_seconds : ℕ
  pub zombie_kills : ℕ
  pub player_kills : ℕ
  pub deaths : ℕ
  pub level : ℕ
  pub first_seen_at : ℕ
  pub last_seen_at : ℕ

pub record PlayerSession : Type 0 where
  pub id : ℕ
  pub player_id : ℕ
  pub started_at : ℕ
  pub ended_at : Option ℕ
  pub duration_seconds : Option ℕ

pub record Roster : Type 0 where
  pub players : List Player
  pub sessions : List PlayerSession

abbrev pub name_prefix : Text
name_prefix = lit "name:"

-- `s.startsWith(prefix)`.
unfoldable pub starts_with : Text → Text → Bool
starts_with s [] = true
starts_with [] (p ∷ ps) = false
starts_with (c ∷ s) (p ∷ ps) = c == p && starts_with s ps

unfoldable pub fallback_key : Text → Text
fallback_key name = name_prefix ++ to_lower name

-- `findUnique` by server instance and identity key.
unfoldable pub find_player : ℕ → Text → List Player → Option Player
find_player instance_id key =
    find_first (λ p. p.instance_id == instance_id && text_eq p.identity_key key)

-- The least of the session starts that are known.
abbrev earliest_start : Option ℕ → Option ℕ → Option ℕ
earliest_start none b = b
earliest_start (some a) none = some a
earliest_start (some a) (some b) = some (min a b)

abbrev started_while_online : Bool → Option ℕ → Option ℕ
started_while_online true start = start
started_while_online false start = none

-- The canonical row with the fallback row's history, as both were read; `p` is the row at the update.
unfoldable pub merge_player : Option Text → Option Text → Player → Player → Player → Player
merge_player steam_id eos_id canonical fallback p =
    let online = canonical.online || fallback.online in
    record p {
      steam_id = or_else steam_id canonical.steam_id;
      eos_id = or_else eos_id canonical.eos_id;
      lifetime_seconds = p.lifetime_seconds + fallback.lifetime_seconds;
      zombie_kills = max canonical.zombie_kills fallback.zombie_kills;
      player_kills = max canonical.player_kills fallback.player_kills;
      deaths = max canonical.deaths fallback.deaths;
      level = max canonical.level fallback.level;
      first_seen_at =
          if ltb fallback.first_seen_at canonical.first_seen_at
          then fallback.first_seen_at
          else canonical.first_seen_at;
      last_seen_at =
          if ltb canonical.last_seen_at fallback.last_seen_at
          then fallback.last_seen_at
          else canonical.last_seen_at;
      online = online;
      current_session_started_at =
          started_while_online online (
            earliest_start canonical.current_session_started_at
              fallback.current_session_started_at);
    }

-- The fallback row becomes the stable identity's.
abbrev pub promote : Text → Option Text → Option Text → Player → Roster → Roster
promote key steam_id eos_id fallback w = record w {
  players =
      update_where (λ p. p.id == fallback.id)
        (λ p. record p { identity_key = key; steam_id = steam_id; eos_id = eos_id }) w.players;
}

-- The transaction: the sessions change hands, the canonical row is updated, the fallback row goes.
abbrev pub join : Option Text → Option Text → Player → Player → Roster → Roster
join steam_id eos_id canonical fallback w = record {
  sessions =
      update_where (λ s. s.player_id == fallback.id) (λ s. record s { player_id = canonical.id })
        w.sessions;
  players =
      delete_where (λ p. p.id == fallback.id)
        (update_where (λ p. p.id == canonical.id) (merge_player steam_id eos_id canonical fallback)
          w.players);
}

abbrev pub promote_or_join :
    Text → Option Text → Option Text → Player → Option Player → Roster → Roster
promote_or_join key steam_id eos_id fallback none w = promote key steam_id eos_id fallback w
promote_or_join key steam_id eos_id fallback (some canonical) w =
    join steam_id eos_id canonical fallback w

abbrev pub with_fallback : ℕ → Text → Option Text → Option Text → Option Player → Roster → Roster
with_fallback instance_id key steam_id eos_id none w = w
with_fallback instance_id key steam_id eos_id (some fallback) w =
    promote_or_join key steam_id eos_id fallback (find_player instance_id key w.players) w

unfoldable pub reconcile_name_fallback :
    ℕ → Text → Text → Option Text → Option Text → Roster → Roster
reconcile_name_fallback instance_id key name steam_id eos_id w =
    if starts_with key name_prefix
    then w
    else with_fallback instance_id key steam_id eos_id
        (find_player instance_id (fallback_key name) w.players) w
