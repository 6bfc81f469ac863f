-- ===== src/Players/Identity.antt =====
-- player-identity.ts `reconcileNameFallback`: the two records of one player become one.
use mastermind_7dtd_ai_serve.Base.{
  ℕ, ◌+◌, min, max, none, ◌||◌, or_else, ◌≡◌, Option, some, if◌then◌else◌,
}
use mastermind_7dtd_ai_serve.Base.Text.{Text}
use mastermind_7dtd_ai_serve.Players.{Player}

-- The field of a record that is the greater or the known one of both.
abbrev pub earlier_of : Option ℕ → Option ℕ → Option ℕ
earlier_of none b = b
earlier_of (some a) none = some a
earlier_of (some a) (some b) = some (min a b)

-- What `m` has of both records.
pub record IsMerge (steam_id eos_id : Option Text) (a b m : Player) : Type 0 where
  pub same_id : m.id ≡ a.id
  pub same_key : m.identity_key ≡ a.identity_key
  pub steam : m.steam_id ≡ or_else steam_id a.steam_id
  pub eos : m.eos_id ≡ or_else eos_id a.eos_id
  pub lifetime : m.lifetime_seconds ≡ a.lifetime_seconds + b.lifetime_seconds
  pub zombies : m.zombie_kills ≡ max a.zombie_kills b.zombie_kills
  pub kills : m.player_kills ≡ max a.player_kills b.player_kills
  pub died : m.deaths ≡ max a.deaths b.deaths
  pub levels : m.level ≡ max a.level b.level
  pub first_seen : m.first_seen_at ≡ min a.first_seen_at b.first_seen_at
  pub last_seen : m.last_seen_at ≡ max a.last_seen_at b.last_seen_at
  pub on_server : m.online ≡ (a.online || b.online)
  pub session : m.current_session_started_at ≡ (
      if a.online || b.online
      then earlier_of a.current_session_started_at b.current_session_started_at
      else none)
