-- ===== src/Examples/Connected.antt =====
-- A player list after which one player is online and another one's session is over.
use mastermind_7dtd_ai_serve.Base.{◌≡◌, refl, true, false, none, some, [], ◌∷◌, ◌++◌, List}
use mastermind_7dtd_ai_serve.Base.Text.{
  Text, lit, split, is_space, is_digit, to_lower, digits_from, trim,
}
use mastermind_7dtd_ai_serve.Logs.{LogBook}
use mastermind_7dtd_ai_serve.Jobs.PlayerReports.{
  report_lines, reported, head_of, some_units, listed_steam, listed_eos, counter_of,
}
use mastermind_7dtd_ai_serve.Logs.Chat.{complete_lines}
use mastermind_7dtd_ai_serve.Logs.PlayerLines.{span, after_any_case, first_at, run_of}
use mastermind_7dtd_ai_serve.Logs.Patterns.{after}
use mastermind_7dtd_ai_serve.Logs.Search.{last_index_of}
use mastermind_7dtd_ai_serve.Players.{starts_with}
use mastermind_7dtd_ai_serve.Jobs.PlayersSeen.{listed_keys}
use mastermind_7dtd_ai_serve.Jobs.Protection.{ProtectionSettings, Watch}
use mastermind_7dtd_ai_serve.Jobs.Removals.{Sighting}
use mastermind_7dtd_ai_serve.Examples.Chats.{book}

abbrev output : Text
output =
    lit "1. id=171, Ann , pos=(1, 2), steamid=Steam_76561198000000001, zombies = 12, level=3"
    ++ 13 ∷ 10 ∷ []
    ++ lit "Total of 1 in the game"

abbrev game : LogBook
game = record book {
  roster = record {
    players =
        record {
          id = 7;
          instance_id = 2;
          identity_key = lit "name:bob";
          steam_id = none;
          eos_id = none;
          name = lit "Bob";
          online = true;
          current_session_started_at = some 500000;
          lifetime_seconds = 10;
          zombie_kills = 0;
          player_kills = 0;
          deaths = 0;
          level = 1;
          first_seen_at = 500000;
          last_seen_at = 600000;
        }
        ∷ [];
    sessions =
        record {
          id = 8;
          player_id = 7;
          started_at = 500000;
          ended_at = none;
          duration_seconds = none;
        }
        ∷ [];
  };
}

keys_eq : listed_keys (report_lines output) ≡ lit "steam:76561198000000001" ∷ []
unfolding listed_keys complete_lines split lit reported head_of some_units span last_index_of
    starts_with is_space is_digit after after_any_case to_lower listed_steam listed_eos first_at
    run_of digits_from trim counter_of
keys_eq = refl

abbrev settings : ProtectionSettings
settings = record {
  instance_id = 2;
  high_ping_enabled = true;
  high_ping_threshold_ms = 250;
  high_ping_samples = 1;
  high_ping_reason = lit "Slow";
  country_ban_enabled = false;
  blocked_country_codes = [];
  country_action = lit "kick";
  country_ban_duration = lit "1 day";
  country_reason = lit "Country";
}

abbrev watch : Watch
watch = record {
  world = book.world;
  settings = settings ∷ [];
  bad_ping_samples = λ k. 0;
  protection_cooldown = λ k. 0;
  country_cache = λ k. none;
}

abbrev slow : Text
slow = lit "1. id=171, Ann, ping=900"

abbrev other : Text
other = lit "2. id=172, Bob, ping=40"

abbrev sightings : List Sighting
sightings =
    record { at = 1000; settings = settings; id = lit "171"; line = slow }
    ∷ record { at = 1000; settings = settings; id = lit "172"; line = other }
    ∷ record { at = 31000; settings = settings; id = lit "171"; line = slow }
    ∷ []
