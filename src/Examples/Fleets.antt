-- ===== src/Examples/Fleets.antt =====
-- One organisation with a host: pairing a second host, rotating its key, the removal of
-- a host, and an agent that reports its installation twice.
use mastermind_7dtd_ai_serve.Base.{
  ℕ, zero, suc, ◌+◌, ◌≡◌, refl, ◌≢◌, ◌⊎◌, Bool, false, Option, none, some, [], ◌∷◌, arith, ◌==◌,
  All, find_first, count_where,
}
use mastermind_7dtd_ai_serve.Base.Text.{Text, lit, text_eq, trim, is_space, to_lower}
use mastermind_7dtd_ai_serve.Base.Result.{ok, err}
use mastermind_7dtd_ai_serve.Fleet.{Host, Fleet, token_used, key_rotated, has_instances, find_host}
use mastermind_7dtd_ai_serve.Hosts.{host_in_org, remove}
use mastermind_7dtd_ai_serve.Hosts.Removal.{remove_complete}
use mastermind_7dtd_ai_serve.Pairing.{
  Claims, Platform, pair, sign_agent_key, verify_agent_key, rotate_agent_key,
}
use mastermind_7dtd_ai_serve.Pairing.Keys.{pair_once, pair_key, rotate_agent_key-verify}
use mastermind_7dtd_ai_serve.Instances.{Discovered, trimmed_or_null, game_type_id_by_slug}
use mastermind_7dtd_ai_serve.Instances.Discovery.{upsert_discovered}
use mastermind_7dtd_ai_serve.Instances.Rediscovery.{upsert_discovered_again}
use mastermind_7dtd_ai_serve.Examples.Waves.{ok_or}

abbrev number_out : Option ℕ → ℕ
number_out none = 0
number_out (some n) = suc n

abbrev number_in : ℕ → Option ℕ
number_in zero = none
number_in (suc n) = some n

abbrev type_out : Option Text → Text
type_out none = []
type_out (some t) = 1 ∷ t

abbrev type_in : Text → Option Text
type_in [] = none
type_in (c ∷ t) = some t

abbrev claims_in : Text → Option Claims
claims_in (a ∷ b ∷ c ∷ t) = some (record {
  sub = number_in a;
  org_id = number_in b;
  key_version = number_in c;
  type = type_in t;
})
claims_in _ = none

-- Keys that are their claims, written out.
abbrev plain : Platform
plain = record {
  hash = λ t. t;
  iso = λ t. [];
  sign = λ c. number_out c.sub ∷ number_out c.org_id ∷ number_out c.key_version ∷ type_out c.type;
  verify = claims_in;
}

number_in-out : (o : Option ℕ) → number_in (number_out o) ≡ o
number_in-out none = refl
number_in-out (some n) = refl

type_in-out : (o : Option Text) → type_in (type_out o) ≡ o
type_in-out none = refl
type_in-out (some t) = refl

plain_reads : (c : Claims) → plain.verify (plain.sign c) ≡ some c
plain_reads c =
    rw
      (number_in-out c.sub, number_in-out c.org_id, number_in-out c.key_version, type_in-out c.type)
      refl

abbrev first_host : Host
first_host = record {
  id = 3;
  org_id = 7;
  name = lit "alpha";
  last_heartbeat_at = some 1000;
  agent_version = none;
  agent_key_version = 1;
  status = some (lit "online");
  last_metrics = none;
  created_at = 0;
}

abbrev fleet : Fleet
fleet = record {
  orgs = [];
  hosts = first_host ∷ [];
  tokens =
      record {
        id = 4;
        org_id = 7;
        token_hash = lit "secret";
        expires_at = 900000;
        used_at = none;
        created_by = 5;
        used_by_host = none;
      }
      ∷ [];
  game_types = record { id = 1; slug = lit "7dtd" } ∷ [];
  instances = [];
  runs = [];
  audits = [];
  samples = [];
  last_sample = [];
  next_id = 10;
}

abbrev paired_fleet : (ℕ × Text) × Fleet
paired_fleet =
    ok_or (pair plain 2000 (lit "secret") (some (lit "beta")) none fleet) ((0, []), fleet)

paired_eq :
    pair plain 2000 (lit "secret") (some (lit "beta")) none fleet
    ≡ ok ((paired_fleet.0.0, paired_fleet.0.1), paired_fleet.1)
unfolding pair find_first text_eq lit trim is_space
paired_eq = refl

pair_once_example : pair plain 3000 (lit "secret") none none paired_fleet.1 ≡ err token_used
pair_once_example =
    pair_once plain 2000 3000 (lit "secret") (some (lit "beta")) none none none fleet paired_fleet.1
      paired_fleet.0.0 paired_fleet.0.1 paired_eq

pair_key_example : verify_agent_key plain paired_fleet.0.1 paired_fleet.1 ≡ ok paired_fleet.0.0
pair_key_example =
    pair_key plain 2000 (lit "secret") (some (lit "beta")) none fleet paired_fleet.1
      paired_fleet.0.0 paired_fleet.0.1 plain_reads (omega arith, tt) paired_eq

abbrev rotated : Text × Fleet
rotated = ok_or (rotate_agent_key plain 7 3 fleet) ([], fleet)

rotated_eq : rotate_agent_key plain 7 3 fleet ≡ ok (rotated.0, rotated.1)
unfolding rotate_agent_key find_first
rotated_eq = refl

rotate_agent_key-verify_example :
    (host : Host) × (find_host 3 fleet.hosts ≡ some host)
    × (verify_agent_key plain rotated.0 rotated.1 ≡ ok 3)
    × ((1 ≡ host.agent_key_version + 1)
        ⊎ (verify_agent_key plain (sign_agent_key plain 3 7 1) rotated.1 ≡ err key_rotated))
rotate_agent_key-verify_example =
    rotate_agent_key-verify plain 7 3 1 fleet rotated.1 rotated.0 plain_reads (tt, tt) rotated_eq

first_host_found : host_in_org 7 3 fleet.hosts ≡ some first_host
unfolding host_in_org find_first
first_host_found = refl

remove_complete_example :
    ((count_where (λ s. s.host_id == 3) fleet.instances ≢ 0)
      × (remove 7 3 5 fleet ≡ err has_instances))
    ⊎ ((w' : Fleet) × (remove 7 3 5 fleet ≡ ok w')
        × All (λ x. (x.id == 3) ≡ false) w'.hosts
        × All (λ r. (r.host_id == 3) ≡ false) w'.runs
        × (w'.instances ≡ fleet.instances)
        × (count_where (λ s. s.host_id == 3) w'.instances ≡ 0))
remove_complete_example = remove_complete 7 3 5 fleet first_host first_host_found

abbrev found_server : Text → Discovered
found_server name = record {
  name = some name;
  install_path = some (lit "/srv/7dtd");
  start_command = none;
  telnet_host = none;
  telnet_port = none;
  telnet_password = none;
  config = none;
}

found_path : trimmed_or_null (some (lit "/srv/7dtd")) ≡ some (lit "/srv/7dtd")
unfolding trimmed_or_null lit trim is_space
found_path = refl

abbrev discovered : (Bool × ℕ) × Fleet
discovered = ok_or (upsert_discovered 3 (found_server (lit "one")) fleet) ((false, 0), fleet)

discovered_eq :
    upsert_discovered 3 (found_server (lit "one")) fleet
    ≡ ok ((discovered.0.0, discovered.0.1), discovered.1)
unfolding upsert_discovered find_first game_type_id_by_slug text_eq lit to_lower
discovered_eq = refl

upsert_discovered_again_example :
    (w'' : Fleet) × (upsert_discovered 3 (found_server (lit "two")) discovered.1
      ≡ ok ((false, discovered.0.1), w''))
upsert_discovered_again_example =
    upsert_discovered_again 3 (found_server (lit "one")) (found_server (lit "two")) fleet
      discovered.1 (lit "/srv/7dtd") discovered.0.0 discovered.0.1 found_path found_path
      discovered_eq
