-- ===== src/Instances/Discovery.antt =====
-- server-instances.service.ts `upsertDiscovered7DtdInstance`.
use mastermind_7dtd_ai_serve.Base.{
  ℕ, suc, Bool, true, false, not, ◌&&◌, ◌||◌, Option, none, some, List, [], ◌∷◌, ◌++◌, ◌==◌,
  if◌then◌else◌, or_default, or_else, is_some, select, update_where,
}
use mastermind_7dtd_ai_serve.Base.Text.{Text, lit}
use mastermind_7dtd_ai_serve.Base.Result.{Result, ok, ◌>>=◌, or_throw}
use mastermind_7dtd_ai_serve.Schema.{obj}
use mastermind_7dtd_ai_serve.Fleet.{Host, Instance, Fleet, FleetError, host_missing, find_host}
use mastermind_7dtd_ai_serve.Instances.{
  Discovered, slug_7dtd, filled, trimmed_or_null, is_empty, game_type_id_by_slug,
}
use mastermind_7dtd_ai_serve.Instances.Config.{find_matching, merge_config, is_discovered_managed}

-- `existingList.length === 1 ? existingList[0] : null`.
abbrev pub only_row : List Instance → Option Instance
only_row (s ∷ []) = some s
only_row _ = none

-- The row that the discovery is about.
unfoldable pub known_instance : List Instance → Option Text → Option Instance
known_instance rows path = or_else (find_matching rows path) (only_row rows)

-- A value that is present replaces the old one where the row allows it.
abbrev if_allowed : {A : Type 0} → Option A → Bool → Option A → Option A
if_allowed none allowed old = old
if_allowed (some a) allowed old = if allowed then some a else old

abbrev password_if_allowed : Option Text → Bool → Option Text → Option Text
password_if_allowed none allowed old = old
password_if_allowed (some s) allowed old = if allowed then filled s else old

abbrev name_if_managed : Option Text → Bool → Text → Text
name_if_managed none managed old = old
name_if_managed (some s) managed old = if managed then s else old

-- `existing` is the row as it was read.
unfoldable pub discovered_again : Discovered → Instance → Instance → Instance
discovered_again dto existing s =
    let managed = is_discovered_managed existing.config in
    record s {
      install_path = or_else (trimmed_or_null dto.install_path) s.install_path;
      start_command =
          if_allowed (trimmed_or_null dto.start_command)
            (managed || is_empty existing.start_command) s.start_command;
      telnet_host =
          if_allowed (trimmed_or_null dto.telnet_host) (managed || is_empty existing.telnet_host)
            s.telnet_host;
      telnet_port =
          if_allowed dto.telnet_port (managed || not (is_some existing.telnet_port)) s.telnet_port;
      telnet_password =
          password_if_allowed dto.telnet_password (managed || is_empty existing.telnet_password)
            s.telnet_password;
      name = name_if_managed (trimmed_or_null dto.name) managed s.name;
      config = some (obj (merge_config existing.config dto.config));
    }

unfoldable pub discovered_first : Discovered → Host → ℕ → ℕ → Instance
discovered_first dto host game_type i = record {
  id = i;
  org_id = host.org_id;
  host_id = host.id;
  game_type_id = game_type;
  name = or_default (trimmed_or_null dto.name) (host.name ++ lit " 7DTD");
  install_path = trimmed_or_null dto.install_path;
  start_command = trimmed_or_null dto.start_command;
  telnet_host = some (or_default (trimmed_or_null dto.telnet_host) (lit "127.0.0.1"));
  telnet_port = some (or_default dto.telnet_port 8081);
  telnet_password = dto.telnet_password;
  config = some (obj (merge_config none dto.config));
}

abbrev pub rows_of_host : Host → ℕ → List Instance → List Instance
rows_of_host host game_type =
    select (λ s. s.org_id == host.org_id && s.host_id == host.id && s.game_type_id == game_type)

-- Whether a row was created, and its id.
abbrev pub upsert_known : Discovered → Host → ℕ → Option Instance → Fleet → (Bool × ℕ) × Fleet
upsert_known dto host game_type none w = (
  (true, w.next_id),
  record w {
    instances = w.instances ++ discovered_first dto host game_type w.next_id ∷ [];
    next_id = suc w.next_id;
  },
)
upsert_known dto host game_type (some existing) w = (
  (false, existing.id),
  record w {
    instances = update_where (λ s. s.id == existing.id) (discovered_again dto existing) w.instances;
  },
)

unfoldable pub upsert_discovered : ℕ → Discovered → Fleet → Result FleetError ((Bool × ℕ) × Fleet)
upsert_discovered host_id dto w = do
  host ← or_throw (find_host host_id w.hosts) host_missing
  game_type ← game_type_id_by_slug slug_7dtd w
  ok (
      upsert_known dto host game_type
        (known_instance (rows_of_host host game_type w.instances)
          (trimmed_or_null dto.install_path))
        w)
