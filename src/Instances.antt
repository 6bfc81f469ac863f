-- ===== src/Instances.antt =====
-- control-plane/src/server-instances/server-instances.service.ts: registering, changing and removing server
-- instances, and the upsert of the instance that an agent discovers on its host. A dto's property that is
-- missing is `none`. The responses' views of a row are not modelled.
pub mod Config
pub mod Discovery
pub mod Rediscovery
use mathlib.Core.List.{reverse}
use mastermind_7dtd_ai_serve.Base.{
  ℕ, zero, suc, ◌+◌, Bool, true, false, not, ◌&&◌, ◌||◌, Option, none, some, List, [], ◌∷◌, ◌++◌,
  map, ◌==◌, if◌then◌else◌, or_default, or_else, is_some, find_first, select, update_where,
  delete_where,
}
use mastermind_7dtd_ai_serve.Base.Text.{Text, lit, text_eq, trim, to_lower}
use mastermind_7dtd_ai_serve.Base.Result.{Result, ok, err, ◌>>=◌, ◌>>◌, require, or_throw}
use mastermind_7dtd_ai_serve.Schema.{
  Json, Items, Fields, null, bool, num, str, arr, obj, nil, cons, end, field, get_field, set_field,
  spread,
}
use mastermind_7dtd_ai_serve.Fleet.{
  Host, Instance, GameType, AuditRow, Fleet, FleetError, host_missing, host_not_in_org,
  game_type_missing, instance_missing, find_host,
}

pub record CreateInstance : Type 0 where
  pub host_id : ℕ
  pub game_type : Text
  pub name : Text
  pub install_path : Option Text
  pub start_command : Option Text
  pub telnet_host : Option Text
  pub telnet_port : Option ℕ
  pub telnet_password : Option Text

-- `keys` are the dto's own keys, in the request's order. A text that is null is the empty text, which the
-- code treats alike.
pub record UpdateInstance : Type 0 where
  pub keys : List Text
  pub host_id : Option ℕ
  pub game_type : Option Text
  pub name : Option Text
  pub install_path : Option Text
  pub start_command : Option Text
  pub telnet_host : Option Text
  pub telnet_port : Option (Option ℕ)
  pub telnet_password : Option (Option Text)

pub record Discovered : Type 0 where
  pub name : Option Text
  pub install_path : Option Text
  pub start_command : Option Text
  pub telnet_host : Option Text
  pub telnet_port : Option ℕ
  pub telnet_password : Option Text
  pub config : Option Fields

abbrev slug_7dtd : Text
slug_7dtd = lit "7dtd"

-- `s || null`.
abbrev pub filled : Text → Option Text
filled [] = none
filled (c ∷ s) = some (c ∷ s)

-- `s?.trim() || null`.
unfoldable pub trimmed_or_null : Option Text → Option Text
trimmed_or_null none = none
trimmed_or_null (some s) = filled (trim s)

-- `!s` on a nullable text.
abbrev is_empty : Option Text → Bool
is_empty none = true
is_empty (some []) = true
is_empty (some (c ∷ s)) = false

unfoldable pub game_type_id_by_slug : Text → Fleet → Result FleetError ℕ
game_type_id_by_slug slug w = do
  g ← or_throw (find_first (λ g. text_eq g.slug (to_lower slug)) w.game_types) game_type_missing
  ok g.id

unfoldable pub assert_host_in_org : ℕ → ℕ → Fleet → Result FleetError (Unit {0})
assert_host_in_org host org w =
    require (is_some (find_first (λ h. h.id == host && h.org_id == org) w.hosts)) host_not_in_org

instance_audit : ℕ → ℕ → Text → ℕ → Fields → Option Text → AuditRow
instance_audit org user action i details ip = record {
  org_id = org;
  actor_id = some user;
  action = action;
  resource_type = lit "server_instance";
  resource_id = i;
  details = details;
  ip = ip;
}

-- The id of the created instance, with the state.
unfoldable pub create : ℕ → ℕ → CreateInstance → Option Text → Fleet → Result FleetError (ℕ × Fleet)
unfolding instance_audit
create org user dto ip w = do
  assert_host_in_org dto.host_id org w
  game_type ← game_type_id_by_slug dto.game_type w
  ok (
    w.next_id,
    record w {
      instances =
          w.instances
          ++ record {
            id = w.next_id;
            org_id = org;
            host_id = dto.host_id;
            game_type_id = game_type;
            name = trim dto.name;
            install_path = trimmed_or_null dto.install_path;
            start_command = trimmed_or_null dto.start_command;
            telnet_host = trimmed_or_null dto.telnet_host;
            telnet_port = dto.telnet_port;
            telnet_password = dto.telnet_password;
            config = none;
          }
            ∷ [];
      audits =
          w.audits
          ++ instance_audit org user (lit "create") w.next_id
              (field (lit "name") (str (trim dto.name)) (
                field (lit "hostId") (num dto.host_id)
                  (field (lit "gameType") (str (to_lower dto.game_type)) end)))
              ip
            ∷ [];
      next_id = suc w.next_id;
    },
  )

-- `updated: Object.keys(dto).filter(k => k !== 'telnetPassword')`.
updated_keys : List Text → Items
updated_keys [] = nil
updated_keys (k ∷ ks) =
    let rest = updated_keys ks in
    if text_eq k (lit "telnetPassword") then rest else cons (str k) rest

abbrev text_if_defined : Option Text → Option Text → Option Text
text_if_defined none old = old
text_if_defined (some s) old = trimmed_or_null (some s)

abbrev trim_if_defined : Option Text → Text → Text
trim_if_defined none old = old
trim_if_defined (some s) old = trim s

-- `dto.gameType ? await this.getGameTypeIdBySlug(dto.gameType) : undefined`, else the row's own.
abbrev game_type_of_update : Option Text → Fleet → Result FleetError (Option ℕ)
game_type_of_update (some (c ∷ s)) w = game_type_id_by_slug (c ∷ s) w >>= λ g. ok (some g)
game_type_of_update _ w = ok none

-- `if (dto.hostId !== undefined) await this.assertHostInOrg(dto.hostId, orgId)`.
abbrev check_new_host : Option ℕ → ℕ → Fleet → Result FleetError (Unit {0})
check_new_host none org w = ok tt
check_new_host (some host) org w = assert_host_in_org host org w

abbrev changed : UpdateInstance → Option ℕ → Instance → Instance
changed dto game_type s = record s {
  name = trim_if_defined dto.name s.name;
  host_id = or_default dto.host_id s.host_id;
  game_type_id = or_default game_type s.game_type_id;
  install_path = text_if_defined dto.install_path s.install_path;
  start_command = text_if_defined dto.start_command s.start_command;
  telnet_host = text_if_defined dto.telnet_host s.telnet_host;
  telnet_port = or_default dto.telnet_port s.telnet_port;
  telnet_password = or_default dto.telnet_password s.telnet_password;
}

unfoldable pub instance_in_org : ℕ → ℕ → List Instance → Option Instance
instance_in_org org i = find_first (λ s. s.id == i && s.org_id == org)

unfoldable pub update : ℕ → ℕ → ℕ → UpdateInstance → Option Text → Fleet → Result FleetError Fleet
unfolding instance_audit updated_keys
update org user i dto ip w = do
  existing ← or_throw (instance_in_org org i w.instances) instance_missing
  check_new_host dto.host_id org w
  game_type ← game_type_of_update dto.game_type w
  ok (record w {
    instances = update_where (λ s. s.id == i) (changed dto game_type) w.instances;
    audits =
        w.audits
        ++ instance_audit org user (lit "update") i
            (field (lit "updated") (arr (updated_keys dto.keys)) end) ip
          ∷ [];
  })

unfoldable pub remove : ℕ → ℕ → ℕ → Option Text → Fleet → Result FleetError Fleet
unfolding instance_audit
remove org user i ip w = do
  existing ← or_throw (instance_in_org org i w.instances) instance_missing
  ok (record w {
    instances = delete_where (λ s. s.id == i) w.instances;
    audits =
        w.audits
        ++ instance_audit org user (lit "delete") i (field (lit "name") (str existing.name) end) ip
          ∷ [];
  })
