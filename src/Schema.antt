-- ===== src/Schema.antt =====
-- The rows of the database tables that several services share (control-plane/prisma/schema.prisma),
-- the JSON values stored in them, and the object spread `{ ...base, ...over }`.
use mastermind_7dtd_ai_serve.Base.{
  ℕ, ◌≡◌, refl, Bool, true, false, Option, none, some, arith, if◌then◌else◌, or_else,
}
use mastermind_7dtd_ai_serve.Base.Int.{ℤ}
use mastermind_7dtd_ai_serve.Base.Text.{Text, text_eq, text_eq_iff, text_eq_refl}

mutual
  pub data Json : Type 0 where
    null : Json
    bool : Bool → Json
    num : ℕ → Json
    str : Text → Json
    -- An ISO 8601 string that `Date.toISOString` wrote, by its time value in milliseconds.
    date : ℕ → Json
    arr : Items → Json
    obj : Fields → Json

  pub data Items : Type 0 where
    nil : Items
    cons : Json → Items → Items

  pub data Fields : Type 0 where
    end : Fields
    field : Text → Json → Fields → Fields

unfoldable pub get_field : Text → Fields → Option Json
get_field k end = none
get_field k (field j v fs) = if text_eq j k then some v else get_field k fs

unfoldable pub set_field : Text → Json → Fields → Fields
set_field k v end = field k v end
set_field k v (field j w fs) = if text_eq j k then field j v fs else field j w (set_field k v fs)

-- `{ ...base, ...over }`.
unfoldable pub spread : Fields → Fields → Fields
unfolding set_field
spread base end = base
spread base (field k v fs) = set_field k v (spread base fs)

pub get_field-set_field :
    (k j : Text) (v : Json) (fs : Fields)
    → get_field j (set_field k v fs) ≡ (if text_eq k j then some v else get_field j fs)
unfolding get_field set_field
get_field-set_field k j v end = refl
get_field-set_field k j v (field i w fs) =
    ground (arith, text_eq_iff k j, text_eq_iff i k, text_eq_iff i j, get_field-set_field k j v fs)

get_field_cons :
    (k j : Text) (v : Json) (fs : Fields)
    → get_field k (field j v fs) ≡ (if text_eq j k then some v else get_field k fs)
unfolding get_field
get_field_cons k j v fs = refl

pub get_field_first : (k : Text) (v : Json) (fs : Fields) → get_field k (field k v fs) ≡ some v
unfolding get_field
get_field_first k v fs = rw (text_eq_refl k)

pub get_field-spread :
    (k : Text) (base over : Fields)
    → get_field k (spread base over) ≡ or_else (get_field k over) (get_field k base)
unfolding spread
get_field-spread k base end = unfold get_field in refl
get_field-spread k base (field j v fs) = ground (
  arith,
  get_field-set_field j k v (spread base fs),
  get_field-spread k base fs,
  get_field_cons k j v fs,
)

pub data RunStatus : Type 0 where
  pending running success failed cancelled : RunStatus

abbrev pub is_status : RunStatus → RunStatus → Bool
is_status pending pending = true
is_status running running = true
is_status success success = true
is_status failed failed = true
is_status cancelled cancelled = true
is_status _ _ = false

pub record JobRun : Type 0 where
  pub id : ℕ
  pub job_id : ℕ
  pub host_id : ℕ
  pub status : RunStatus
  pub started_at : Option ℕ
  pub finished_at : Option ℕ
  pub result : Option Fields
  pub created_at : ℕ

pub record Job : Type 0 where
  pub id : ℕ
  pub org_id : ℕ
  pub batch_id : Option ℕ
  pub instance_id : Option ℕ
  pub type : Text
  pub payload : Option Fields
  pub created_by : Option ℕ

pub data BatchStatus : Type 0 where
  running completed completed_with_failures cancelled : BatchStatus

pub record JobBatch : Type 0 where
  pub id : ℕ
  pub org_id : ℕ
  pub type : Text
  pub status : BatchStatus
  pub total_count : ℤ
  pub pending_count : ℤ
  pub running_count : ℤ
  pub success_count : ℤ
  pub failed_count : ℤ
  pub cancelled_count : ℤ
  pub created_by : Option ℕ
  pub created_at : ℕ
  pub completed_at : Option ℕ

-- A server instance with what the services include of its game type and organisation.
pub record ServerInstance : Type 0 where
  pub id : ℕ
  pub org_id : ℕ
  pub host_id : ℕ
  pub game_type : Text
  pub name : Text
  pub install_path : Option Text
  pub start_command : Option Text
  pub telnet_host : Option Text
  pub telnet_port : Option ℕ
  pub telnet_password : Option Text
  pub config : Option Json
  pub avoid_blood_moon_restart : Bool
