-- ===== src/Examples/Single.antt =====
-- Single jobs of the sample organisation.
use mastermind_7dtd_ai_serve.Base.{
  ℕ, ◌≡◌, refl, Option, none, some, [], ◌∷◌, find_first, ◌⊎◌, false,
}
use mastermind_7dtd_ai_serve.Base.Text.{
  Text, lit, text_eq, trim, to_lower, to_upper, includes, has_unit, is_space,
}
use mastermind_7dtd_ai_serve.Base.Result.{ok}
use mastermind_7dtd_ai_serve.Schema.{str, Fields, end, field, get_field}
use mastermind_7dtd_ai_serve.World.{World}
use mastermind_7dtd_ai_serve.Jobs.{
  create_job, normalize_job_type, check_command, check_role, role_of, has_role, find_instance,
  is_console, is_admin_change, operator_types,
}
use mastermind_7dtd_ai_serve.Jobs.Create.{
  for_admins, for_staff, create_job_privileged, IsMemberWith,
}
use mastermind_7dtd_ai_serve.Examples.Waves.{ok_or, empty_world}

abbrev command : Option Fields
command = some (field (lit "command") (str (lit " say hi ")) end)

abbrev console : World × (ℕ × ℕ)
console = ok_or (create_job empty_world 7 5 1 (lit "rcon") command 1000) (empty_world, (0, 0))

-- The user of the organisation kills the server.
abbrev killed : World × (ℕ × ℕ)
killed = ok_or (create_job empty_world 7 5 1 (lit "SERVER_KILL") none 1000) (empty_world, (0, 0))

killed_eq : create_job empty_world 7 5 1 (lit "SERVER_KILL") none 1000 ≡ ok killed
unfolding create_job normalize_job_type is_console check_command check_role find_instance find_first
    role_of has_role text_eq includes lit to_lower to_upper get_field trim has_unit is_space
    is_admin_change operator_types
killed_eq = refl

create_job_privileged_example :
    ((includes for_admins (normalize_job_type (lit "SERVER_KILL")) ≡ false)
      ⊎ IsMemberWith empty_world 7 5 (lit "admin" ∷ []))
    × ((includes for_staff (normalize_job_type (lit "SERVER_KILL")) ≡ false)
        ⊎ IsMemberWith empty_world 7 5 (lit "admin" ∷ lit "operator" ∷ []))
create_job_privileged_example =
    create_job_privileged empty_world killed.0 7 5 1 (lit "SERVER_KILL") none 1000 killed.1
      killed_eq
