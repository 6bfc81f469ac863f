-- ===== src/Guards.antt =====
-- control-plane/src/server-instances/guards: the checks before the endpoints of the users. The token library
-- is a parameter: the user id of a token, or `none` where it throws.
use mastermind_7dtd_ai_serve.Base.{
  ℕ, Bool, ◌&&◌, Option, none, some, List, [], ◌∷◌, ◌==◌, find_first, or_default,
}
use mastermind_7dtd_ai_serve.Base.Text.{Text, lit, includes}
use mastermind_7dtd_ai_serve.Base.Result.{Result, ok, ◌>>=◌, ◌>>◌, require, or_throw}
use mastermind_7dtd_ai_serve.JsonValues.{filled}
use mastermind_7dtd_ai_serve.Pairing.{bearer_token}
use mastermind_7dtd_ai_serve.Accounts.{UserOrg, Role, Accounts}

pub data GuardError : Type 0 where
  no_token bad_token not_a_member insufficient_role : GuardError

-- `include: { role: true }`. The database has the role of every membership.
abbrev pub role_name_from : Option Role → Text
role_name_from none = []
role_name_from (some r) = r.name

unfoldable pub role_of : UserOrg → Accounts → Text
role_of m w = role_name_from (find_first (λ r. r.id == m.role_id) w.roles)

abbrev pub is_member : ℕ → ℕ → UserOrg → Bool
is_member user org m = m.user_id == user && m.org_id == org

abbrev pub find_membership : ℕ → ℕ → Accounts → Option UserOrg
find_membership user org w = find_first (is_member user org) w.user_orgs

-- `OrgMemberGuard`: the role that it attaches to the request.
unfoldable pub org_member : ℕ → ℕ → Accounts → Result GuardError Text
org_member user org w = do m ← or_throw (find_membership user org w) not_a_member; ok (role_of m w)

abbrev default_roles : List Text
default_roles = lit "admin" ∷ lit "operator" ∷ []

-- `RequireOrgRoleGuard`, with the roles that the endpoint names.
unfoldable pub require_org_role : Option (List Text) → Text → Result GuardError (Unit {0})
require_org_role required role = do
  name ← or_throw (filled (some role)) insufficient_role
  require (includes (or_default required default_roles) name) insufficient_role

module _ (verify : Text → Option ℕ) where
  -- `JwtAuthGuard`: the user of the request.
  unfoldable pub jwt_auth : Option Text → Result GuardError ℕ
  jwt_auth auth = do
    token ← or_throw (bearer_token auth) no_token
    or_throw (verify token) bad_token

  -- The three guards in the order in which the endpoints name them.
  unfoldable pub authorize : Option (List Text) → Option Text → ℕ → Accounts → Result GuardError ℕ
  authorize required auth org w = do
    user ← jwt_auth auth
    role ← org_member user org w
    require_org_role required role >> ok user
