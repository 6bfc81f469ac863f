-- ===== src/Accounts.antt =====
-- control-plane/src/auth/auth.service.ts: registration, login and the change of a password.
pub mod Login
use mastermind_7dtd_ai_serve.Base.{
  ℕ, zero, suc, ◌+◌, Bool, true, false, not, ◌&&◌, Option, none, some, List, [], ◌∷◌, ◌++◌, ◌==◌,
  if◌then◌else◌, or_default, is_some, find_first, update_where, count_where,
}
use mastermind_7dtd_ai_serve.Base.Text.{Text, lit, text_eq, trim}
use mastermind_7dtd_ai_serve.Passwords.{Secrets, make_password_hash, verify_password}
use mastermind_7dtd_ai_serve.Base.Result.{Result, ok, err, ◌>>=◌, ◌>>◌, require, or_throw}

pub record User : Type 0 where
  pub id : ℕ
  pub email : Text
  pub name : Option Text
  pub password_hash : Option Text

pub record UserOrg : Type 0 where
  pub user_id : ℕ
  pub org_id : ℕ
  pub role_id : ℕ

pub record Role : Type 0 where
  pub id : ℕ
  pub name : Text

pub record OrgRow : Type 0 where
  pub id : ℕ
  pub name : Text
  pub slug : Text

pub record Accounts : Type 0 where
  pub users : List User
  pub user_orgs : List UserOrg
  pub roles : List Role
  pub orgs : List OrgRow
  pub next_id : ℕ

pub data AuthError : Type 0 where
  email_taken invalid_login wrong_password same_password : AuthError

abbrev name_or_null : Option Text → Option Text
name_or_null none = none
name_or_null (some s) = elim (trim s) [ [] ↦ none | ◌∷◌ c t ↦ some (c ∷ t) ]

abbrev first_org : List OrgRow → Option OrgRow
first_org [] = none
first_org (o ∷ os) = some o

-- `getOrCreateDefaultOrg`, with the organisation's id.
abbrev pub default_org_from : Option OrgRow → Accounts → ℕ × Accounts
default_org_from (some o) w = (o.id, w)
default_org_from none w = (
  w.next_id,
  record w {
    orgs = w.orgs ++ record { id = w.next_id; name = lit "Default"; slug = lit "default" } ∷ [];
    next_id = suc w.next_id;
  },
)

unfoldable pub get_or_create_default_org : Accounts → ℕ × Accounts
get_or_create_default_org w = default_org_from (first_org w.orgs) w

abbrev pub target_org : Option ℕ → Accounts → ℕ × Accounts
target_org (some i) w = (i, w)
target_org none w = get_or_create_default_org w

abbrev pub role_from : Option Role → Text → Accounts → ℕ × Accounts
role_from (some r) name w = (r.id, w)
role_from none name w = (
  w.next_id,
  record w {
    roles = w.roles ++ record { id = w.next_id; name = name } ∷ [];
    next_id = suc w.next_id;
  },
)

unfoldable pub resolve_role : Text → Accounts → ℕ × Accounts
resolve_role name w = role_from (find_first (λ r. text_eq r.name name) w.roles) name w

-- The first member of an organisation is its administrator.
unfoldable pub role_name_for : ℕ → Accounts → Text
role_name_for org w =
    if count_where (λ m. m.org_id == org) w.user_orgs == 0 then lit "admin" else lit "operator"

unfoldable pub add_user : Text → Text → Option Text → ℕ → ℕ → Accounts → Accounts
add_user email hash name org role w = record w {
  users =
      w.users
      ++ record {
        id = w.next_id;
        email = email;
        name = name_or_null name;
        password_hash = some hash;
      }
        ∷ [];
  user_orgs = w.user_orgs ++ record { user_id = w.next_id; org_id = org; role_id = role } ∷ [];
  next_id = suc w.next_id;
}

abbrev pub find_user : Text → List User → Option User
find_user email = find_first (λ u. text_eq u.email email)

-- The token, the user and the organisation that `register` and `login` return.
pub record Session : Type 0 where
  pub access_token : Text
  pub user_id : ℕ
  pub org_id : ℕ

abbrev pub filled_hash : Option Text → Option Text
filled_hash (some (c ∷ s)) = some (c ∷ s)
filled_hash _ = none

module _ (p : Secrets) where
  -- Registration in an organisation with its role.
  abbrev pub registered : Text → Text → Option Text → ℕ → ℕ → Accounts → Session × Accounts
  registered email password name org role w = (
    record { access_token = p.issue_token w.next_id org; user_id = w.next_id; org_id = org },
    add_user email (make_password_hash p password) name org role w,
  )

  unfoldable pub register :
      Text → Text → Option Text → Option ℕ → Accounts → Result AuthError (Session × Accounts)
  register email password name org_id w = do
    require (not (is_some (find_user email w.users))) email_taken
    let (org, w1) = target_org org_id w
    let (role, w2) = resolve_role (role_name_for org w1) w1
    ok (registered email password name org role w2)

  abbrev pub org_of_user : Option UserOrg → Accounts → ℕ × Accounts
  org_of_user (some m) w = (m.org_id, w)
  org_of_user none w = get_or_create_default_org w

  unfoldable pub login : Text → Text → Accounts → Result AuthError (Session × Accounts)
  login email password w = do
    user ← or_throw (find_user email w.users) invalid_login
    hash ← or_throw (filled_hash user.password_hash) invalid_login
    require (verify_password p password hash) invalid_login
    let (org, w1) = org_of_user (find_first (λ m. m.user_id == user.id) w.user_orgs) w
    ok (record { access_token = p.issue_token user.id org; user_id = user.id; org_id = org }, w1)

  unfoldable pub change_password : ℕ → Text → Text → Accounts → Result AuthError Accounts
  change_password i current new w = do
    user ← or_throw (find_first (λ u. u.id == i) w.users) wrong_password
    hash ← or_throw (filled_hash user.password_hash) wrong_password
    require (verify_password p current hash) wrong_password
    require (not (text_eq current new)) same_password
    ok (record w {
      users =
          update_where (λ u. u.id == i)
            (λ u. record u { password_hash = some (make_password_hash p new) }) w.users;
    })
