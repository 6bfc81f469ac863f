-- ===== src/Organisations.antt =====
-- control-plane/src/orgs/orgs.service.ts: organisations and their accounts. Organisations/Settings has the
-- settings of an organisation's integrations.
pub mod Admins
pub mod Admission
pub mod Registry
pub mod History
pub mod Inversions
pub mod Settings
use mastermind_7dtd_ai_serve.Base.{
  ℕ, zero, suc, Bool, true, false, not, ◌&&◌, ◌||◌, Option, none, some, List, [], ◌∷◌, ◌++◌, ◌==◌,
  leb, if◌then◌else◌, is_some, any, find_first, update_where, delete_where, count_where,
}
use mastermind_7dtd_ai_serve.Base.Text.{Text, lit, text_eq, trim, to_lower}
use mastermind_7dtd_ai_serve.Base.Result.{Result, ok, err, ◌>>=◌, ◌>>◌, require, or_throw}
use mastermind_7dtd_ai_serve.Schema.{Json, str, Fields, end, field}
use mastermind_7dtd_ai_serve.Fleet.{AuditRow}
use mastermind_7dtd_ai_serve.JsonValues.{filled}
use mastermind_7dtd_ai_serve.Passwords.{Secrets, make_password_hash}
use mastermind_7dtd_ai_serve.Accounts.{
  User, UserOrg, Role, OrgRow, Accounts, resolve_role, add_user, find_user,
}
use mastermind_7dtd_ai_serve.Guards.{role_of, is_member, find_membership}

-- The other columns of an organisation.
pub record OrgSettings : Type 0 where
  pub id : ℕ
  pub discord_webhook_url : Option Text
  pub frigate_url : Option Text
  pub frigate_api_key : Option Text
  pub frigate_webhook_secret : Option Text
  pub avoid_blood_moon_restart : Bool
  pub openai_api_key_encrypted : Option Text
  pub openai_model : Text
  pub mod_ai_provider : Text
  pub kimi_api_key_encrypted : Option Text
  pub kimi_model : Text

-- A user's role on one server instance, with the organisation of the instance.
pub record UserServerRole : Type 0 where
  pub user_id : ℕ
  pub instance_id : ℕ
  pub org_id : ℕ

pub record Directory : Type 0 where
  pub accounts : Accounts
  pub settings : List OrgSettings
  pub server_roles : List UserServerRole
  pub audits : List AuditRow

pub data OrgError : Type 0 where
  email_taken slug_taken unique_violation : OrgError
  own_account account_missing last_admin : OrgError
  own_password admins_only higher_tier : OrgError
  not_a_member org_missing key_required bad_model : OrgError

abbrev pub admin : Text
admin = lit "admin"

abbrev pub is_admin_of : UserOrg → Accounts → Bool
is_admin_of m w = text_eq (role_of m w) admin

abbrev pub find_role : Text → List Role → Option Role
find_role name = find_first (λ r. text_eq r.name name)

-- `adminRole ? count(...) : 0`.
abbrev pub count_admins_from : Option Role → ℕ → Accounts → ℕ
count_admins_from none org w = 0
count_admins_from (some r) org w =
    count_where (λ m. m.org_id == org && m.role_id == r.id) w.user_orgs

unfoldable pub admin_count : ℕ → Accounts → ℕ
admin_count org w = count_admins_from (find_role admin w.roles) org w

-- The new row, with the defaults of the database's columns.
abbrev new_settings : ℕ → OrgSettings
new_settings i = record {
  id = i;
  discord_webhook_url = none;
  frigate_url = none;
  frigate_api_key = none;
  frigate_webhook_secret = none;
  avoid_blood_moon_restart = false;
  openai_api_key_encrypted = none;
  openai_model = lit "gpt-5.3-codex";
  mod_ai_provider = lit "codex";
  kimi_api_key_encrypted = none;
  kimi_model = lit "kimi-for-coding";
}

abbrev find_org_slug : Text → List OrgRow → Option OrgRow
find_org_slug slug = find_first (λ o. text_eq o.slug slug)

-- The slug as it is stored. The column is unique, so the database refuses one that is there.
unfoldable pub create_org : Text → Text → ℕ → Directory → Result OrgError (ℕ × Directory)
create_org name slug user w = do
  require (not (is_some (find_org_slug slug w.accounts.orgs))) slug_taken
  let (role, a) = resolve_role admin w.accounts
  let stored = to_lower (trim slug)
  require (not (is_some (find_org_slug stored a.orgs))) unique_violation
  ok (
    a.next_id,
    record w {
      accounts = record a {
        orgs = a.orgs ++ record { id = a.next_id; name = trim name; slug = stored } ∷ [];
        user_orgs =
            a.user_orgs ++ record { user_id = user; org_id = a.next_id; role_id = role } ∷ [];
        next_id = suc a.next_id;
      };
      settings = w.settings ++ new_settings a.next_id ∷ [];
    },
  )

-- The update of a user's hash.
abbrev pub with_hash : ℕ → Option Text → Accounts → Accounts
with_hash user hash w = record w {
  users = update_where (λ u. u.id == user) (λ u. record u { password_hash = hash }) w.users;
}

abbrev only_org : ℕ → Accounts → Bool
only_org user w = count_where (λ m. m.user_id == user) w.user_orgs == 1

-- The transaction of `deleteAccount`, given whether this is the user's only organisation.
unfoldable pub without_account : ℕ → ℕ → Bool → Directory → Directory
without_account org account only w =
    let a : Accounts = record w.accounts {
      user_orgs = delete_where (is_member account org) w.accounts.user_orgs;
    } in
    record w {
      server_roles = delete_where (λ r. r.user_id == account && r.org_id == org) w.server_roles;
      accounts = if only then with_hash account none a else a;
    }

-- The answer tells whether the account can still sign in: `true` where it cannot.
unfoldable pub delete_account : ℕ → ℕ → ℕ → Directory → Result OrgError (Bool × Directory)
delete_account org account acting w = do
  require (not (account == acting)) own_account
  m ← or_throw (find_membership account org w.accounts) account_missing
  require (not (is_admin_of m w.accounts && leb (admin_count org w.accounts) 1)) last_admin
  let only = only_org account w.accounts
  ok (only, without_account org account only w)

abbrev email_of : ℕ → Accounts → Text
email_of user w = elim (find_first (λ u. u.id == user) w.users) [ none ↦ [] | some u ↦ u.email ]

abbrev pub admin_from : Option UserOrg → Accounts → Bool
admin_from none w = false
admin_from (some m) w = is_admin_of m w

module _ (p : Secrets) where
  -- `operator` and `viewer` are the roles that the endpoint lets through.
  unfoldable pub create_account :
      ℕ → Text → Text → Option Text → Text → Directory → Result OrgError (ℕ × Directory)
  create_account org email password name role w = do
    let address = to_lower (trim email)
    require (not (is_some (find_user address w.accounts.users))) email_taken
    let (role_id, a) = resolve_role role w.accounts
    ok (
      a.next_id,
      record w { accounts = add_user address (make_password_hash p password) name org role_id a },
    )

  unfoldable pub reset_account_password : ℕ → ℕ → ℕ → Text → Directory → Result OrgError Directory
  reset_account_password org account acting password w = do
    require (not (account == acting)) own_password
    require (admin_from (find_membership acting org w.accounts) w.accounts) admins_only
    m ← or_throw (find_membership account org w.accounts) account_missing
    require (not (is_admin_of m w.accounts)) higher_tier
    ok (record w {
      accounts = with_hash account (some (make_password_hash p password)) w.accounts;
      audits =
          w.audits
          ++ record {
            org_id = org;
            actor_id = some acting;
            action = lit "password_reset";
            resource_type = lit "user";
            resource_id = account;
            details = field (lit "targetEmail") (str (email_of account w.accounts)) end;
            ip = none;
          }
            ∷ [];
    })
