-- ===== src/Organisations/Inversions.antt =====
-- orgs.service.ts: the state after an operation that succeeds, and the administrators that it keeps.
use mastermind_7dtd_ai_serve.Base.{
  ℕ, suc, ◌≤◌, ◌≡◌, refl, sym, ap, ◌∙◌, Bool, ◌&&◌, Option, none, some, [], ◌∷◌, ◌++◌, arith, ◌==◌,
  inl, inr, is_some, Bool-cases, Option-cases, find_first-append, count_where, count_where-append,
}
use mastermind_7dtd_ai_serve.Base.Text.{Text, text_eq, trim, to_lower}
use mastermind_7dtd_ai_serve.Base.Result.{ok, ok-injective}
use mastermind_7dtd_ai_serve.Passwords.{Secrets, make_password_hash}
use mastermind_7dtd_ai_serve.Accounts.{
  UserOrg, Role, Accounts, role_from, resolve_role, add_user, find_user,
}
use mastermind_7dtd_ai_serve.Guards.{find_membership}
use mastermind_7dtd_ai_serve.Organisations.{
  Directory, admin, find_role, count_admins_from, is_admin_of, admin_from, find_org_slug,
  admin_count, with_hash, create_org, create_account, reset_account_password,
}
use mastermind_7dtd_ai_serve.Organisations.Admins.{counted, admin_count_as}

module _ (p : Secrets) where
  pub create_account_inv :
      (org : ℕ) (email password : Text) (name : Option Text) (role : Text) (i : ℕ)
      (w w' : Directory)
      → create_account p org email password name role w ≡ ok (i, w')
      → let (role_id, a) = resolve_role role w.accounts in
        w'.accounts
        ≡ add_user (to_lower (trim email)) (make_password_hash p password) name org role_id a
  unfolding create_account
  create_account_inv org email password name role i w w' run =
      elim (Bool-cases (is_some (find_user (to_lower (trim email)) w.accounts.users))) [
        | inl t ↦ cc (rw (t, create_account) at run)
        | inr g ↦ sym (ap (λ r. r.1.accounts) (ok-injective (rw (g, create_account) at run)))
      ]

  pub create_org_inv :
      (name slug : Text) (user i : ℕ) (w w' : Directory)
      → create_org name slug user w ≡ ok (i, w')
      → let (role_id, a) = resolve_role admin w.accounts in
        (w'.accounts.roles ≡ a.roles)
        × (w'.accounts.next_id ≡ suc a.next_id)
        × (w'.accounts.user_orgs
            ≡ a.user_orgs ++ record { user_id = user; org_id = a.next_id; role_id = role_id } ∷ [])
  unfolding create_org
  create_org_inv name slug user i w w' run =
      let a = (resolve_role admin w.accounts).1 in
      elim (Bool-cases (is_some (find_org_slug slug w.accounts.orgs))) [
        | inl t ↦ cc (rw (t, create_org) at run)
        | inr g ↦ elim (Bool-cases (is_some (find_org_slug (to_lower (trim slug)) a.orgs))) [
          | inl t ↦ cc (rw t at (rw (g, create_org) at run))
          | inr h ↦
              let same = ok-injective (rw h at (rw (g, create_org) at run)) in
              (
                sym (ap (λ r. r.1.accounts.roles) same),
                sym (ap (λ r. r.1.accounts.next_id) same),
                sym (ap (λ r. r.1.accounts.user_orgs) same),
              )
        ]
      ]

  pub reset_account_password_inv :
      (org account acting : ℕ) (password : Text) (w w' : Directory)
      → reset_account_password p org account acting password w ≡ ok w'
      → w'.accounts ≡ with_hash account (some (make_password_hash p password)) w.accounts
  unfolding reset_account_password
  reset_account_password_inv org account acting password w w' run =
      elim (Bool-cases (account == acting)) [
        | inl t ↦ cc (rw (t, reset_account_password) at run)
        | inr g ↦
            elim (Bool-cases (admin_from (find_membership acting org w.accounts) w.accounts)) [
              | inl t ↦ elim (Option-cases (find_membership account org w.accounts)) [
                | inl e ↦ cc (rw (e, t) at (rw (g, reset_account_password) at run))
                | inr (m, e) ↦ elim (Bool-cases (is_admin_of m w.accounts)) [
                  | inl u ↦ cc (rw u at (rw (e, t) at (rw (g, reset_account_password) at run)))
                  | inr v ↦ sym (
                      ap (λ r. r.accounts)
                        (ok-injective
                          (rw v at (rw (e, t) at (rw (g, reset_account_password) at run)))))
                ]
              ]
              | inr f ↦ cc (rw f at (rw (g, reset_account_password) at run))
            ]
      ]

-- An organisation keeps its administrators where the administrators' role and the memberships stay.
kept_admin :
    (o : ℕ) (a a' : Accounts)
    → 1 ≤ admin_count o a
    → ((r : Role) → find_role admin a.roles ≡ some r → find_role admin a'.roles ≡ some r)
    → ((q : UserOrg → Bool) → count_where q a.user_orgs ≤ count_where q a'.user_orgs)
    → 1 ≤ admin_count o a'
kept_admin o a a' has role more =
    let (r, e, is) = counted o 0 a has in
    let l = more (λ m. m.org_id == o && m.role_id == r.id) in
    rw (admin_count_as o a' r (role r e)) (omega arith)

role_from-find_role :
    (o : Option Role) (name : Text) (a : Accounts) (r : Role)
    → find_role admin a.roles ≡ some r
    → find_role admin (role_from o name a).1.roles ≡ some r
role_from-find_role (some x) name a r e = e
role_from-find_role none name a r e =
    find_first-append (λ x. text_eq x.name admin) a.roles
      (record { id = a.next_id; name = name } ∷ []) e

pub role_from-user_orgs :
    (o : Option Role) (name : Text) (a : Accounts)
    → (a.user_orgs ≡ (role_from o name a).1.user_orgs)
      × (a.next_id ≤ (role_from o name a).1.next_id)
role_from-user_orgs (some x) name a = (refl, omega arith)
role_from-user_orgs none name a = (refl, omega arith)

-- A membership is added to the accounts in which the role was found or made.
pub resolved_admin :
    (o : ℕ) (name : Text) (a a' : Accounts) (m : UserOrg)
    → 1 ≤ admin_count o a
    → a'.roles ≡ (resolve_role name a).1.roles
    → a'.user_orgs ≡ (resolve_role name a).1.user_orgs ++ m ∷ []
    → 1 ≤ admin_count o a'
unfolding resolve_role
resolved_admin o name a a' m has roles joined =
    let found = find_role name a.roles in
    kept_admin o a a' has (λ r e. ap (find_role admin) roles ∙ role_from-find_role found name a r e)
      (λ q.
        rw (joined, ← (role_from-user_orgs found name a).0)
          (omega (arith, count_where-append q a.user_orgs (m ∷ []))))

pub count_admins_from-with_hash :
    (r : Option Role) (o user : ℕ) (hash : Option Text) (a : Accounts)
    → count_admins_from r o (with_hash user hash a) ≡ count_admins_from r o a
count_admins_from-with_hash none o user hash a = refl
count_admins_from-with_hash (some r) o user hash a = refl
