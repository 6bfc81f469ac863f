-- ===== src/Organisations/Admins.antt =====
-- orgs.service.ts: an organisation keeps an administrator.
use mastermind_7dtd_ai_serve.Base.{
  ℕ, suc, ◌≤◌, ◌<◌, ◌≡◌, refl, sym, ap, ◌∙◌, Bool, true, false, ◌&&◌, some, arith, ◌==◌, inl, inr,
  leb, Bool-cases, Option-cases, find_first, find_first_holds, find_first_unique, find_first-found,
  delete_where, count_where, count_where-delete_one, All,
}
use mastermind_7dtd_ai_serve.Base.Text.{Text, lit, text_eq}
use mastermind_7dtd_ai_serve.Base.Result.{ok, ok-injective}
use mastermind_7dtd_ai_serve.Accounts.{UserOrg, Role, Accounts}
use mastermind_7dtd_ai_serve.Guards.{role_of, is_member, find_membership}
use mastermind_7dtd_ai_serve.Organisations.{
  Directory, admin, is_admin_of, find_role, admin_count, without_account, delete_account,
}

-- The unique constraints of the database on memberships and roles, and fresh ids.
pub record IsRegistry (a : Accounts) : Type 0 where
  pub members : (u o : ℕ) → count_where (is_member u o) a.user_orgs ≤ 1
  pub role_names : (t : Text) → count_where (λ r. text_eq r.name t) a.roles ≤ 1
  pub role_ids : (i : ℕ) → count_where (λ r. r.id == i) a.roles ≤ 1
  pub fresh_roles : All (λ r. r.id < a.next_id) a.roles
  pub fresh_users : All (λ m. m.user_id < a.next_id) a.user_orgs
  pub fresh_orgs : All (λ m. m.org_id < a.next_id) a.user_orgs

-- A membership is an administrator's exactly if its role is the one named so.
is_admin_of-role :
    (a : Accounts) (m : UserOrg) (r : Role)
    → IsRegistry a
    → find_role admin a.roles ≡ some r
    → is_admin_of m a ≡ (m.role_id == r.id)
unfolding role_of text_eq lit
is_admin_of-role a m r ok_a e =
    let by_id : Role → Bool = λ x. x.id == m.role_id in
    let by_name : Role → Bool = λ x. text_eq x.name admin in
    let named : text_eq r.name admin ≡ true = find_first_holds by_name a.roles e in
    elim (Option-cases (find_first by_id a.roles)) [
      | inl none_found ↦ elim (Bool-cases (m.role_id == r.id)) [
        | inl t ↦ let (b, f) = find_first-found by_name by_id a.roles e (ground arith) in cc
        | inr g ↦ rw (none_found, g) refl
      ]
      | inr (x, found) ↦
          let xid : x.id ≡ m.role_id = ground (arith, find_first_holds by_id a.roles found) in
          elim (Bool-cases (m.role_id == r.id)) [
            | inl t ↦
                let same : r ≡ x =
                  find_first_unique by_name by_id a.roles e found (ground arith)
                    (ok_a.role_ids m.role_id) in
                rw (found, ← same, named, t) refl
            | inr g ↦ elim (Bool-cases (text_eq x.name admin)) [
              | inl u ↦
                  let same : x ≡ r =
                    find_first_unique by_id by_name a.roles found e u (ok_a.role_names admin) in
                  let rid : x.id ≡ r.id = ap (λ y. y.id) same in absurd (ground arith)
              | inr v ↦ rw (found, v, g) refl
            ]
          ]
    ]

pub delete_account_inv :
    (org account acting : ℕ) (w w' : Directory) (only : Bool)
    → delete_account org account acting w ≡ ok (only, w')
    → (m : UserOrg) × (find_membership account org w.accounts ≡ some m)
      × ((is_admin_of m w.accounts && leb (admin_count org w.accounts) 1) ≡ false)
      × (w' ≡ without_account org account only w)
unfolding delete_account
delete_account_inv org account acting w w' only run = elim (Bool-cases (account == acting)) [
  | inl t ↦ cc (rw (t, delete_account) at run)
  | inr g ↦ elim (Option-cases (find_membership account org w.accounts)) [
    | inl e ↦ cc (rw (g, e, delete_account) at run)
    | inr (m, e) ↦
        elim (Bool-cases (is_admin_of m w.accounts && leb (admin_count org w.accounts) 1)) [
          | inl t ↦ cc (rw t at (rw (g, e, delete_account) at run))
          | inr h ↦
              let pair = ok-injective (rw h at (rw (g, e, delete_account) at run)) in
              (
                m,
                e,
                h,
                sym (ap (λ r. r.1) pair)
                    ∙ ap (λ b. without_account org account b w) (ap (λ r. r.0) pair),
              )
        ]
  ]
]

pub without_account-roles :
    (org account : ℕ) (only : Bool) (w : Directory)
    → (without_account org account only w).accounts.roles ≡ w.accounts.roles
unfolding without_account
without_account-roles org account true w = refl
without_account-roles org account false w = refl

pub without_account-user_orgs :
    (org account : ℕ) (only : Bool) (w : Directory)
    → (without_account org account only w).accounts.user_orgs
      ≡ delete_where (is_member account org) w.accounts.user_orgs
unfolding without_account
without_account-user_orgs org account true w = refl
without_account-user_orgs org account false w = refl

pub without_account-next_id :
    (org account : ℕ) (only : Bool) (w : Directory)
    → (without_account org account only w).accounts.next_id ≡ w.accounts.next_id
unfolding without_account
without_account-next_id org account true w = refl
without_account-next_id org account false w = refl

-- The administrators of each organisation, by the administrators' role.
pub counted :
    (o n : ℕ) (a : Accounts)
    → suc n ≤ admin_count o a
    → (r : Role) × (find_role admin a.roles ≡ some r)
      × (admin_count o a ≡ count_where (λ m. m.org_id == o && m.role_id == r.id) a.user_orgs)
unfolding admin_count
counted o n a h = elim (Option-cases (find_role admin a.roles)) [
  | inl e ↦ absurd (let k = rw e at h in omega arith)
  | inr (r, e) ↦ (r, e, rw e refl)
]

pub admin_count_as :
    (o : ℕ) (a : Accounts) (r : Role)
    → find_role admin a.roles ≡ some r
    → admin_count o a ≡ count_where (λ m. m.org_id == o && m.role_id == r.id) a.user_orgs
unfolding admin_count
admin_count_as o a r e = rw e refl

pub delete_account-HasAdmin :
    (o org account acting : ℕ) (w w' : Directory) (only : Bool)
    → delete_account org account acting w ≡ ok (only, w')
    → IsRegistry w.accounts
    → 1 ≤ admin_count o w.accounts
    → 1 ≤ admin_count o w'.accounts
delete_account-HasAdmin o org account acting w w' only run registry has =
    let a = w.accounts in
    let (r, e, is) = counted o 0 a has in
    let (m, found, kept, is') = delete_account_inv org account acting w w' only run in
    let q : UserOrg → Bool = λ x. x.org_id == o && x.role_id == r.id in
    let after : admin_count o w'.accounts
        ≡ count_where q (delete_where (is_member account org) a.user_orgs) =
      ap (λ (v : Directory). admin_count o v.accounts) is'
      ∙ admin_count_as o (without_account org account only w).accounts r
          (ap (find_role admin) (without_account-roles org account only w) ∙ e)
      ∙ ap (count_where q) (without_account-user_orgs org account only w) in
    let one =
      count_where-delete_one (is_member account org) q a.user_orgs found
        (registry.members account org) in
    let here = find_first_holds (is_member account org) a.user_orgs found in
    let role = is_admin_of-role a m r registry e in
    elim (Bool-cases (q m)) [
      | inl t ↦
          let same : o ≡ org = ground arith in
          let flag : is_admin_of m a ≡ true = role ∙ ground arith in
          let two : leb (admin_count org a) 1 ≡ false = ground (arith, flag, kept) in
          let moved : admin_count o a ≡ admin_count org a = ap (λ i. admin_count i a) same in
          rw after (ground (arith, one, two, moved, is, t))
      | inr g ↦ rw after (ground (arith, one, is, has, g))
    ]
