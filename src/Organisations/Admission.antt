-- ===== src/Organisations/Admission.antt =====
-- orgs.service.ts deleteAccount and the guards of server-instances/guards: tokens are not revoked, and a deleted
-- account's token is refused by the membership.
use mastermind_7dtd_ai_serve.Base.{
  ℕ, ◌≡◌, refl, ap, ◌∙◌, Bool, true, false, ◌&&◌, inl, inr, Option, none, List, [], ◌∷◌, arith,
  ◌==◌, if◌then◌else◌, Bool-cases, find_first, find_first-none, delete_where, delete_where-All,
}
use mastermind_7dtd_ai_serve.Base.Text.{Text}
use mastermind_7dtd_ai_serve.Base.Result.{Result, ok, err, or_throw, ◌>>=◌, Result-cases}
use mastermind_7dtd_ai_serve.Accounts.{UserOrg, Role}
use mastermind_7dtd_ai_serve.Guards.{
  GuardError, not_a_member, role_of, role_name_from, is_member, find_membership, org_member,
  jwt_auth, authorize,
}
use mastermind_7dtd_ai_serve.Organisations.{Directory, without_account, delete_account}
use mastermind_7dtd_ai_serve.Organisations.Admins.{
  delete_account_inv, without_account-roles, without_account-user_orgs,
}

-- A search for rows that are not deleted.
find_first-delete_apart :
    (p q : UserOrg → Bool) (xs : List UserOrg)
    → ((x : UserOrg) → p x ≡ true → q x ≡ false)
    → find_first p (delete_where q xs) ≡ find_first p xs
unfolding find_first delete_where
find_first-delete_apart p q [] apart = refl
find_first-delete_apart p q (x ∷ xs) apart = elim (Bool-cases (p x)) [
  | inl t ↦ rw (apart x t) (rw t refl)
  | inr g ↦ elim (Bool-cases (q x)) [
    | inl u ↦ rw u (rw g (find_first-delete_apart p q xs apart))
    | inr v ↦ rw v (rw g (find_first-delete_apart p q xs apart))
  ]
]

-- The membership's role after a deletion.
org_member_deleted :
    (user o org account : ℕ) (only : Bool) (w : Directory)
    → (user == account && o == org) ≡ true
    → org_member user o (without_account org account only w).accounts ≡ err not_a_member
unfolding org_member
org_member_deleted user o org account only w h =
    let at_user : user ≡ account = ground arith in
    let at_org : o ≡ org = ground arith in
    let gone : find_membership user o (without_account org account only w).accounts ≡ none =
      rw (at_user, at_org)
        (ap (find_first (is_member account org)) (without_account-user_orgs org account only w)
          ∙ find_first-none (is_member account org) _
              (delete_where-All (is_member account org) w.accounts.user_orgs)) in
    rw gone refl

org_member_kept :
    (user o org account : ℕ) (only : Bool) (w : Directory)
    → (user == account && o == org) ≡ false
    → org_member user o (without_account org account only w).accounts ≡ org_member user o w.accounts
unfolding org_member role_of
org_member_kept user o org account only w h =
    let same : find_first (is_member user o) (without_account org account only w).accounts.user_orgs
        ≡ find_first (is_member user o) w.accounts.user_orgs =
      ap (find_first (is_member user o)) (without_account-user_orgs org account only w)
      ∙ find_first-delete_apart (is_member user o) (is_member account org) w.accounts.user_orgs
          (λ m t. ground arith) in
    let roles = without_account-roles org account only w in
    λ i.
      or_throw (same i) not_a_member
      >>= (λ m. ok (role_name_from (find_first (λ (r : Role). r.id == m.role_id) (roles i))))

-- Whether the token is the account's.
abbrev pub is_from : ℕ → Result GuardError ℕ → Bool
is_from account (err e) = false
is_from account (ok user) = user == account

-- After an account was deleted from an organisation: a request for the organisation with a token of the
-- account is refused since the user is not a member, and every other request has the answer that it had before.
pub delete_account-authorize :
    (verify : Text → Option ℕ) (required : Option (List Text)) (auth : Option Text)
    (org o account acting : ℕ) (w w' : Directory) (only : Bool)
    → delete_account org account acting w ≡ ok (only, w')
    → authorize verify required auth o w'.accounts ≡ (
        if is_from account (jwt_auth verify auth) && o == org
        then err not_a_member
        else authorize verify required auth o w.accounts)
unfolding authorize
delete_account-authorize verify required auth org o account acting w w' only run =
    let (m, found, kept, after) = delete_account_inv org account acting w w' only run in
    elim (Result-cases (jwt_auth verify auth)) [
      | inr (e, bad) ↦ rw bad refl
      | inl (user, good) ↦ elim (Bool-cases (user == account && o == org)) [
        | inl t ↦ rw (after, good, t, org_member_deleted user o org account only w t) refl
        | inr g ↦ rw (after, good, g, org_member_kept user o org account only w g) refl
      ]
    ]
