-- ===== src/Accounts/Login.antt =====
-- auth.service.ts: a password that was set is the one that logs in.
use mastermind_7dtd_ai_serve.Base.{
  ℕ, ◌≡◌, refl, sym, ◌∙◌, ap, ◌≢◌, [], ◌∷◌, false, Bool, true, some, ◌==◌, arith, inl, inr,
  Bool-cases, Option-cases, if◌then◌else◌, find_first, update_where, find_first-update_kept,
}
use mastermind_7dtd_ai_serve.Base.Text.{Text, text_eq, text_eq_iff, text_eq_refl}
use mastermind_7dtd_ai_serve.Base.Result.{ok, err, ok-injective}
use mastermind_7dtd_ai_serve.Passwords.{Secrets, make_password_hash, verify_password}
use mastermind_7dtd_ai_serve.Passwords.RoundTrip.{IsHex, verify_made, made_filled}
use mastermind_7dtd_ai_serve.Accounts.{
  User, Accounts, invalid_login, find_user, Session, login, change_password, filled_hash,
  org_of_user,
}

module _ (p : Secrets) where
  change_inv :
      (i : ℕ) (current new : Text) (w : Accounts) {w' : Accounts}
      → change_password p i current new w ≡ ok w'
      → record w {
        users =
            update_where
              (λ u. u.id == i)
              (λ u. record u { password_hash = some (make_password_hash p new) })
              w.users;
      }
        ≡ w'
  unfolding change_password
  change_inv i current new w h =
      elim (Option-cases (find_first (λ (u : User). u.id == i) w.users)) [
        | inl gone ↦ cc (rw (gone, change_password) at h)
        | inr (u, found) ↦ elim (Option-cases (filled_hash u.password_hash)) [
          | inl empty ↦ cc (rw (found, change_password, empty) at h)
          | inr (hash, has) ↦ elim (Bool-cases (verify_password p current hash)) [
            | inr bad ↦ cc (rw (found, change_password, has, bad) at h)
            | inl good ↦ elim (Bool-cases (text_eq current new)) [
              | inl equal ↦ cc (rw (found, change_password, has, good, equal) at h)
              | inr other ↦ ok-injective (rw (found, change_password, has, good, other) at h)
            ]
          ]
        ]
      ]

  login_ok :
      (email password hash : Text) (w : Accounts) (v : User)
      → find_user email w.users ≡ some v
      → filled_hash v.password_hash ≡ some hash
      → verify_password p password hash ≡ true
      → (s : Session) × (w'' : Accounts) × (login p email password w ≡ ok (s, w''))
        × (s.user_id ≡ v.id)
  unfolding login
  login_ok email password hash w v found has good =
      let org = org_of_user p (find_first (λ m. m.user_id == v.id) w.user_orgs) w in
      (
        record { access_token = p.issue_token v.id org.0; user_id = v.id; org_id = org.0 },
        org.1,
        rw (found, login, has, good) refl,
        refl,
      )

  filled_text : (s : Text) → s ≢ [] → filled_hash (some s) ≡ some s
  filled_text [] n = absurd (n refl)
  filled_text (c ∷ s) n = refl

  -- With hexadecimal texts as in `IsHex`: after a user's password was changed, a login under the user's
  -- email is accepted with the new password, for that user, and refused with any password that `scrypt`
  -- does not map, with the salt drawn, to the same bytes as the new one.
  pub change_password-login :
      (i : ℕ) (current new other email : Text) (u : User) (w w' : Accounts)
      → IsHex p new
      → p.scrypt other p.salt ≢ p.scrypt new p.salt
      → find_user email w.users ≡ some u
      → u.id ≡ i
      → change_password p i current new w ≡ ok w'
      → ((s : Session) × (w'' : Accounts) × (login p email new w' ≡ ok (s, w'')) × (s.user_id ≡ i))
        × (login p email other w' ≡ err invalid_login)
  unfolding login
  change_password-login i current new other email u w w' hex apart found id_i h =
      let made = make_password_hash p new in
      let set : User → User = λ x. record x { password_hash = some made } in
      let kept : find_user email (update_where (λ x. x.id == i) set w.users)
          ≡ some (if u.id == i then set u else u) =
        find_first-update_kept (λ x. text_eq x.email email) (λ x. x.id == i) set w.users (λ x. refl)
          found in
      let hit : (u.id == i) ≡ true = ground (arith, id_i) in
      let now : find_user email w'.users ≡ some (set u) =
        ap (λ v. find_user email v.users) (sym (change_inv i current new w h))
        ∙ kept
        ∙ ap (λ (b : Bool). some (if b then set u else u)) hit in
      let filled : filled_hash (some made) ≡ some made = filled_text made (made_filled p new hex) in
      let good : verify_password p new made ≡ true =
        verify_made p new hex new ∙ text_eq_refl (p.scrypt new p.salt) in
      let bad : verify_password p other made ≡ false =
        verify_made p new hex other ∙ differ (p.scrypt other p.salt) (p.scrypt new p.salt) apart in
      let (s, w'', in', who) = login_ok email new made w' (set u) now filled good in
      ((s, w'', in', who ∙ id_i), rw (now, login, filled, bad) refl)
    where
      differ : (a b : Text) → a ≢ b → text_eq a b ≡ false
      differ a b n = elim (Bool-cases (text_eq a b)) [
        | inr g ↦ g
        | inl t ↦ absurd (n ((text_eq_iff a b).0 t))
      ]
