-- ===== src/Organisations/History.antt =====
-- orgs.service.ts: histories of the operations on accounts and organisations.
use mastermind_7dtd_ai_serve.Base.{ℕ, ◌≤◌, ◌<◌, ◌≡◌, Bool, Option}
use mastermind_7dtd_ai_serve.Base.Text.{Text}
use mastermind_7dtd_ai_serve.Base.Result.{ok}
use mastermind_7dtd_ai_serve.Passwords.{Secrets}
use mastermind_7dtd_ai_serve.Accounts.{Accounts}
use mastermind_7dtd_ai_serve.Organisations.{
  Directory, admin_count, create_org, delete_account, create_account, reset_account_password,
}
use mastermind_7dtd_ai_serve.Organisations.Admins.{IsRegistry}

module _ (p : Secrets) where
  -- One operation that succeeds. The user who makes an organisation has an id already.
  pub data Step : Directory → Directory → Type 0 where
    account_created :
        {w w' : Directory} (org : ℕ) (email password : Text) (name : Option Text) (role : Text)
        (i : ℕ)
        → org < w.accounts.next_id
        → create_account p org email password name role w ≡ ok (i, w')
        → Step w w'
    account_deleted :
        {w w' : Directory} (org account acting : ℕ) (only : Bool)
        → delete_account org account acting w ≡ ok (only, w')
        → Step w w'
    password_reset :
        {w w' : Directory} (org account acting : ℕ) (password : Text)
        → reset_account_password p org account acting password w ≡ ok w'
        → Step w w'
    org_created :
        {w w' : Directory} (name slug : Text) (user i : ℕ)
        → user < w.accounts.next_id
        → create_org name slug user w ≡ ok (i, w')
        → Step w w'

  pub data History : Directory → Directory → Type 0 where
    done : {w : Directory} → History w w
    step : {w w1 w' : Directory} → Step w w1 → History w1 w' → History w w'

-- What a step keeps: the constraints, and an administrator of `o`.
abbrev Keeps : ℕ → Accounts → Type 0
Keeps o a = IsRegistry a × (1 ≤ admin_count o a)
