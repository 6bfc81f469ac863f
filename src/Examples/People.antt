-- ===== src/Examples/People.antt =====
-- A player with a record under the name and one under a stable identity, and a user who changes a password.
use mastermind_7dtd_ai_serve.Base.{
  map, length, ap, List, ◌-◌, ◌≢◌, ℕ, ◌+◌, ◌≡◌, refl, false, none, some, [], ◌∷◌, arith, find_first,
}
use mastermind_7dtd_ai_serve.Base.Text.{Text, lit, text_eq, has_unit, split}
use mastermind_7dtd_ai_serve.Base.Result.{ok, err}
use mastermind_7dtd_ai_serve.Players.{Player, Roster, starts_with}
use mastermind_7dtd_ai_serve.Accounts.{
  User, Accounts, invalid_login, find_user, Session, login, change_password,
}
use mastermind_7dtd_ai_serve.Passwords.{Secrets, make_password_hash, verify_password, verify_scrypt}
use mastermind_7dtd_ai_serve.Passwords.RoundTrip.{IsHex}
use mastermind_7dtd_ai_serve.Accounts.Login.{change_password-login}
use mastermind_7dtd_ai_serve.Examples.Waves.{ok_or}

abbrev player : ℕ → Text → ℕ → Player
player i key seconds = record {
  id = i;
  instance_id = 1;
  identity_key = key;
  steam_id = none;
  eos_id = none;
  name = lit "Ada";
  online = false;
  current_session_started_at = none;
  lifetime_seconds = seconds;
  zombie_kills = 5;
  player_kills = 0;
  deaths = 1;
  level = 2;
  first_seen_at = i;
  last_seen_at = i + 100;
}

abbrev by_name : Player
by_name = player 8 (lit "name:ada") 60

abbrev by_steam : Player
by_steam = player 9 (lit "steam:1") 600

abbrev roster : Roster
roster = record {
  players = by_name ∷ by_steam ∷ [];
  sessions =
      record {
        id = 1;
        player_id = 8;
        started_at = 0;
        ended_at = some 60000;
        duration_seconds = some 60;
      }
      ∷ [];
}

-- Texts that stand for hexadecimal ones, without a dollar sign.
abbrev pub marked : Secrets
marked = record {
  salt = lit "ab";
  scrypt = λ t salt. t;
  sha256 = λ t. t;
  to_hex = map (λ n. n + 37);
  from_hex = map (λ n. n - 37);
  issue_token = λ u o. [];
}

marked_plain : (bytes : List ℕ) → has_unit 36 (map (λ n. n + 37) bytes) ≡ false
unfolding has_unit
marked_plain [] = refl
marked_plain (b ∷ bytes) = ground (arith, marked_plain bytes)

marked_back : (bytes : List ℕ) → map (λ n. n - 37) (map (λ n. n + 37) bytes) ≡ bytes
marked_back [] = refl
marked_back (b ∷ bytes) =
    let same : b + 37 - 37 ≡ b = omega arith in rw same (ap (λ r. b ∷ r) (marked_back bytes))

marked-IsHex : IsHex marked (lit "new")
unfolding lit has_unit
marked-IsHex = record {
  salt_plain = refl;
  hex_plain = marked_plain;
  read_back = marked_back;
  salted = λ e. cc;
  hashed = λ e. cc;
}

abbrev user : User
user = record {
  id = 5;
  email = lit "a@b";
  name = none;
  password_hash = some (make_password_hash marked (lit "old"));
}

abbrev accounts : Accounts
accounts = record {
  users = user ∷ [];
  user_orgs = record { user_id = 5; org_id = 7; role_id = 2 } ∷ [];
  roles = [];
  orgs = [];
  next_id = 10;
}

abbrev after_change : Accounts
after_change = ok_or (change_password marked 5 (lit "old") (lit "new") accounts) accounts

account_facts :
    (find_user (lit "a@b") accounts.users ≡ some user)
    × (change_password marked 5 (lit "old") (lit "new") accounts ≡ ok after_change)
unfolding change_password find_first text_eq lit make_password_hash verify_password verify_scrypt
    split starts_with
account_facts = (refl, refl)

wrong_new : lit "wrong" ≢ lit "new"
unfolding lit
wrong_new e = let n : ◌≡◌ {A = ℕ} 5 3 = ap length e in omega arith

change_password-login_example :
    ((s : Session) × (w'' : Accounts) × (login marked (lit "a@b") (lit "new") after_change
        ≡ ok (s, w''))
      × (s.user_id ≡ 5))
    × (login marked (lit "a@b") (lit "wrong") after_change ≡ err invalid_login)
change_password-login_example =
    change_password-login marked 5 (lit "old") (lit "new") (lit "wrong") (lit "a@b") user accounts
      after_change marked-IsHex wrong_new account_facts.0 refl account_facts.1
