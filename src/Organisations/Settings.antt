-- ===== src/Organisations/Settings.antt =====
-- orgs.service.ts: updateOrg, and the settings of the OpenAI and Kimi integrations. The encryption of a key
-- is a parameter.
use mastermind_7dtd_ai_serve.Base.{
  ℕ, Bool, true, not, ◌&&◌, ◌||◌, Option, none, some, [], ◌∷◌, ◌++◌, ◌==◌, leb, is_some, or_default,
  find_first, update_where,
}
use mastermind_7dtd_ai_serve.Base.Text.{Text, lit, trim, is_digit}
use mastermind_7dtd_ai_serve.Base.Result.{Result, ok, ◌>>=◌, ◌>>◌, require, or_throw}
use mastermind_7dtd_ai_serve.Schema.{bool, str, Fields, end, field}
use mastermind_7dtd_ai_serve.JsonValues.{filled}
use mastermind_7dtd_ai_serve.Guards.{find_membership}
use mastermind_7dtd_ai_serve.Organisations.{
  OrgSettings, Directory, OrgError, not_a_member, org_missing, key_required, bad_model, admins_only,
  is_admin_of,
}

abbrev find_settings : ℕ → Directory → Option OrgSettings
find_settings i w = find_first (λ s. s.id == i) w.settings

abbrev set_settings : ℕ → (OrgSettings → OrgSettings) → Directory → Directory
set_settings i f w = record w { settings = update_where (λ s. s.id == i) f w.settings }

-- `undefined` leaves the column, and the empty text clears it.
abbrev cleared : Option Text → Option Text → Option Text
cleared none old = old
cleared (some t) old = filled (some t)

pub record OrgUpdate : Type 0 where
  pub discord_webhook_url : Option Text
  pub frigate_url : Option Text
  pub frigate_api_key : Option Text
  pub frigate_webhook_secret : Option Text
  pub avoid_blood_moon_restart : Option Bool

abbrev updated_org : OrgUpdate → OrgSettings → OrgSettings
updated_org u s = record s {
  discord_webhook_url = cleared u.discord_webhook_url s.discord_webhook_url;
  frigate_url = cleared u.frigate_url s.frigate_url;
  frigate_api_key = cleared u.frigate_api_key s.frigate_api_key;
  frigate_webhook_secret = cleared u.frigate_webhook_secret s.frigate_webhook_secret;
  avoid_blood_moon_restart = or_default u.avoid_blood_moon_restart s.avoid_blood_moon_restart;
}

unfoldable pub update_org : ℕ → ℕ → OrgUpdate → Directory → Result OrgError Directory
update_org org user u w = do
  m ← or_throw (find_membership user org w.accounts) not_a_member
  require (not (is_some u.avoid_blood_moon_restart && not (is_admin_of m w.accounts))) admins_only
  s ← or_throw (find_settings org w) org_missing
  ok (set_settings org (updated_org u) w)

abbrev is_letter : ℕ → Bool
is_letter c = (leb b'a' c && leb c b'z') || (leb b'A' c && leb c b'Z')

abbrev every : (ℕ → Bool) → Text → Bool
every p [] = true
every p (c ∷ s) = p c && every p s

-- `/^[a-zA-Z0-9._-]+$/`, and with a slash for Kimi.
unfoldable pub is_openai_model : Text → Bool
is_openai_model s =
    is_some (filled (some s))
    && every (λ c. is_letter c || is_digit c || c == b'.' || c == b'_' || c == b'-') s

unfoldable pub is_kimi_model : Text → Bool
is_kimi_model s =
    is_some (filled (some s))
    && every (λ c. is_letter c || is_digit c || c == b'.' || c == b'_' || c == b'/' || c == b'-') s

unfoldable pub settings_audit : Text → ℕ → ℕ → Fields → Directory → Directory
settings_audit action org user details w = record w {
  audits =
      w.audits
      ++ record {
        org_id = org;
        actor_id = some user;
        action = action;
        resource_type = lit "org";
        resource_id = org;
        details = details;
        ip = none;
      }
        ∷ [];
}

abbrev model_details : Text → Option Text → Fields
model_details model key =
    field (lit "model") (str model) (field (lit "keyReplaced") (bool (is_some (filled key))) end)

unfoldable pub clear_openai_settings : ℕ → Directory → Result OrgError Directory
clear_openai_settings org w = do
  s ← or_throw (find_settings org w) org_missing
  ok (set_settings org (λ x. record x { openai_api_key_encrypted = none }) w)

unfoldable pub clear_kimi_settings : ℕ → Directory → Result OrgError Directory
clear_kimi_settings org w = do
  s ← or_throw (find_settings org w) org_missing
  ok (
      set_settings org
        (λ x. record x { kimi_api_key_encrypted = none; mod_ai_provider = lit "codex" }) w)

pub data Provider : Type 0 where
  codex kimi : Provider

abbrev provider_text : Provider → Text
provider_text codex = lit "codex"
provider_text kimi = lit "kimi"

abbrev key_of : Provider → OrgSettings → Option Text
key_of codex s = s.openai_api_key_encrypted
key_of kimi s = s.kimi_api_key_encrypted

unfoldable pub select_mod_ai_provider : ℕ → ℕ → Provider → Directory → Result OrgError Directory
select_mod_ai_provider org user provider w = do
  s ← or_throw (find_settings org w) org_missing
  require (is_some (filled (key_of provider s))) key_required
  ok (
      settings_audit (lit "mod_ai_provider_selected") org user
        (field (lit "provider") (str (provider_text provider)) end)
        (set_settings org (λ x. record x { mod_ai_provider = provider_text provider }) w))

module _ (encrypt : Text → Text) where
  -- `...(input.apiKey ? { key: encrypt(input.apiKey.trim()) } : {})`.
  abbrev new_key : Option Text → Option Text → Option Text
  new_key key old = elim (filled key) [ none ↦ old | some k ↦ some (encrypt (trim k)) ]

  unfoldable pub save_openai_settings :
      ℕ → ℕ → Option Text → Text → Directory → Result OrgError Directory
  save_openai_settings org user key model w = do
    s ← or_throw (find_settings org w) org_missing
    require (is_some (filled key) || is_some (filled s.openai_api_key_encrypted)) key_required
    let name = trim model
    require (is_openai_model name) bad_model
    ok (
        settings_audit (lit "openai_settings_updated") org user (model_details name key) (
          set_settings org
            (λ x. record x {
              openai_model = name;
              openai_api_key_encrypted = new_key key x.openai_api_key_encrypted;
            })
            w))

  unfoldable pub save_kimi_settings :
      ℕ → ℕ → Option Text → Text → Directory → Result OrgError Directory
  save_kimi_settings org user key model w = do
    s ← or_throw (find_settings org w) org_missing
    require (is_some (filled key) || is_some (filled s.kimi_api_key_encrypted)) key_required
    let name = trim model
    require (is_kimi_model name) bad_model
    ok (
        settings_audit (lit "kimi_settings_updated") org user (model_details name key) (
          set_settings org
            (λ x. record x {
              kimi_model = name;
              kimi_api_key_encrypted = new_key key x.kimi_api_key_encrypted;
            })
            w))
