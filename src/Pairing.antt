-- ===== src/Pairing.antt =====
-- control-plane/src/pairing: pairing.service.ts (pairing tokens, agent keys and their rotation) and
-- agent-auth.guard.ts. The hash, the random token, the key signer and the ISO form of a date are the
-- platform's: parameters.
pub mod Keys
use mastermind_7dtd_ai_serve.Base.{
  ℕ, zero, suc, ◌+◌, ◌*◌, Bool, true, false, not, ◌&&◌, ◌||◌, Option, none, some, List, [], ◌∷◌,
  ◌++◌, ◌==◌, leb, ltb, if◌then◌else◌, or_default, is_some, found_is, take, find_first,
  update_where,
}
use mastermind_7dtd_ai_serve.Base.Text.{Text, lit, text_eq, trim}
use mastermind_7dtd_ai_serve.Base.Result.{Result, ok, err, ◌>>=◌, ◌>>◌, require, or_throw}
use mastermind_7dtd_ai_serve.Schema.{num, str, Fields, end, field}
use mastermind_7dtd_ai_serve.Fleet.{
  Host, PairingToken, AuditRow, Fleet, FleetError, invalid_token, token_used, token_expired,
  invalid_agent_token, host_mismatch, key_rotated, key_unreadable, missing_header, access_denied,
  find_host, text_field,
}

-- The claims of a JSON web token, as read back: each may be missing.
pub record Claims : Type 0 where
  pub sub : Option ℕ
  pub org_id : Option ℕ
  pub key_version : Option ℕ
  pub type : Option Text

-- What the platform provides. `verify` is `none` where the library throws.
pub record Platform : Type 0 where
  pub hash : Text → Text
  pub iso : ℕ → Text
  pub sign : Claims → Text
  pub verify : Text → Option Claims

abbrev default_expires_in_sec : ℕ
default_expires_in_sec = 900

abbrev agent_type : Text
agent_type = lit "agent"

abbrev is_agent : Option Text → Bool
is_agent none = false
is_agent (some t) = text_eq t agent_type

-- `a || b` on an optional text: the empty text is falsy.
abbrev text_or : Option Text → Text → Text
text_or none b = b
text_or (some []) b = b
text_or (some (c ∷ s)) b = c ∷ s

abbrev trimmed : Option Text → Option Text
trimmed none = none
trimmed (some t) = some (trim t)

abbrev pub agent_claims : ℕ → ℕ → ℕ → Claims
agent_claims host org version = record {
  sub = some host;
  org_id = some org;
  key_version = some version;
  type = some agent_type;
}

abbrev with_bearer : Text → Option Text
with_bearer (a ∷ b ∷ c ∷ d ∷ e ∷ f ∷ g ∷ s) =
    if text_eq (a ∷ b ∷ c ∷ d ∷ e ∷ f ∷ g ∷ []) (lit "Bearer ") then some s else none
with_bearer _ = none

-- `auth?.startsWith('Bearer ') ? auth.slice(7) : null`, and not empty.
abbrev non_empty : Option Text → Option Text
non_empty (some (c ∷ s)) = some (c ∷ s)
non_empty _ = none

unfoldable pub bearer_token : Option Text → Option Text
bearer_token none = none
bearer_token (some auth) = non_empty (with_bearer auth)

module _ (p : Platform) where
  -- `createToken` with the random token; the token and its time of expiry are returned.
  unfoldable pub create_token : ℕ → Text → ℕ → ℕ → Option ℕ → Fleet → (Text × ℕ) × Fleet
  create_token now plain org user expires w =
      let expires_at = now + or_default expires default_expires_in_sec * 1000 in
      (
        (plain, expires_at),
        record w {
          tokens =
              w.tokens
              ++ record {
                id = w.next_id;
                org_id = org;
                token_hash = p.hash plain;
                expires_at = expires_at;
                used_at = none;
                created_by = user;
                used_by_host = none;
              }
                ∷ [];
          next_id = suc w.next_id;
        },
      )

  unfoldable pub sign_agent_key : ℕ → ℕ → ℕ → Text
  sign_agent_key host org version = p.sign (agent_claims host org version)

  unfoldable pub host_name : ℕ → Option Text → Text
  host_name now name = text_or (trimmed name) (lit "Host " ++ take 19 (p.iso now))

  unfoldable pub paired : ℕ → Text → Option Text → PairingToken → Fleet → Fleet
  paired now name ip t w = record w {
    hosts =
        w.hosts
        ++ record {
          id = w.next_id;
          org_id = t.org_id;
          name = name;
          last_heartbeat_at = none;
          agent_version = none;
          agent_key_version = 1;
          status = some (lit "unknown");
          last_metrics = none;
          created_at = now;
        }
          ∷ [];
    tokens =
        update_where (λ x. x.id == t.id)
          (λ x. record x { used_at = some now; used_by_host = some w.next_id }) w.tokens;
    audits =
        w.audits
        ++ record {
          org_id = t.org_id;
          actor_id = none;
          action = lit "agent_pair";
          resource_type = lit "host";
          resource_id = w.next_id;
          details =
              field (lit "pairingTokenId") (num t.id)
                (field (lit "hostName") (str name) (text_field (lit "clientIp") ip end));
          ip = ip;
        }
          ∷ [];
    next_id = suc w.next_id;
  }

  -- `pair`: the new host's id and its key.
  unfoldable pub pair :
      ℕ → Text → Option Text → Option Text → Fleet → Result FleetError ((ℕ × Text) × Fleet)
  pair now token name ip w = do
    t ←
        or_throw (find_first (λ x. text_eq x.token_hash (p.hash (trim token))) w.tokens)
          invalid_token
    require (not (is_some t.used_at)) token_used
    require (not (ltb t.expires_at now)) token_expired
    ok ((w.next_id, sign_agent_key w.next_id t.org_id 1), paired now (host_name now name) ip t w)

  -- The checks on the claims' host.
  unfoldable pub check_host : ℕ → ℕ → Option ℕ → Fleet → Result FleetError ℕ
  check_host sub org version w = do
    host ← or_throw (find_host sub w.hosts) host_mismatch
    require (host.org_id == org) host_mismatch
    require (found_is version host.agent_key_version) key_rotated
    ok sub

  unfoldable pub check_claims : Claims → Fleet → Result FleetError ℕ
  check_claims c w = do
    require (is_agent c.type) invalid_agent_token
    sub ← or_throw c.sub invalid_agent_token
    org ← or_throw c.org_id invalid_agent_token
    check_host sub org c.key_version w

  -- `verifyAgentKey`, with the host that the key stands for.
  unfoldable pub verify_agent_key : Text → Fleet → Result FleetError ℕ
  verify_agent_key token w = do c ← or_throw (p.verify token) key_unreadable; check_claims c w

  -- `AgentAuthGuard.canActivate`: the host that the request is made for.
  unfoldable pub can_activate : Option Text → Fleet → Result FleetError ℕ
  can_activate auth w = do
    token ← or_throw (bearer_token auth) missing_header
    verify_agent_key token w

  unfoldable pub rotate_agent_key : ℕ → ℕ → Fleet → Result FleetError (Text × Fleet)
  rotate_agent_key org i w = do
    host ← or_throw (find_first (λ h. h.id == i && h.org_id == org) w.hosts) access_denied
    let version = host.agent_key_version + 1
    ok (
      sign_agent_key i org version,
      record w {
        hosts =
            update_where (λ h. h.id == i) (λ h. record h { agent_key_version = version }) w.hosts;
      },
    )
