-- ===== src/Pairing/Keys.antt =====
-- pairing.service.ts: a pairing token is used once, and an agent key is good until it is rotated.
use mastermind_7dtd_ai_serve.Base.{
  ℕ, ◌+◌, ◌≡◌, refl, sym, ◌∙◌, ap, ◌≢◌, Bool, ◌&&◌, Option, some, [], ◌∷◌, arith, ◌==◌, ==_refl,
  inl, inr, Bool-cases, Option-cases, is_some, find_first, update_where, ltb, All, HasDistinct,
  find_first-update_kept, find_first_holds, find_first-append_absent, find_first-update_self,
  All-find_first, All-found, ◌⊎◌, ==_iff,
}
use mastermind_7dtd_ai_serve.Base.Text.{Text, text_eq, trim, lit}
use mastermind_7dtd_ai_serve.Base.Result.{ok, err, ◌>>◌, require, ok-injective}
use mastermind_7dtd_ai_serve.Fleet.{Host, PairingToken, Fleet, token_used, key_rotated, find_host}
use mastermind_7dtd_ai_serve.Pairing.{
  Claims, Platform, agent_claims, sign_agent_key, host_name, paired, pair, check_host, check_claims,
  verify_agent_key, rotate_agent_key,
}

module _ (p : Platform) where
  -- What a successful pairing read and wrote.
  pair_inv :
      (now : ℕ) (token : Text) (name ip : Option Text) (w : Fleet) {i : ℕ} {key : Text} {w' : Fleet}
      → pair p now token name ip w ≡ ok ((i, key), w')
      → (t : PairingToken) × (find_first (λ x. text_eq x.token_hash (p.hash (trim token))) w.tokens
          ≡ some t)
        × (i ≡ w.next_id)
        × (key ≡ sign_agent_key p w.next_id t.org_id 1)
        × (paired p now (host_name p now name) ip t w ≡ w')
  unfolding pair
  pair_inv now token name ip w h =
      elim (Option-cases (find_first (λ x. text_eq x.token_hash (p.hash (trim token))) w.tokens)) [
        | inl gone ↦ cc (rw (gone, pair) at h)
        | inr (t, found) ↦ elim (Bool-cases (is_some t.used_at)) [
          | inl used ↦ cc (rw (found, pair, used) at h)
          | inr fresh ↦ elim (Bool-cases (ltb t.expires_at now)) [
            | inl late ↦ cc (rw (found, pair, fresh, late) at h)
            | inr intime ↦
                let result = ok-injective (rw (found, pair, fresh, intime) at h) in
                (
                  t,
                  found,
                  sym (ap (λ r. r.0.0) result),
                  sym (ap (λ r. r.0.1) result),
                  ap (λ r. r.1) result,
                )
          ]
        ]
      ]

  -- A token that was used to pair is refused as already used when it is presented again, whatever the
  -- time and the host's name.
  pub pair_once :
      (now later : ℕ) (token : Text) (name ip name' ip' : Option Text) (w w' : Fleet) (i : ℕ)
      (key : Text)
      → pair p now token name ip w ≡ ok ((i, key), w')
      → pair p later token name' ip' w' ≡ err token_used
  unfolding pair paired
  pair_once now later token name ip name' ip' w w' i key h =
      let (t, found, _, _, same) = pair_inv now token name ip w h in
      let by_hash : PairingToken → Bool = λ x. text_eq x.token_hash (p.hash (trim token)) in
      let again =
        find_first-update_kept by_hash (λ x. x.id == t.id)
          (λ x. record x { used_at = some now; used_by_host = some w.next_id }) w.tokens (λ x. refl)
          found in
      let hit = rw (==_refl t.id) at again in rw (← same) (rw hit refl)

  -- What the checks on an agent's claims make of the host's row.
  check_claims_agent :
      (i org version : ℕ) (w : Fleet) (host : Host)
      → find_host i w.hosts ≡ some host
      → host.org_id ≡ org
      → check_claims p (agent_claims i org version) w
        ≡ (require (version == host.agent_key_version) key_rotated >> ok i)
  unfolding check_claims check_host text_eq lit
  check_claims_agent i org version w host found same = rw (found, same, ==_refl org) refl

  first_row : (i : ℕ) (h : Host) → h.id ≡ i → find_host i (h ∷ []) ≡ some h
  unfolding find_first
  first_row i h e = rw (e, ==_refl i) refl

  -- With a signer whose keys are read back, and ids that are fresh: the key that a pairing returns is
  -- accepted for the new host.
  pub pair_key :
      (now : ℕ) (token : Text) (name ip : Option Text) (w w' : Fleet) (i : ℕ) (key : Text)
      → ((c : Claims) → p.verify (p.sign c) ≡ some c)
      → All (λ h. h.id ≢ w.next_id) w.hosts
      → pair p now token name ip w ≡ ok ((i, key), w')
      → verify_agent_key p key w' ≡ ok i
  unfolding verify_agent_key sign_agent_key paired
  pair_key now token name ip w w' i key reads fresh h =
      let (t, found, e, k, same) = pair_inv now token name ip w h in
      let accepted : verify_agent_key p (sign_agent_key p w.next_id t.org_id 1)
            (paired p now (host_name p now name) ip t w)
          ≡ ok w.next_id =
        rw (reads (agent_claims w.next_id t.org_id 1)) (
          check_claims_agent w.next_id t.org_id 1 (paired p now (host_name p now name) ip t w) _
            (find_first-append_absent (λ (x : Host). x.id) w.next_id w.hosts _ fresh
              ∙ first_row w.next_id _ refl)
            refl) in
      rw (e, k) (rw (← same) accepted)

  rotate_inv :
      (org i : ℕ) (w : Fleet) {w' : Fleet} {key : Text}
      → rotate_agent_key p org i w ≡ ok (key, w')
      → (host : Host) × (find_first (λ h. h.id == i && h.org_id == org) w.hosts ≡ some host)
        × (key ≡ sign_agent_key p i org (host.agent_key_version + 1))
        × (record w {
          hosts =
              update_where
                (λ h. h.id == i)
                (λ h. record h { agent_key_version = host.agent_key_version + 1 })
                w.hosts;
        }
            ≡ w')
  unfolding rotate_agent_key
  rotate_inv org i w h =
      elim (Option-cases (find_first (λ (x : Host). x.id == i && x.org_id == org) w.hosts)) [
        | inl gone ↦ cc (rw (gone, rotate_agent_key) at h)
        | inr (host, found) ↦
            let result = ok-injective (rw (found, rotate_agent_key) at h) in
            (host, found, sym (ap (λ r. r.0) result), ap (λ r. r.1) result)
      ]

  -- With a signer whose keys are read back, and distinct host ids: after a rotation, the new key is
  -- accepted for the host, and every key that is signed for the host in its organisation with
  -- another version is rejected as rotated.
  pub rotate_agent_key-verify :
      (org i version : ℕ) (w w' : Fleet) (key : Text)
      → ((c : Claims) → p.verify (p.sign c) ≡ some c)
      → HasDistinct (λ (h : Host). h.id) w.hosts
      → rotate_agent_key p org i w ≡ ok (key, w')
      → (host : Host) × (find_host i w.hosts ≡ some host)
        × (verify_agent_key p key w' ≡ ok i)
        × ((version ≡ host.agent_key_version + 1)
            ⊎ (verify_agent_key p (sign_agent_key p i org version) w' ≡ err key_rotated))
  unfolding verify_agent_key sign_agent_key
  rotate_agent_key-verify org i version w w' key reads distinct h =
      let (host, found, k, same) = rotate_inv org i w h in
      let id_org = find_first_holds (λ (x : Host). x.id == i && x.org_id == org) w.hosts found in
      let id_host : host.id ≡ i = ground (arith, id_org) in
      let org_host : host.org_id ≡ org = ground (arith, id_org) in
      let here : find_host i w.hosts ≡ some host = rw (← id_host) (
        All-find_first (λ (x : Host). find_first (λ (y : Host). y.id == x.id) w.hosts ≡ some x)
          (λ (x : Host). x.id == i && x.org_id == org) w.hosts
          (All-found (λ (x : Host). x.id) w.hosts distinct) found) in
      let turned =
        find_first-update_self (λ (x : Host). x.id)
          (λ x. record x { agent_key_version = host.agent_key_version + 1 }) i w.hosts (λ x. refl)
          here in
      let checks : (version : ℕ)
          → check_claims p (agent_claims i org version) w'
            ≡ (require (version == host.agent_key_version + 1) key_rotated >> ok i) =
        λ version.
          check_claims_agent i org version w' _ (ap (λ v. find_host i v.hosts) (sym same) ∙ turned)
            org_host in
      (
        host,
        here,
        rw k (
            rw (reads (agent_claims i org (host.agent_key_version + 1))) (
              checks (host.agent_key_version + 1)
              ∙ (rw (==_refl (host.agent_key_version + 1)) refl))),
        elim (Bool-cases (version == host.agent_key_version + 1)) [
          | inl t ↦ inl ((==_iff version (host.agent_key_version + 1)).0 t)
          | inr g ↦ inr (rw (reads (agent_claims i org version)) (checks version ∙ (rw g refl)))
        ],
      )
