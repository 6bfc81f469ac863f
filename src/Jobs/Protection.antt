-- ===== src/Jobs/Protection.antt =====
-- control-plane/src/jobs/jobs.service.ts enforceConnectionTools: players whose connection is slow, or comes
-- from a country that the server instance blocks, are removed. The clock stands still during a call.
use mastermind_7dtd_ai_serve.Base.{
  ℕ, suc, ◌+◌, Bool, ◌&&◌, ◌||◌, Option, none, some, List, [], ◌∷◌, ◌++◌, ◌==◌, leb, ltb,
  if◌then◌else◌, is_some, find_first,
}
use mastermind_7dtd_ai_serve.Base.Text.{Text, lit, text_eq, includes, to_upper}
use mastermind_7dtd_ai_serve.Base.Result.{Result, ok, err}
use mastermind_7dtd_ai_serve.Schema.{str, Fields, end, field}
use mastermind_7dtd_ai_serve.World.{Member, World}
use mastermind_7dtd_ai_serve.Jobs.{JobError, create_job}
use mastermind_7dtd_ai_serve.JsonValues.{decimal, filled}
use mastermind_7dtd_ai_serve.Jobs.PlayerReports.{head_of, listed_steam, listed_eos, report_lines}
use mastermind_7dtd_ai_serve.Jobs.Addresses.{
  ping_of, address_of, is_private_address, is_country_code,
}

-- The blocked codes are kept as the texts that the settings' endpoint stores.
pub record ProtectionSettings : Type 0 where
  pub instance_id : ℕ
  pub high_ping_enabled : Bool
  pub high_ping_threshold_ms : ℕ
  pub high_ping_samples : ℕ
  pub high_ping_reason : Text
  pub country_ban_enabled : Bool
  pub blocked_country_codes : List Text
  pub country_action : Text
  pub country_ban_duration : Text
  pub country_reason : Text

pub record CachedCountry : Type 0 where
  pub code : Text
  pub expires : ℕ

-- The tables, and the maps of the service. A key that is not in a map of numbers counts as 0.
pub record Watch : Type 0 where
  pub world : World
  pub settings : List ProtectionSettings
  pub bad_ping_samples : Text → ℕ
  pub protection_cooldown : Text → ℕ
  pub country_cache : Text → Option CachedCountry

abbrev pub map_set : {A : Type 0} → Text → A → (Text → A) → Text → A
map_set key value m k = if text_eq k key then value else m k

-- How a step of the loop ends: the country is still to be looked at, or the line is done, or a call threw.
pub data LineEnd : Type 0 where
  look_on line_done : Watch → LineEnd
  threw : Watch → JobError → LineEnd

abbrev pub remove_from : Result JobError (World × (ℕ × ℕ)) → (Watch → Watch) → Watch → LineEnd
remove_from (ok made) note s = line_done (note (record s { world = made.0 }))
remove_from (err e) note s = threw s e

abbrev cool_down : Text → ℕ → Watch → Watch
cool_down key until s = record s { protection_cooldown = map_set key until s.protection_cooldown }

abbrev count_ping : Text → ℕ → Watch → Watch
count_ping key n s = record s { bad_ping_samples = map_set key n s.bad_ping_samples }

abbrev identity_or : Option Text → Option Text → Text → Text
identity_or (some s) eos id = s
identity_or none (some e) id = e
identity_or none none id = id

-- The key of the player of a line, given the id in its head.
abbrev pub player_key : ℕ → Text → Text → Text
player_key i id line = decimal i ++ lit ":" ++ identity_or (listed_steam line) (listed_eos line) id

-- `country_at` is what the country service answers for an address, if it answers.
module _ (country_at : Text → Option Text) (now org user i : ℕ) where
  unfoldable pub check_ping : ProtectionSettings → Text → Text → Option ℕ → Watch → LineEnd
  check_ping c identifier key none s = look_on s
  check_ping c identifier key (some ping) s =
      let count = if ltb c.high_ping_threshold_ms ping then suc (s.bad_ping_samples key) else 0 in
      let counted = count_ping key count s in
      if leb c.high_ping_samples count
      then remove_from
          (create_job s.world org user i (lit "PLAYER_KICK")
            (some (
              field (lit "identifier") (str identifier) (
                field (lit "reason")
                  (str (c.high_ping_reason ++ lit " (" ++ decimal ping ++ lit " ms)")) end)))
            now)
          (λ x. cool_down key (now + 300000) (count_ping key 0 x)) counted
      else look_on counted

  abbrev pub country_from : Option Text → Text → Watch → Text × Watch
  country_from none ip s = ([], s)
  country_from (some answer) ip s =
      let code = to_upper answer in
      if is_country_code code
      then (
        code,
        record s {
          country_cache =
              map_set ip (some (record { code = code; expires = now + 86400000 })) s.country_cache;
        },
      )
      else ([], s)

  abbrev pub fresh_code : Option CachedCountry → Option Text
  fresh_code none = none
  fresh_code (some e) = if ltb now e.expires then some e.code else none

  unfoldable pub country_for_ip : Text → Watch → Text × Watch
  country_for_ip ip s = elim (fresh_code (s.country_cache ip)) [
    | some code ↦ (code, s)
    | none ↦ country_from (country_at ip) ip s
  ]

  abbrev ban_payload : ProtectionSettings → Text → Text → Bool → Fields
  ban_payload c identifier code is_ban = field (lit "identifier") (str identifier) (
      field (lit "reason") (str (c.country_reason ++ lit " (" ++ code ++ lit ")"))
        (if is_ban then field (lit "duration") (str c.country_ban_duration) end else end))

  unfoldable pub check_country : ProtectionSettings → Text → Text → Option Text → Watch → LineEnd
  check_country c identifier key none s = line_done s
  check_country c identifier key (some ip) s =
      let (code, s1) = country_for_ip ip s in
      let is_ban = text_eq c.country_action (lit "ban") in
      if is_private_address ip
      then line_done s
      else if is_some (filled (some code)) && includes c.blocked_country_codes code
      then remove_from
          (create_job s1.world org user i (if is_ban then lit "PLAYER_BAN" else lit "PLAYER_KICK")
            (some (ban_payload c identifier code is_ban)) now)
          (cool_down key (now + 86400000)) s1
      else line_done s1

  -- A line after its head has matched, with the id that it gives.
  unfoldable pub enforce_line : ProtectionSettings → Text → Text → Watch → LineEnd
  enforce_line c id line s =
      let identifier = identity_or (listed_steam line) (listed_eos line) id in
      let key = player_key i id line in
      let pinged =
        check_ping c identifier key (if c.high_ping_enabled then ping_of line else none) s in
      if ltb now (s.protection_cooldown key) then line_done s else elim pinged [
        | look_on s1 ↦
            if c.country_ban_enabled
            then check_country c identifier key (address_of line) s1
            else line_done s1
        | line_done s1 ↦ line_done s1
        | threw s1 e ↦ threw s1 e
      ]

  -- The loop: the state, and what was thrown, which ends it.
  unfoldable pub enforce_lines : ProtectionSettings → List Text → Watch → Watch × Option JobError
  enforce_lines c [] s = (s, none)
  enforce_lines c (line ∷ lines) s = elim (head_of line) [
    | none ↦ enforce_lines c lines s
    | some head ↦ elim (enforce_line c head.0 line s) [
      | look_on s1 ↦ enforce_lines c lines s1
      | line_done s1 ↦ enforce_lines c lines s1
      | threw s1 e ↦ (s1, some e)
    ]
  ]

abbrev enforce_for :
    (Text → Option Text)
    → ℕ
    → ℕ
    → ℕ
    → Text
    → Option ProtectionSettings
    → Option Member
    → Watch
    → Watch × Option JobError
enforce_for country_at now org i output (some c) (some m) s =
    if c.high_ping_enabled || c.country_ban_enabled
    then enforce_lines country_at now org m.user_id i c (report_lines output) s
    else (s, none)
enforce_for country_at now org i output _ _ s = (s, none)

-- The jobs are the organisation's oldest member's.
unfoldable pub enforce_connection_tools :
    (Text → Option Text) → ℕ → ℕ → ℕ → Text → Watch → Watch × Option JobError
enforce_connection_tools country_at now org i output s =
    enforce_for country_at now org i output (find_first (λ c. c.instance_id == i) s.settings)
      (find_first (λ m. m.org_id == org) s.world.members) s
