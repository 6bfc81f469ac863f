-- ===== src/Jobs/Cooldowns.antt =====
-- control-plane/src/jobs/jobs.service.ts enforceConnectionTools: a player who was removed is left alone.
use mastermind_7dtd_ai_serve.Base.{
  ℕ, suc, ◌+◌, ◌≤◌, ◌<◌, ◌≡◌, refl, inl, inr, Option, true, none, some, arith, Bool-cases,
  Option-cases, ltb, leb, if◌then◌else◌, is_some, ◌&&◌,
}
use mastermind_7dtd_ai_serve.Base.Text.{Text, text_eq, to_upper, includes}
use mastermind_7dtd_ai_serve.Base.Result.{Result, ok, err}
use mastermind_7dtd_ai_serve.World.{World}
use mastermind_7dtd_ai_serve.JsonValues.{filled}
use mastermind_7dtd_ai_serve.Jobs.{JobError}
use mastermind_7dtd_ai_serve.Jobs.Protection.{
  map_set, country_for_ip, fresh_code, check_ping, check_country, player_key, enforce_line,
  ProtectionSettings, Watch, LineEnd, look_on, line_done, threw, remove_from,
}
use mastermind_7dtd_ai_serve.Jobs.Addresses.{is_country_code, is_private_address}

-- The state at the end of a step.
abbrev pub watch_after : LineEnd → Watch
watch_after (look_on s) = s
watch_after (line_done s) = s
watch_after (threw s e) = s

-- The player is left alone for five minutes from `t` on.
abbrev pub IsCool : ℕ → Text → Watch → Type 0
IsCool t key s = t + 300000 ≤ s.protection_cooldown key

abbrev EndCool : ℕ → Text → LineEnd → Type 0
EndCool t key (look_on s) = IsCool t key s
EndCool t key (line_done s) = IsCool t key s
EndCool t key (threw s e) = IsCool t key s

end-IsCool : (t : ℕ) (key : Text) (l : LineEnd) → EndCool t key l → IsCool t key (watch_after l)
end-IsCool t key (look_on s) h = h
end-IsCool t key (line_done s) h = h
end-IsCool t key (threw s e) h = h

map_set-later :
    (n until : ℕ) (k key : Text) (m : Text → ℕ) → n ≤ m key → n ≤ until → n ≤ map_set k until m key
map_set-later n until k key m h l = elim (Bool-cases (text_eq key k)) [
  | inl t ↦ rw t l
  | inr g ↦ rw g h
]

remove_from-IsCool :
    (t : ℕ) (key : Text) (r : Result JobError (World × (ℕ × ℕ))) (note : Watch → Watch) (s : Watch)
    → IsCool t key s
    → ((x : Watch) → IsCool t key x → IsCool t key (note x))
    → EndCool t key (remove_from r note s)
remove_from-IsCool t key (err e) note s h cool = h
remove_from-IsCool t key (ok m) note s h cool = cool (record s { world = m.0 }) h

module _ (country_at : Text → Option Text) (now org user i : ℕ) where
  country_for_ip-cooldown :
      (ip : Text) (s : Watch)
      → (country_for_ip country_at now org user i ip s).1.protection_cooldown
        ≡ s.protection_cooldown
  unfolding country_for_ip
  country_for_ip-cooldown ip s =
      elim (Option-cases (fresh_code country_at now org user i (s.country_cache ip))) [
        | inr (code, e) ↦ rw (e, country_for_ip) refl
        | inl e ↦
            rw (e, country_for_ip)
              (elim (Option-cases (country_at ip)) [
                | inl f ↦ rw f refl
                | inr (answer, f) ↦ rw f (elim (Bool-cases (is_country_code (to_upper answer))) [
                  | inl t ↦ rw t refl
                  | inr g ↦ rw g refl
                ])
              ])
      ]

  module _ (t : ℕ) (key : Text) (late : t ≤ now) where
    check_ping-IsCool :
        (c : ProtectionSettings) (identifier k : Text) (ping : Option ℕ) (s : Watch)
        → IsCool t key s
        → EndCool t key (check_ping country_at now org user i c identifier k ping s)
    unfolding check_ping
    check_ping-IsCool c identifier k none s h = h
    check_ping-IsCool c identifier k (some p) s h =
        let count = if ltb c.high_ping_threshold_ms p then suc (s.bad_ping_samples k) else 0 in
        elim (Bool-cases (leb c.high_ping_samples count)) [
          | inr g ↦ rw g h
          | inl u ↦ rw u (
              remove_from-IsCool t key _ _ _ h (λ x l.
                map_set-later (t + 300000) (now + 300000) k key x.protection_cooldown l
                  (omega arith)))
        ]

    check_country-IsCool :
        (c : ProtectionSettings) (identifier k : Text) (ip : Option Text) (s : Watch)
        → IsCool t key s
        → EndCool t key (check_country country_at now org user i c identifier k ip s)
    unfolding check_country
    check_country-IsCool c identifier k none s h = h
    check_country-IsCool c identifier k (some ip) s h =
        let (code, s1) = country_for_ip country_at now org user i ip s in
        let kept : IsCool t key s1 = rw (country_for_ip-cooldown ip s) h in
        elim (Bool-cases (is_private_address ip)) [
          | inl u ↦ rw u h
          | inr g ↦
              rw g
                (elim (Bool-cases
                  (is_some (filled (some code)) && includes c.blocked_country_codes code)) [
                    | inr v ↦ rw v kept
                    | inl v ↦ rw v (
                        remove_from-IsCool t key _ _ s1 kept (λ x l.
                          map_set-later (t + 300000) (now + 86400000) k key x.protection_cooldown l
                            (omega arith)))
                  ])
        ]

    country_end-IsCool :
        (c : ProtectionSettings) (identifier k : Text) (ip : Option Text) (l : LineEnd)
        → EndCool t key l
        → IsCool t key (
            watch_after (elim l [
              | look_on s1 ↦
                  if c.country_ban_enabled
                  then check_country country_at now org user i c identifier k ip s1
                  else line_done s1
              | line_done s1 ↦ line_done s1
              | threw s1 e ↦ threw s1 e
            ]))
    unfolding check_country
    country_end-IsCool c identifier k ip (line_done s) h = h
    country_end-IsCool c identifier k ip (threw s e) h = h
    country_end-IsCool c identifier k ip (look_on s) h = elim (Bool-cases c.country_ban_enabled) [
      | inr g ↦ rw g h
      | inl u ↦ rw u (end-IsCool t key _ (check_country-IsCool c identifier k ip s h))
    ]

    -- No line, of whichever player, shortens the time that a player is left alone.
    pub enforce_line-IsCool :
        (c : ProtectionSettings) (id line : Text) (s : Watch)
        → IsCool t key s
        → IsCool t key (watch_after (enforce_line country_at now org user i c id line s))
    unfolding enforce_line
    enforce_line-IsCool c id line s h =
        elim (Bool-cases (ltb now (s.protection_cooldown (player_key i id line)))) [
          | inl u ↦ rw u h
          | inr g ↦ rw g (
              country_end-IsCool c _ (player_key i id line) _ _
                (check_ping-IsCool c _ (player_key i id line) _ s h))
        ]

  -- A line of a player who is left alone changes nothing.
  pub enforce_line_alone :
      (t : ℕ) (c : ProtectionSettings) (id line : Text) (s : Watch)
      → now < t + 300000
      → IsCool t (player_key i id line) s
      → watch_after (enforce_line country_at now org user i c id line s) ≡ s
  unfolding enforce_line
  enforce_line_alone t c id line s soon h =
      let alone : ltb now (s.protection_cooldown (player_key i id line)) ≡ true = ground arith in
      rw alone refl
