-- ===== src/Jobs/Removals.antt =====
-- control-plane/src/jobs/jobs.service.ts enforceConnectionTools: how often a player is removed.
use mastermind_7dtd_ai_serve.Base.{
  ℕ, suc, ◌+◌, ◌-◌, ◌≤◌, ◌<◌, ◌⊎◌, Option, List, [], ◌∷◌, All, length, if◌then◌else◌,
}
use mastermind_7dtd_ai_serve.Base.Text.{Text, text_eq}
use mastermind_7dtd_ai_serve.Base.Result.{Result}
use mastermind_7dtd_ai_serve.World.{World}
use mastermind_7dtd_ai_serve.Jobs.Protection.{
  player_key, enforce_line, ProtectionSettings, Watch, LineEnd, look_on, line_done, threw,
}
use mastermind_7dtd_ai_serve.Jobs.Cooldowns.{watch_after}

-- At most `n` jobs, or one more and the player is left alone for five minutes from `t` on.
abbrev Fits : ℕ → ℕ → Text → Watch → Type 0
Fits n t key s =
    (length s.world.jobs ≤ n)
    ⊎ ((length s.world.jobs ≤ suc n) × (t + 300000 ≤ s.protection_cooldown key))

-- The same of the end of a step; a line that is still looked at has not led to a job.
abbrev EndFits : ℕ → ℕ → Text → LineEnd → Type 0
EndFits n t key (look_on s) = length s.world.jobs ≤ n
EndFits n t key (line_done s) = Fits n t key s
EndFits n t key (threw s e) = Fits n t key s

-- A line about a player at a time, with the id in its head and the settings of that time.
pub record Sighting : Type 0 where
  pub at : ℕ
  pub settings : ProtectionSettings
  pub id : Text
  pub line : Text

module _ (country_at : Text → Option Text) (org user i : ℕ) where
  abbrev after_line : Sighting → Watch → Watch
  after_line x s = watch_after (enforce_line country_at x.at org user i x.settings x.id x.line s)

  abbrev jobs_added : Sighting → Watch → ℕ
  jobs_added x s = length (after_line x s).world.jobs - length s.world.jobs

  -- How many jobs the lines about the player with this key add, among the lines of all players.
  unfoldable pub removals : Text → List Sighting → Watch → ℕ
  removals key [] s = 0
  removals key (x ∷ xs) s =
      (if text_eq (player_key i x.id x.line) key then jobs_added x s else 0)
      + removals key xs (after_line x s)

  abbrev pub AreWithin : ℕ → List Sighting → Type 0
  AreWithin t = All (λ x. (t ≤ x.at) × (x.at < t + 300000))
