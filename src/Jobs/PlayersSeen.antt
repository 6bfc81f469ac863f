-- ===== src/Jobs/PlayersSeen.antt =====
-- control-plane/src/jobs/jobs.service.ts reconcilePlayers: who is online after it.
use mastermind_7dtd_ai_serve.Base.{ℕ, Bool, not, ◌&&◌, none, some, List, [], ◌∷◌, ◌==◌, any}
use mastermind_7dtd_ai_serve.Base.Text.{Text}
use mastermind_7dtd_ai_serve.Players.{Player}
use mastermind_7dtd_ai_serve.Jobs.PlayerReports.{reported}
use mastermind_7dtd_ai_serve.Jobs.PlayerSync.{is_missing}

-- The keys of the players that the lines list.
unfoldable pub listed_keys : List Text → List Text
listed_keys [] = []
listed_keys (line ∷ lines) = elim (reported line) [
  | none ↦ listed_keys lines
  | some l ↦ l.key ∷ listed_keys lines
]

-- The row is missing, and is not among those that are still to be ended.
abbrev waits : ℕ → List Text → List Player → Player → Bool
waits i seen xs y = is_missing i seen y && not (any (λ x. y.id == x.id) xs)
