-- ===== src/Alerts/Repeats.antt =====
-- alerts.service.ts: repeated alerts of a player's connection, and the alerts that matching rules send.
use mastermind_7dtd_ai_serve.Base.{ℕ, ◌≡◌, some, List}
use mastermind_7dtd_ai_serve.Base.Text.{Text}
use mastermind_7dtd_ai_serve.Alerts.{Recent}
use mastermind_7dtd_ai_serve.Alerts.Send.{find_recent}

-- An entry for the key with this time.
abbrev IsNoted : Text → ℕ → List Recent → Type 0
IsNoted key now recent = (r : Recent) × (find_recent key recent ≡ some r) × (r.at ≡ now)
