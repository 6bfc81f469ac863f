-- ===== src/Logs/Stream.antt =====
-- logs.service.ts `matchKeywordAlerts`: chunk by chunk, with the last 256 units kept, against the whole log.
use mastermind_7dtd_ai_serve.Base.{ℕ, ◌+◌, ◌<◌, List, [], ◌∷◌, ◌++◌, length}
use mastermind_7dtd_ai_serve.Base.Text.{Text}
use mastermind_7dtd_ai_serve.Logs.Search.{OccursAt}
use mastermind_7dtd_ai_serve.Alerts.{Outside}
use mastermind_7dtd_ai_serve.Logs.{LogBook}
use mastermind_7dtd_ai_serve.Logs.Keywords.{match_keyword_alerts}

-- The needle stands in `s` so that it ends after the first `prior` units.
abbrev pub EndsAfter : ℕ → Text → Text → Type 0
EndsAfter prior needle s = (i : ℕ) × OccursAt needle s i × (prior < i + length needle)

unfoldable pub joined_log : List Text → Text
joined_log [] = []
joined_log (c ∷ cs) = c ++ joined_log cs

module _ (p : Outside) (org i : ℕ) where
  -- The service after it has looked for keywords in these chunks of the server's log.
  unfoldable pub scan_chunks : List Text → LogBook → LogBook
  scan_chunks [] w = w
  scan_chunks (c ∷ cs) w = scan_chunks cs (match_keyword_alerts p org i c w)
