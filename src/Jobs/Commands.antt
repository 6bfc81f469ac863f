-- ===== src/Jobs/Commands.antt =====
-- jobs.service.ts createJob: the console command of a job.
use mastermind_7dtd_ai_serve.Base.{◌<◌, ◌≤◌, ◌≡◌, false, length}
use mastermind_7dtd_ai_serve.Base.Text.{Text, has_unit}
use mastermind_7dtd_ai_serve.World.{World}

-- The console command of a job, as its stored payload carries it.
abbrev pub IsCommand : Text → Type 0
IsCommand c = (0 < length c) × (length c ≤ 512) × (has_unit 13 c ≡ false) × (has_unit 10 c ≡ false)
