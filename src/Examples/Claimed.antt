-- ===== src/Examples/Claimed.antt =====
-- A queue of two jobs, a mutation and a reading, while the host is busy.
use mathlib.Core.List.{Memᴰ}
use mastermind_7dtd_ai_serve.Base.{
  ℕ, ◌≡◌, refl, ◌≢◌, ◌↔◌, true, false, none, some, List, [], ◌∷◌, All, select, ◌⊎◌, ◌==◌,
}
use mastermind_7dtd_ai_serve.Base.Text.{Text, lit, includes, text_eq}
use mastermind_7dtd_ai_serve.Schema.{end}
use mastermind_7dtd_ai_serve.World.{QueueEntry, Backoff}
use mastermind_7dtd_ai_serve.Queue.{
  claimed, get_next_job_for_host, claim_first, same_entry, is_read_only, read_only_types,
}
use mastermind_7dtd_ai_serve.Examples.Waves.{client}
use mastermind_7dtd_ai_serve.Queue.Claims.{
  observing_types, IsGiven, get_next_job_for_host-IsGiven, get_next_job_for_host-none,
}

abbrev entry : ℕ → Text → QueueEntry
entry run t = record {
  org_id = 7;
  contents = record {
    job_id = 0;
    job_run_id = run;
    host_id = 3;
    instance_id = none;
    type = t;
    payload = end;
    schedule_id = none;
  };
  attempts = 3;
  backoff = Backoff.fixed 2000;
  delay = 0;
}

abbrev two_jobs : List QueueEntry
two_jobs = entry 1 (lit "SERVER_START") ∷ entry 2 (lit "MOD_LIST") ∷ []

given_eq :
    get_next_job_for_host client two_jobs 7 3 true
    ≡ (some (entry 2 (lit "MOD_LIST")).contents, entry 1 (lit "SERVER_START") ∷ [])
unfolding get_next_job_for_host claim_first select is_read_only read_only_types includes text_eq lit
given_eq = refl

get_next_job_for_host-IsGiven_example :
    (e : QueueEntry) × IsGiven client.attempt 3 true
      (client.get_jobs 0 499 (select (λ x. x.org_id == 7) two_jobs))
      (entry 2 (lit "MOD_LIST")).contents
      e
    × Memᴰ e two_jobs
    × (e.org_id ≡ 7)
    × All (λ (x : QueueEntry). same_entry 7 2 x ≡ false) (entry 1 (lit "SERVER_START") ∷ [])
get_next_job_for_host-IsGiven_example =
    get_next_job_for_host-IsGiven client two_jobs (entry 1 (lit "SERVER_START") ∷ []) 7 3 true
      (entry 2 (lit "MOD_LIST")).contents (λ first last es e m. m) given_eq

get_next_job_for_host-none_example :
    ((get_next_job_for_host client two_jobs 7 3 true).0 ≡ none)
    ↔ All
        (λ (x : QueueEntry).
          (x.contents.host_id ≢ 3)
          ⊎ (((true ≡ true) × (includes observing_types x.contents.type ≡ false))
              ⊎ (client.attempt x ≢ claimed)))
        (client.get_jobs 0 499 (select (λ x. x.org_id == 7) two_jobs))
get_next_job_for_host-none_example = get_next_job_for_host-none client two_jobs 7 3 true
