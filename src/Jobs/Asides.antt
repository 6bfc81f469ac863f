-- ===== src/Jobs/Asides.antt =====
-- jobs.service.ts reportJobResult: what the side effects of a result leave alone.
use mastermind_7dtd_ai_serve.Base.{
  ℕ, ◌<◌, ◌≡◌, refl, ◌∙◌, Bool, true, some, arith, ◌==◌, update_where, Option-cases, Bool-cases,
  HasDistinct, HasDistinct-update_where, inl, inr, All, All-update_where,
}
use mastermind_7dtd_ai_serve.Base.Text.{lit, text_eq}
use mastermind_7dtd_ai_serve.Schema.{RunStatus, is_status, Job}
use mastermind_7dtd_ai_serve.World.{World, find_job}
use mastermind_7dtd_ai_serve.Batches.Tally.{job_key, job_key-update_where}
use mastermind_7dtd_ai_serve.Jobs.AgentCalls.{
  ReportResult, finish_run, unlink_upload, redact_profile, sync_players,
}

-- What the side effects of a result leave alone, and what they keep of the jobs.
pub record IsAside (w w' : World) : Type 0 where
  pub runs : w'.runs ≡ w.runs
  pub batches : w'.batches ≡ w.batches
  pub next_id : w'.next_id ≡ w.next_id
  pub keys : (i : ℕ) → job_key w'.jobs i ≡ job_key w.jobs i
  pub distinct : HasDistinct (λ (j : Job). j.id) w.jobs → HasDistinct (λ (j : Job). j.id) w'.jobs
  pub fresh : (n : ℕ) → All (λ (j : Job). j.id < n) w.jobs → All (λ (j : Job). j.id < n) w'.jobs
  pub batched :
      (n : ℕ)
      → All (λ (j : Job). (b : ℕ) → j.batch_id ≡ some b → b < n) w.jobs
      → All (λ (j : Job). (b : ℕ) → j.batch_id ≡ some b → b < n) w'.jobs

IsAside-same :
    (w w' : World)
    → w'.runs ≡ w.runs
    → w'.batches ≡ w.batches
    → w'.next_id ≡ w.next_id
    → w'.jobs ≡ w.jobs
    → IsAside w w'
IsAside-same w w' h0 h1 h2 h3 = record {
  runs = h0;
  batches = h1;
  next_id = h2;
  keys = λ i. rw h3;
  distinct = λ d. rw h3 d;
  fresh = λ n d. rw h3 d;
  batched = λ n d. rw h3 d;
}

IsAside-trans : {u v w : World} → IsAside u v → IsAside v w → IsAside u w
IsAside-trans p q = record {
  runs = q.runs ∙ p.runs;
  batches = q.batches ∙ p.batches;
  next_id = q.next_id ∙ p.next_id;
  keys = λ i. q.keys i ∙ p.keys i;
  distinct = λ d. q.distinct (p.distinct d);
  fresh = λ n d. q.fresh n (p.fresh n d);
  batched = λ n d. q.batched n (p.batched n d);
}

unlink_upload-IsAside : (j : Job) (w : World) → IsAside w (unlink_upload j w)
unfolding unlink_upload
unlink_upload-IsAside j w =
    IsAside-same w (unlink_upload j w) (ground arith) (ground arith) (ground arith) (ground arith)

sync_players-IsAside : (j : Job) (dto : ReportResult) (w : World) → IsAside w (sync_players j dto w)
unfolding sync_players
sync_players-IsAside j dto w =
    IsAside-same w (sync_players j dto w) (ground arith) (ground arith) (ground arith)
      (ground arith)

redact_profile-IsAside : (j : Job) (b : Bool) (w : World) → IsAside w (redact_profile j b w)
unfolding redact_profile
redact_profile-IsAside j b w = elim (Bool-cases (text_eq j.type (lit "PROFILE_STAGE"))) [
  | inr h ↦ rw h (IsAside-same w w refl refl refl refl)
  | inl h ↦ rw h (record {
    runs = refl;
    batches = refl;
    next_id = refl;
    keys = λ i. job_key-update_where _ _ w.jobs i (λ j. refl) (λ j. refl) (λ j. refl);
    distinct = λ d. HasDistinct-update_where (λ (j : Job). j.id) _ _ w.jobs (λ j. refl) d;
    fresh = λ n d. All-update_where _ _ _ w.jobs (λ j l. l) d;
    batched = λ n d. All-update_where _ _ _ w.jobs (λ j l. l) d;
  })
]

-- The job found after the side effects has the batch and the organisation that it had.
pub find_job_aside :
    {w w' : World} (i : ℕ) {j : Job}
    → IsAside w w'
    → find_job i w.jobs ≡ some j
    → (j' : Job) × (find_job i w'.jobs ≡ some j')
      × (j'.org_id ≡ j.org_id)
      × (j'.batch_id ≡ j.batch_id)
unfolding job_key
find_job_aside {w} {w'} i {j} a e = elim (Option-cases (find_job i w'.jobs)) [
  | inl h ↦ cc (a.keys i)
  | inr (j', h) ↦ (j', h, ground (arith, a.keys i), ground (arith, a.keys i))
]

pub running_of : (s : RunStatus) → is_status RunStatus.running s ≡ true → s ≡ RunStatus.running
running_of s h = ground arith

module _ (w : World) (host run now : ℕ) (dto : ReportResult) (j : Job) where
  abbrev pub finished : World
  finished = record w { runs = update_where (λ x. x.id == run) (finish_run now dto) w.runs }

  abbrev pub told : World
  told = sync_players j dto (redact_profile j dto.succeeded (unlink_upload j finished))

  pub aside : IsAside finished told
  aside = IsAside-trans (unlink_upload-IsAside j finished) (
      IsAside-trans (redact_profile-IsAside j dto.succeeded (unlink_upload j finished))
        (sync_players-IsAside j dto (redact_profile j dto.succeeded (unlink_upload j finished))))
