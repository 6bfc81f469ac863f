-- ===== src/Queue/Claims.antt =====
-- jobs-queue.service.ts `getNextJobForHost`: what a host is given, and when it gets nothing.
use mathlib.Core.List.{Memᴰ}
use mastermind_7dtd_ai_serve.Base.{
  ℕ, ◌≡◌, refl, ap, ◌≢◌, ◌↔◌, ◌⊎◌, Bool, true, false, not, Option, none, some, List, [], ◌∷◌, arith,
  select, All, Bool-cases, inl, inr, All-map, ==_iff, ◌==◌,
}
use mastermind_7dtd_ai_serve.Base.Text.{Text, lit, includes}
use mastermind_7dtd_ai_serve.World.{QueueJobData, QueueEntry}
use mastermind_7dtd_ai_serve.Queue.{
  is_read_only, Attempt, claimed, change_delay_failed, remove_failed, QueueClient, read_only_types,
  waiting_jobs, same_entry, is_candidate, change_delay, claim_first, get_next_job_for_host,
}

-- The job types that a host may have while a mutation runs there.
abbrev pub observing_types : List Text
observing_types =
    lit "MOD_LIST"
    ∷ lit "MOD_QUARANTINE_LIST"
    ∷ lit "MOD_CONFIG_READ"
    ∷ lit "PROFILE_LIST"
    ∷ lit "PROFILE_READ"
    ∷ lit "PLAYER_LIST_SYNC"
    ∷ lit "PLAYER_ADMIN_LIST"
    ∷ lit "SAVE_LIST"
    ∷ []

is_read_only_lem : (t : Text) → is_read_only t ≡ includes observing_types t
unfolding is_read_only read_only_types
is_read_only_lem t = refl

-- An entry that the host may have: its own, and read-only while a mutation runs there.
pub record IsGiven (attempt : QueueEntry → Attempt) (host : ℕ) (busy : Bool) (es : List QueueEntry)
    (job : QueueJobData) (e : QueueEntry) : Type 0 where
  pub listed : Memᴰ e es
  pub contents : e.contents ≡ job
  pub own : job.host_id ≡ host
  pub read_only : busy ≡ true → includes observing_types job.type ≡ true
  pub taken : attempt e ≡ claimed

Mem-select :
    (p : QueueEntry → Bool) (q : List QueueEntry) {e : QueueEntry}
    → Memᴰ e (select p q)
    → Memᴰ e q × (p e ≡ true)
unfolding select
Mem-select p [] {e = e} m = elim m [ ]
Mem-select p (x ∷ q) {e} m = elim (Bool-cases (p x)) [
  | inr g ↦ let (old, h) = Mem-select p q (rw g at m) in (Memᴰ.tail old, h)
  | inl t ↦ kept (λ m'. Mem-select p q m') t (rw t at m)
]
  where
    kept :
        (Memᴰ e (select p q) → Memᴰ e q × (p e ≡ true))
        → p x ≡ true
        → Memᴰ e (x ∷ select p q)
        → Memᴰ e (x ∷ q) × (p e ≡ true)
    kept later t (Memᴰ.head h) = (Memᴰ.head h, cc)
    kept later t (Memᴰ.tail m') = let (old, h) = later m' in (Memᴰ.tail old, h)

Attempt-cases : (a : Attempt) → (a ≡ claimed) ⊎ ((a ≡ change_delay_failed) ⊎ (a ≡ remove_failed))
Attempt-cases a = ground arith

module _ (attempt : QueueEntry → Attempt) (org host : ℕ) (busy : Bool) where
  -- The entries of the org with the run's id are gone.
  abbrev IsGone : QueueJobData → List QueueEntry → Type 0
  IsGone job q = All (λ (x : QueueEntry). same_entry org job.job_run_id x ≡ false) q

  dropped :
      (job : QueueJobData) (q : List QueueEntry)
      → IsGone job (select (λ x. not (same_entry org job.job_run_id x)) q)
  unfolding select
  dropped job [] = tt
  dropped job (x ∷ q) = elim (Bool-cases (same_entry org job.job_run_id x)) [
    | inl t ↦ rw t (dropped job q)
    | inr g ↦ rw g (g, dropped job q)
  ]

  abbrev Outcome : List QueueEntry → QueueJobData → List QueueEntry → Type 0
  Outcome es job q' = (e : QueueEntry) × IsGiven attempt host busy es job e × IsGone job q'

  Outcome-cons :
      (x : QueueEntry) (es : List QueueEntry) (job : QueueJobData) (q' : List QueueEntry)
      → Outcome es job q'
      → Outcome (x ∷ es) job q'
  Outcome-cons x es job q' (e, g, gone) = (
    e,
    record {
      listed = Memᴰ.tail g.listed;
      contents = g.contents;
      own = g.own;
      read_only = g.read_only;
      taken = g.taken;
    },
    gone,
  )

  given :
      (x : QueueEntry) (es : List QueueEntry) (job : QueueJobData) (q q' : List QueueEntry)
      → is_candidate host busy x ≡ true
      → attempt x ≡ claimed
      → ◌≡◌ {A = Option QueueJobData × List QueueEntry}
          (
            some x.contents,
            select (λ y. not (same_entry org x.contents.job_run_id y)) (change_delay org x q),
          )
          (some job, q')
      → Outcome (x ∷ es) job q'
  given x es job q q' t h e =
      let same : x.contents ≡ job = cc in
      let rest : select (λ y. not (same_entry org x.contents.job_run_id y)) (change_delay org x q)
          ≡ q' =
        ap (λ (p : Option QueueJobData × List QueueEntry). p.1) e in
      (
        x,
        record {
          listed = Memᴰ.head refl;
          contents = same;
          own = rw (← same) (ground arith);
          read_only = rw (← same) (λ b. rw (← is_read_only_lem x.contents.type) (ground arith));
          taken = h;
        },
        rw (← same) (rw (← rest) (dropped x.contents (change_delay org x q))),
      )

  claim_first-some :
      (es q q' : List QueueEntry) (job : QueueJobData)
      → claim_first attempt org host busy es q ≡ (some job, q')
      → Outcome es job q'
  unfolding claim_first
  claim_first-some [] q q' job e = cc (ap (λ (x : Option QueueJobData × List QueueEntry). x.0) e)
  claim_first-some (x ∷ es) q q' job e = elim (Bool-cases (is_candidate host busy x)) [
    | inr g ↦ Outcome-cons x es job q' (claim_first-some es q q' job (rw (g, claim_first) at e))
    | inl t ↦
        let e1 = rw (t, claim_first) at e in
        elim (Attempt-cases (attempt x)) [
          | inl h ↦ given x es job q q' t h (rw h at e1)
          | inr (inl h) ↦ Outcome-cons x es job q' (claim_first-some es q q' job (rw h at e1))
          | inr (inr h) ↦
              Outcome-cons x es job q'
                (claim_first-some es (change_delay org x q) q' job (rw h at e1))
        ]
  ]

  -- Nothing is given exactly when every job that could be given was taken by another client.
  claim_first-none :
      (es q : List QueueEntry)
      → ((claim_first attempt org host busy es q).0 ≡ none)
        ↔ All (λ (x : QueueEntry). is_candidate host busy x ≡ true → attempt x ≢ claimed) es
  unfolding claim_first
  claim_first-none [] q = (λ e. tt, λ h. refl)
  claim_first-none (x ∷ es) q = elim (Bool-cases (is_candidate host busy x)) [
    | inr g ↦
        let (to, from) = claim_first-none es q in
        rw (g, claim_first) (λ e. (λ c. cc, to e), λ h. from h.1)
    | inl t ↦ elim (Attempt-cases (attempt x)) [
      | inl h ↦ rw (t, claim_first) (rw (h, claim_first) (λ e. cc, λ a. absurd (a.0 refl refl)))
      | inr (inl h) ↦
          let (to, from) = claim_first-none es q in
          rw (t, claim_first) (rw (h, claim_first) (λ e. (λ c a. cc, to e), λ a. from a.1))
      | inr (inr h) ↦
          let (to, from) = claim_first-none es (change_delay org x q) in
          rw (t, claim_first) (rw (h, claim_first) (λ e. (λ c a. cc, to e), λ a. from a.1))
    ]
  ]

-- When BullMQ's listing holds only jobs of the queue that is asked, a claimed job is one that the
-- listing 0 to 499 of the organisation's queue names, belongs to the organisation, is meant for the
-- host, has one of the eight types that only read while a mutation runs there, was taken from BullMQ,
-- and is in the queue no more.
pub get_next_job_for_host-IsGiven :
    (client : QueueClient) (q q' : List QueueEntry) (org host : ℕ) (busy : Bool)
    (job : QueueJobData)
    → ((first last : ℕ) (es : List QueueEntry) (e : QueueEntry)
        → Memᴰ e (client.get_jobs first last es)
        → Memᴰ e es)
    → get_next_job_for_host client q org host busy ≡ (some job, q')
    → (e : QueueEntry) × IsGiven client.attempt host busy
        (client.get_jobs 0 499 (select (λ x. x.org_id == org) q))
        job
        e
      × Memᴰ e q
      × (e.org_id ≡ org)
      × All (λ (x : QueueEntry). same_entry org job.job_run_id x ≡ false) q'
unfolding get_next_job_for_host
get_next_job_for_host-IsGiven client q q' org host busy job lists run =
    let (e, given, gone) =
      claim_first-some client.attempt org host busy (waiting_jobs client org q) q q' job run in
    let (stored, owned) =
      Mem-select (λ (x : QueueEntry). x.org_id == org) q
        (lists 0 499 (select (λ x. x.org_id == org) q) e given.listed) in
    (e, given, stored, (==_iff e.org_id org).0 owned, gone)

-- A host gets no job exactly when each job that the listing 0 to 499 of the organisation's queue names
-- is meant for another host, has a type that does not only read while a mutation runs there, or is lost
-- to another client.
pub get_next_job_for_host-none :
    (client : QueueClient) (q : List QueueEntry) (org host : ℕ) (busy : Bool)
    → ((get_next_job_for_host client q org host busy).0 ≡ none)
      ↔ All
          (λ (x : QueueEntry).
            (x.contents.host_id ≢ host)
            ⊎ (((busy ≡ true) × (includes observing_types x.contents.type ≡ false))
                ⊎ (client.attempt x ≢ claimed)))
          (client.get_jobs 0 499 (select (λ x. x.org_id == org) q))
unfolding get_next_job_for_host
get_next_job_for_host-none client q org host busy =
    let (to, from) = claim_first-none client.attempt org host busy (waiting_jobs client org q) q in
    (
      λ e. All-map (λ x h. passed x h) (waiting_jobs client org q) (to e),
      λ h. from (
          All-map
            {Q = λ (x : QueueEntry). is_candidate host busy x ≡ true → client.attempt x ≢ claimed}
            (λ x s c. elim s [
              | inl other ↦ ground (arith, other)
              | inr (inl (b, mutates)) ↦ ground (arith, is_read_only_lem x.contents.type)
              | inr (inr lost) ↦ lost
            ])
            (waiting_jobs client org q) h),
    )
  where
    passed :
        (x : QueueEntry)
        → (is_candidate host busy x ≡ true → client.attempt x ≢ claimed)
        → (x.contents.host_id ≢ host)
          ⊎ (((busy ≡ true) × (includes observing_types x.contents.type ≡ false))
              ⊎ (client.attempt x ≢ claimed))
    passed x h = elim (Bool-cases (x.contents.host_id == host)) [
      | inr other ↦ inl (ground arith)
      | inl own ↦ elim (Bool-cases (includes observing_types x.contents.type)) [
        | inl reads ↦
            inr (inr (h (rw (own, is_read_only_lem x.contents.type, reads) (ground arith))))
        | inr writes ↦ elim (Bool-cases busy) [
          | inl b ↦ inr (inl (b, writes))
          | inr idle ↦ inr (inr (h (rw (own, idle) refl)))
        ]
      ]
    ]
