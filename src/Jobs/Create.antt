-- ===== src/Jobs/Create.antt =====
-- jobs.service.ts `createJob`: who may create which job, and that a new job keeps the state sound.
use mastermind_7dtd_ai_serve.Base.{
  ◌∙◌, ℕ, ◌+◌, ◌≡◌, refl, sym, ap, subst, true, not, ◌&&◌, ◌||◌, Option, some, List, [], ◌∷◌, arith,
  ◌==◌, if◌then◌else◌, or_default, Option-cases, unless_false, ◌⊎◌, false, inl, inr,
  find_first_holds,
}
use mastermind_7dtd_ai_serve.Base.Text.{text_eq, Text, lit, includes}
use mastermind_7dtd_ai_serve.Base.Result.{
  ok, or_throw->>=, require->>=, ok-injective, >>=-eq-ok, require_inv,
}
use mastermind_7dtd_ai_serve.Schema.{Fields, end, spread, RunStatus, ServerInstance}
use mastermind_7dtd_ai_serve.World.{World, Member, add_job}
use mastermind_7dtd_ai_serve.Batches.Tally.{IsSound, tally}
use mastermind_7dtd_ai_serve.Batches.Insert.{insert-HasKeys, insert-tally}
use mastermind_7dtd_ai_serve.Jobs.{
  normalize_job_type, is_console, is_admin_change, operator_types, check_command, role_of, has_role,
  check_role, instance_payload, find_instance, insert_job, create_job, admins_only, operators_only,
  instance_not_found,
}

-- What a successful call has checked, and the state that it leaves.
pub record IsCreated (w w' : World) (org user instance_id : ℕ) (t : Text) (payload : Option Fields)
    (now : ℕ) : Type 0 where
  pub instance : ServerInstance
  pub found : find_instance w org instance_id ≡ some instance
  pub checked : Option Fields
  pub command : (if is_console t then check_command payload else ok payload) ≡ ok checked
  pub role : (u : Unit {0}) × (check_role w org user t ≡ ok u)
  pub after :
      w'
      ≡ insert_job w org
          (some user)
          instance
          t
          (spread (instance_payload instance end) (or_default checked end))
          now

pub create_job_inv :
    (w w' : World) (org user i : ℕ) (t : Text) (payload : Option Fields) (now : ℕ) (ids : ℕ × ℕ)
    → create_job w org user i t payload now ≡ ok (w', ids)
    → IsCreated w w' org user i (normalize_job_type t) payload now
      × (ids ≡ (w.next_id, w.next_id + 1))
unfolding create_job
create_job_inv w w' org user i t payload now ids e =
    let (checked, e1, rest1) = >>=-eq-ok _ _ e in
    let (u, e2, rest2) = >>=-eq-ok _ _ rest1 in
    let (si, e3, rest3) = or_throw->>= (find_instance w org i) instance_not_found _ rest2 in
    let same = ok-injective rest3 in
    (
      record {
        instance = si;
        found = e3;
        checked = checked;
        command = e1;
        role = (u, e2);
        after = sym (ap (λ (q : World × (ℕ × ℕ)). q.0) same);
      },
      sym (ap (λ (q : World × (ℕ × ℕ)). q.1) same),
    )

-- A stored member of the organisation with one of the roles.
abbrev pub IsMemberWith : World → ℕ → ℕ → List Text → Type 0
IsMemberWith w org user roles =
    (m : Member) × (role_of w org user ≡ some m)
    × (m.user_id ≡ user)
    × (m.org_id ≡ org)
    × (includes roles m.role ≡ true)

has_role_sound :
    (w : World) (org user : ℕ) (roles : List Text)
    → has_role roles (role_of w org user) ≡ true
    → IsMemberWith w org user roles
unfolding has_role role_of
has_role_sound w org user roles h = elim (Option-cases (role_of w org user)) [
  | inl e ↦ cc (rw (e, has_role) at h)
  | inr (m, e) ↦
      let t = find_first_holds (λ (x : Member). x.user_id == user && x.org_id == org) w.members e in
      (m, e, ground arith, ground arith, rw (e, has_role) at h)
]

check_role_inv :
    (w : World) (org user : ℕ) (t : Text) (u : Unit {0})
    → check_role w org user t ≡ ok u
    → (is_admin_change t ≡ true → IsMemberWith w org user (lit "admin" ∷ []))
      × (includes operator_types t ≡ true
          → IsMemberWith w org user (lit "admin" ∷ lit "operator" ∷ []))
unfolding check_role
check_role_inv w org user t u e =
    let (a, e1) =
      require->>= (not (is_admin_change t) || has_role (lit "admin" ∷ []) (role_of w org user))
        admins_only _ e in
    let b =
      require_inv
        (not (includes operator_types t)
          || has_role (lit "admin" ∷ lit "operator" ∷ []) (role_of w org user))
        operators_only e1 in
    (λ h. has_role_sound w org user _ (rw h at a), λ h. has_role_sound w org user _ (rw h at b))

-- The types that the roles guard.
abbrev pub for_admins : List Text
for_admins = lit "PLAYER_ADMIN_PROMOTE" ∷ lit "PLAYER_ADMIN_DEMOTE" ∷ []

abbrev pub for_staff : List Text
for_staff =
    lit "SERVER_KILL"
    ∷ lit "PLAYER_KICK_ALL"
    ∷ lit "SAVE_BACKUP"
    ∷ lit "SAVE_RESTORE"
    ∷ lit "SAVE_RETENTION"
    ∷ lit "SAVE_DELETE"
    ∷ lit "PROFILE_STAGE"
    ∷ lit "MOD_UPLOAD_QUARANTINE"
    ∷ []

text_eq_sym : (s t : Text) → text_eq s t ≡ text_eq t s
unfolding text_eq
text_eq_sym [] [] = refl
text_eq_sym [] (d ∷ t) = refl
text_eq_sym (c ∷ s) [] = refl
text_eq_sym (c ∷ s) (d ∷ t) = ground (arith, text_eq_sym s t)

for_admins_lem : (t : Text) → is_admin_change t ≡ includes for_admins t
unfolding is_admin_change includes
for_admins_lem t =
    ground
      (arith, text_eq_sym t (lit "PLAYER_ADMIN_PROMOTE"), text_eq_sym t (lit "PLAYER_ADMIN_DEMOTE"))

for_staff_lem : (t : Text) → includes operator_types t ≡ includes for_staff t
unfolding operator_types includes
for_staff_lem t = ground arith

-- Where `createJob` creates a job for a user: jobs that change the game's administrators are created for the
-- organisation's administrators only; those that kick all players, kill the server, back up, restore,
-- delete or prune saves, stage a profile or quarantine an uploaded mod also for its operators.
pub create_job_privileged :
    (w w' : World) (org user i : ℕ) (t : Text) (payload : Option Fields) (now : ℕ) (ids : ℕ × ℕ)
    → create_job w org user i t payload now ≡ ok (w', ids)
    → ((includes for_admins (normalize_job_type t) ≡ false)
        ⊎ IsMemberWith w org user (lit "admin" ∷ []))
      × ((includes for_staff (normalize_job_type t) ≡ false)
          ⊎ IsMemberWith w org user (lit "admin" ∷ lit "operator" ∷ []))
create_job_privileged w w' org user i t payload now ids e =
    let c = (create_job_inv w w' org user i t payload now ids e).0 in
    let (admins, operators) = check_role_inv w org user (normalize_job_type t) c.role.0 c.role.1 in
    (
      unless_false (includes for_admins (normalize_job_type t))
          (λ h. admins (for_admins_lem (normalize_job_type t) ∙ h)),
      unless_false (includes for_staff (normalize_job_type t))
          (λ h. operators (for_staff_lem (normalize_job_type t) ∙ h)),
    )

module _ (w : World) (org : ℕ) (user : Option ℕ) (si : ServerInstance) (t : Text) (p : Fields)
    (now : ℕ) (sound : IsSound w) where
  abbrev inserted : World
  inserted = insert_job w org user si t p now

  tally-insert_job :
      (b : ℕ) (s : RunStatus) → tally inserted.jobs inserted.runs b s ≡ tally w.jobs w.runs b s
  unfolding insert_job add_job
  tally-insert_job b s = ground (
    arith,
    insert-tally w inserted _ _ sound.keys refl refl refl refl refl refl refl (λ c e. cc) b s,
  )

  pub insert_job-IsSound : IsSound inserted × (inserted.batches ≡ w.batches)
  unfolding insert_job add_job
  insert_job-IsSound = (
    record {
      keys =
          insert-HasKeys w inserted _ _ sound.keys refl refl refl refl refl refl refl (λ c e. cc);
      tallied = λ i b e.
          let old = sound.tallied i b e in
          record {
            pending = rw (tally-insert_job b.id RunStatus.pending) old.pending;
            running = rw (tally-insert_job b.id RunStatus.running) old.running;
            success = rw (tally-insert_job b.id RunStatus.success) old.success;
            failed = rw (tally-insert_job b.id RunStatus.failed) old.failed;
            cancelled = rw (tally-insert_job b.id RunStatus.cancelled) old.cancelled;
          };
    },
    refl,
  )

-- A new job keeps the state sound, and no batch counter changes.
pub create_job-IsSound :
    (w w' : World) (org user i : ℕ) (t : Text) (payload : Option Fields) (now : ℕ) (ids : ℕ × ℕ)
    → IsSound w
    → create_job w org user i t payload now ≡ ok (w', ids)
    → IsSound w' × (w'.batches ≡ w.batches)
create_job-IsSound w w' org user i t payload now ids sound e =
    let c = (create_job_inv w w' org user i t payload now ids e).0 in
    subst (λ (v : World). IsSound v × (v.batches ≡ w.batches)) (sym c.after)
      (insert_job-IsSound w org (some user) c.instance (normalize_job_type t)
        (spread (instance_payload c.instance end) (or_default c.checked end)) now sound)
