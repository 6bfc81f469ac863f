-- ===== src/Instances/Rediscovery.antt =====
-- server-instances.service.ts `upsertDiscovered7DtdInstance`: discovering the same installation again.
use mastermind_7dtd_ai_serve.Base.{
  ℕ, ◌≡◌, refl, sym, ◌∙◌, ap, Bool, true, false, ◌&&◌, Option, none, some, List, [], ◌∷◌, ◌++◌,
  ◌==◌, arith, ==_refl, update_where, find_first, Option-cases, inl, inr, ◌⊎◌,
  find_first-update_hit, find_first-append_last, select-append_one, select-update_where,
}
use mastermind_7dtd_ai_serve.Base.Text.{Text, text_eq, text_eq_refl}
use mastermind_7dtd_ai_serve.Base.Result.{ok, ok-injective, >>=-eq-ok}
use mastermind_7dtd_ai_serve.Fleet.{Host, Instance, Fleet, find_host}
use mastermind_7dtd_ai_serve.Instances.{
  Discovered, slug_7dtd, trimmed_or_null, game_type_id_by_slug,
}
use mastermind_7dtd_ai_serve.Instances.Config.{normalize_path, find_matching}
use mastermind_7dtd_ai_serve.Instances.Discovery.{
  known_instance, discovered_again, discovered_first, rows_of_host, upsert_known, upsert_discovered,
  only_row,
}

upsert_inv :
    (host_id : ℕ) (dto : Discovered) (w : Fleet) {r : (Bool × ℕ) × Fleet}
    → upsert_discovered host_id dto w ≡ ok r
    → (host : Host) × (game_type : ℕ) × (find_host host_id w.hosts ≡ some host)
      × (game_type_id_by_slug slug_7dtd w ≡ ok game_type)
      × (upsert_known dto host game_type
            (known_instance
              (rows_of_host host game_type w.instances)
              (trimmed_or_null dto.install_path))
            w
          ≡ r)
unfolding upsert_discovered
upsert_inv host_id dto w h = elim (Option-cases (find_host host_id w.hosts)) [
  | inl gone ↦ cc (rw (gone, upsert_discovered) at h)
  | inr (host, found) ↦
      let (g, e, k) =
        >>=-eq-ok (game_type_id_by_slug slug_7dtd w) _ (rw (found, upsert_discovered) at h) in
      (host, g, found, e, ok-injective k)
]

at_path : Text → Instance → Bool
at_path path s = text_eq (normalize_path s.install_path) (normalize_path (some path))

of_host : Host → ℕ → Instance → Bool
of_host host game_type s =
    s.org_id == host.org_id && s.host_id == host.id && s.game_type_id == game_type

found_by_path :
    (rows : List Instance) (path : Text) {b : Instance}
    → find_first (at_path path) rows ≡ some b
    → known_instance rows (some path) ≡ some b
unfolding known_instance find_matching at_path
found_by_path rows path h = rw h refl

only_row_inv : (rows : List Instance) {s : Instance} → only_row rows ≡ some s → rows ≡ s ∷ []
only_row_inv [] h = cc
only_row_inv (r ∷ []) h = cc
only_row_inv (r ∷ q ∷ rows) h = cc

not_found :
    (rows : List Instance) (path : Text)
    → known_instance rows (some path) ≡ none
    → find_first (at_path path) rows ≡ none
unfolding known_instance find_matching at_path
not_found rows path h = elim (Option-cases (find_first (at_path path) rows)) [
  | inl e ↦ e
  | inr (s, e) ↦ cc (rw (e, known_instance, find_matching) at h)
]

known_cases :
    (rows : List Instance) (path : Text) {s : Instance}
    → known_instance rows (some path) ≡ some s
    → (find_first (at_path path) rows ≡ some s) ⊎ (rows ≡ s ∷ [])
unfolding known_instance find_matching at_path
known_cases rows path h = elim (Option-cases (find_first (at_path path) rows)) [
  | inl e ↦ inr (only_row_inv rows (rw (e, known_instance, find_matching) at h))
  | inr (s, e) ↦ inl (cc (rw (e, known_instance, find_matching) at h))
]

module _ (dto : Discovered) (path : Text) (e : trimmed_or_null dto.install_path ≡ some path) where
  created_at_path :
      (host : Host) (game_type i : ℕ) → at_path path (discovered_first dto host game_type i) ≡ true
  unfolding at_path discovered_first
  created_at_path host game_type i = rw e (text_eq_refl (normalize_path (some path)))

  updated_at_path : (s x : Instance) → at_path path (discovered_again dto s x) ≡ true
  unfolding at_path discovered_again
  updated_at_path s x = rw e (text_eq_refl (normalize_path (some path)))

  created_of_host :
      (host : Host) (game_type i : ℕ)
      → of_host host game_type (discovered_first dto host game_type i) ≡ true
  unfolding of_host discovered_first
  created_of_host host game_type i =
      rw (==_refl host.org_id, ==_refl host.id, ==_refl game_type) refl

  hit_after :
      (host : Host) (game_type : ℕ) (s : Instance) (rows : List Instance)
      → (find_first (at_path path) rows ≡ some s) ⊎ (rows ≡ s ∷ [])
      → (b : Instance) × (find_first
            (at_path path)
            (update_where (λ x. x.id == s.id) (discovered_again dto s) rows)
          ≡ some b)
        × ((b.id == s.id) ≡ true)
  unfolding update_where find_first
  hit_after host game_type s rows (inl found) =
      find_first-update_hit (λ x. x.id == s.id) (at_path path) (discovered_again dto s) rows
        (λ x h. updated_at_path s x) (λ x. unfold discovered_again in refl) found (==_refl s.id)
  hit_after host game_type s rows (inr only) = rw only (
    discovered_again dto s s,
    rw (==_refl s.id) (rw (updated_at_path s s) refl),
    unfold discovered_again in ==_refl s.id,
  )

  -- The row of a report is found again by its path.
  known_after :
      (host : Host) (game_type : ℕ) (w : Fleet) (o : Option Instance)
      → known_instance (rows_of_host host game_type w.instances) (some path) ≡ o
      → (b : Instance) × (known_instance
            (rows_of_host host game_type (upsert_known dto host game_type o w).1.instances)
            (some path)
          ≡ some b)
        × (b.id ≡ (upsert_known dto host game_type o w).0.1)
  unfolding of_host
  known_after host game_type w none k =
      let rows = rows_of_host host game_type w.instances in
      let fresh = discovered_first dto host game_type w.next_id in
      let longer =
        select-append_one (of_host host game_type) w.instances fresh
          (created_of_host host game_type w.next_id) in
      (
        fresh,
        rw longer (
            found_by_path (rows ++ fresh ∷ []) path (
              find_first-append_last (at_path path) rows fresh (not_found rows path k)
                (created_at_path host game_type w.next_id))),
        unfold discovered_first in refl,
      )
  known_after host game_type w (some s) k =
      let rows = rows_of_host host game_type w.instances in
      let is_it : Instance → Bool = λ x. x.id == s.id in
      let again = discovered_again dto s in
      let kept =
        select-update_where (of_host host game_type) is_it again w.instances
          (λ x. unfold discovered_again in refl) in
      rw kept (
        let (b, hit, same) = hit_after host game_type s rows (known_cases rows path k) in
        (b, found_by_path (update_where is_it again rows) path hit, ground (arith, same)))

same_game_type :
    (dto : Discovered) (host : Host) (game_type : ℕ) (o : Option Instance) (w : Fleet)
    → (game_type_id_by_slug slug_7dtd (upsert_known dto host game_type o w).1
        ≡ game_type_id_by_slug slug_7dtd w)
      × ((upsert_known dto host game_type o w).1.hosts ≡ w.hosts)
unfolding game_type_id_by_slug
same_game_type dto host game_type none w = (refl, refl)
same_game_type dto host game_type (some s) w = (refl, refl)

upsert_at :
    (host_id : ℕ) (dto : Discovered) (w : Fleet) (host : Host) (game_type : ℕ) (path : Option Text)
    (o : Option Instance)
    → find_host host_id w.hosts ≡ some host
    → game_type_id_by_slug slug_7dtd w ≡ ok game_type
    → trimmed_or_null dto.install_path ≡ path
    → known_instance (rows_of_host host game_type w.instances) path ≡ o
    → upsert_discovered host_id dto w ≡ ok (upsert_known dto host game_type o w)
unfolding upsert_discovered
upsert_at host_id dto w host game_type path o found slug e known =
    rw (found, slug, e) (ap (λ x. ok (upsert_known dto host game_type x w)) known)

-- An agent that discovers an installation at a path, and then reports one at the same path again, gets
-- the instance of the first report: the second report creates nothing, whatever else it says.
pub upsert_discovered_again :
    (host_id : ℕ) (dto dto' : Discovered) (w w' : Fleet) (path : Text) (created : Bool) (i : ℕ)
    → trimmed_or_null dto.install_path ≡ some path
    → trimmed_or_null dto'.install_path ≡ some path
    → upsert_discovered host_id dto w ≡ ok ((created, i), w')
    → (w'' : Fleet) × (upsert_discovered host_id dto' w' ≡ ok ((false, i), w''))
upsert_discovered_again host_id dto dto' w w' path created i e e' h =
    let (host, g, found, slug, k) = upsert_inv host_id dto w h in
    let rows = rows_of_host host g w.instances in
    let o = known_instance rows (some path) in
    let done : upsert_known dto host g o w ≡ ((created, i), w') = rw (← e) k in
    let (b, known, id_b) = known_after dto path e host g w o refl in
    let (types, hosts) = same_game_type dto host g o w in
    let w1 = (upsert_known dto host g o w).1 in
    let id_i : b.id ≡ i = id_b ∙ ap (λ r. r.0.1) done in
    let again : upsert_discovered host_id dto' w1 ≡ ok (upsert_known dto' host g (some b) w1) =
      upsert_at host_id dto' w1 host g (some path) (some b) (ap (find_host host_id) hosts ∙ found)
        (types ∙ slug) e' known in
    (
      (upsert_known dto' host g (some b) w1).1,
      ap (upsert_discovered host_id dto') (sym (ap (λ r. r.1) done))
          ∙ again
          ∙ ap (λ (j : ℕ). ok ((false, j), (upsert_known dto' host g (some b) w1).1)) id_i,
    )
