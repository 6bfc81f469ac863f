-- ===== src/Hosts/Removal.antt =====
-- hosts.service.ts `remove`: what is left of a deleted host.
use mastermind_7dtd_ai_serve.Base.{
  ℕ, ◌≡◌, refl, false, some, arith, ◌==◌, inl, inr, Bool-cases, count_where, All, delete_where-All,
  ◌≢◌, ◌⊎◌,
}
use mastermind_7dtd_ai_serve.Base.Result.{ok, err}
use mastermind_7dtd_ai_serve.Fleet.{Host, Fleet, has_instances}
use mastermind_7dtd_ai_serve.Hosts.{host_in_org, remove_host, remove}

-- Deleting a host of the organisation is refused while a server instance stands on it. Otherwise it
-- succeeds, and then neither the host nor a run on it is left, and the instances are as before.
pub remove_complete :
    (org i user : ℕ) (w : Fleet) (h : Host)
    → host_in_org org i w.hosts ≡ some h
    → ((count_where (λ s. s.host_id == i) w.instances ≢ 0)
        × (remove org i user w ≡ err has_instances))
      ⊎ ((w' : Fleet) × (remove org i user w ≡ ok w')
          × All (λ x. (x.id == i) ≡ false) w'.hosts
          × All (λ r. (r.host_id == i) ≡ false) w'.runs
          × (w'.instances ≡ w.instances)
          × (count_where (λ s. s.host_id == i) w'.instances ≡ 0))
unfolding remove remove_host
remove_complete org i user w h found =
    elim (Bool-cases (count_where (λ s. s.host_id == i) w.instances == 0)) [
      | inl t ↦ inr (
        remove_host org i user h w,
        rw (found, t) refl,
        delete_where-All (λ x. x.id == i) w.hosts,
        delete_where-All (λ r. r.host_id == i) w.runs,
        refl,
        ground arith,
      )
      | inr g ↦ inl (ground arith, rw (found, g) refl)
    ]
