-- ===== src/Hosts/Presence.antt =====
-- hosts.service.ts: heartbeats against the sweep of silent hosts.
use mastermind_7dtd_ai_serve.Base.{
  ℕ, ◌+◌, ◌≤◌, ◌≡◌, refl, sym, ◌∙◌, ◌≢◌, Bool, true, false, Option, none, some, List, [], ◌∷◌,
  arith, ◌==◌, ==_refl, inl, inr, Bool-cases, Option-cases, find_first, select, update_where, any,
  All, All-of, All-map, All-select, All-updated, select_none, leb, ◌*◌, ap,
}
use mastermind_7dtd_ai_serve.Base.Text.{text_eq, lit}
use mastermind_7dtd_ai_serve.Base.Result.{ok, ok-injective}
use mastermind_7dtd_ai_serve.Fleet.{Host, Org, Fleet}
use mastermind_7dtd_ai_serve.Hosts.{
  HeartbeatMetrics, beaten, host_in_org, add_sample, record_heartbeat, is_silent,
  sweep_offline_hosts, offline, last_sample_of,
}

is_silent-offline :
    (now threshold : ℕ) (h : Host)
    → is_silent now threshold (record h { status = some offline }) ≡ false
unfolding is_silent text_eq lit
is_silent-offline now threshold h = refl

-- Each row of the list that passes the test has its id among the selected rows.
selected_ids :
    (p : Host → Bool) (hs : List Host)
    → All (λ h. p h ≡ true → any (λ s. s.id == h.id) (select p hs) ≡ true) hs
unfolding select any
selected_ids p [] = tt
selected_ids p (h ∷ hs) = (
  (λ t. rw t (rw (==_refl h.id) refl)),
  All-map
      (λ x k e. elim (Bool-cases (p h)) [ inl t ↦ rw t (ground (arith, k e)) | inr g ↦ rw g (k e) ])
      hs (selected_ids p hs),
)

-- After a sweep, a second sweep with the same clock and threshold finds no silent host.
sweep_offline_hosts_settled :
    (now threshold : ℕ) (w : Fleet)
    → (sweep_offline_hosts now threshold (sweep_offline_hosts now threshold w).1).0 ≡ []
unfolding sweep_offline_hosts
sweep_offline_hosts_settled now threshold w =
    let stale = select (is_silent now threshold) w.hosts in
    let hit : Host → Bool = λ h. any (λ s. s.id == h.id) stale in
    let off : Host → Host = λ h. record h { status = some offline } in
    select_none (is_silent now threshold) (update_where hit off w.hosts) (
      All-updated (λ h. is_silent now threshold h ≡ false) hit off w.hosts
        (All-map
          (λ h k. (
            (λ t. is_silent-offline now threshold h),
            (λ g. elim (Bool-cases (is_silent now threshold h)) [ inl t ↦ cc (k t) | inr f ↦ f ]),
          ))
          w.hosts (selected_ids (is_silent now threshold) w.hosts)))

add_sample-hosts :
    (now i org : ℕ) (m : Option HeartbeatMetrics) (o : Option Org) (w : Fleet)
    → (add_sample now i org m o w).hosts ≡ w.hosts
unfolding add_sample last_sample_of
add_sample-hosts now i org none o w = refl
add_sample-hosts now i org (some m) none w = refl
add_sample-hosts now i org (some m) (some o) w =
    elim (Bool-cases (leb (last_sample_of i w.last_sample + o.health_interval_sec * 1000) now)) [
      | inl t ↦ rw t refl
      | inr g ↦ rw g refl
    ]

record_heartbeat_inv :
    (now i org : ℕ) (m : Option HeartbeatMetrics) (w : Fleet) {w' : Fleet} {was : Bool}
    → record_heartbeat now i org m w ≡ ok (was, w')
    → w'.hosts ≡ update_where (λ h. h.id == i) (beaten now m) w.hosts
unfolding record_heartbeat
record_heartbeat_inv now i org m w {w'} h = elim (Option-cases (host_in_org org i w.hosts)) [
  | inl none_found ↦ cc (rw (none_found, record_heartbeat) at h)
  | inr (e, found) ↦
      let pair = ok-injective (rw (found, record_heartbeat) at h) in
      let same : add_sample now i org m (find_first (λ o. o.id == org) w.orgs)
            (record w { hosts = update_where (λ h. h.id == i) (beaten now m) w.hosts })
          ≡ w' =
        ap (λ r. r.1) pair in
      ap (λ v. v.hosts) (sym same) ∙ add_sample-hosts now i org m _ _
]

not_silent :
    (now later threshold : ℕ) (m : Option HeartbeatMetrics) (h : Host)
    → later ≤ now + threshold
    → is_silent later threshold (beaten now m h) ≡ false
unfolding is_silent
not_silent now later threshold m h l = ground arith

-- A host whose heartbeat was recorded is not among the hosts that a sweep reports within the threshold
-- after the heartbeat.
record_heartbeat-sweep :
    (now later threshold i org : ℕ) (m : Option HeartbeatMetrics) (w w' : Fleet) (was : Bool)
    → record_heartbeat now i org m w ≡ ok (was, w')
    → later ≤ now + threshold
    → All (λ h. h.id ≢ i) (sweep_offline_hosts later threshold w').0
unfolding sweep_offline_hosts
record_heartbeat-sweep now later threshold i org m w w' was h l =
    let hosts = update_where (λ h. h.id == i) (beaten now m) w.hosts in
    let P : Host → Type 0 = λ h. h.id ≡ i → is_silent later threshold h ≡ false in
    let quiet : All P hosts =
      All-updated P (λ h. h.id == i) (beaten now m) w.hosts
        (All-of _ (λ h. ((λ t e. not_silent now later threshold m h l), (λ g e. ground arith)))
          w.hosts) in
    rw (record_heartbeat_inv now i org m w h) (
      All-map (λ x (k, t) e. ground (arith, k e)) (select (is_silent later threshold) hosts)
        (All-select P (is_silent later threshold) hosts quiet))
