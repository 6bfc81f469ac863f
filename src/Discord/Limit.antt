-- ===== src/Discord/Limit.antt =====
-- discord.service.ts: the limiter's map keeps one window for each key.
use mastermind_7dtd_ai_serve.Base.{
  ℕ, ◌+◌, ◌≤◌, ◌≡◌, refl, ap, subst, true, false, ◌&&◌, Option, none, some, List, [], ◌∷◌, ◌++◌,
  arith, inl, inr, leb, Bool-cases, count_where, find_first, find_first_holds,
  find_first-update_kept, find_first-append_last, update_where,
}
use mastermind_7dtd_ai_serve.Base.Text.{Text, text_eq, text_eq_iff, text_eq_refl}
use mastermind_7dtd_ai_serve.Discord.{
  Bucket, max_per_window, window_ms, find_bucket, set_bucket, consume_from, try_consume_rate_limit,
}
use mastermind_7dtd_ai_serve.Discord.Window.{
  Window, admit, admitted, keep_if, IsClocked, in_minute, admitted_quota,
}

-- A call of the limiter: its key, and the clock.
pub record Call : Type 0 where
  pub key : Text
  pub at : ℕ

-- The times at which calls for `key` are granted, in a sequence of calls for any keys.
unfoldable pub granted : Text → List Call → List Bucket → List ℕ
granted key [] limits = []
granted key (c ∷ cs) limits =
    let (ok, limits') = try_consume_rate_limit c.key c.at limits in
    keep_if (ok && text_eq c.key key) c.at (granted key cs limits')

-- The times of the calls for `key`.
unfoldable pub calls_at : Text → List Call → List ℕ
calls_at key [] = []
calls_at key (c ∷ cs) = keep_if (text_eq c.key key) c.at (calls_at key cs)

abbrev window_from : Option Bucket → Option Window
window_from none = none
window_from (some b) = some (record { used = b.count; opened = b.window_start })

-- The window of a key in the map.
abbrev pub window_of : Text → List Bucket → Option Window
window_of key limits = window_from (find_bucket key limits)

find_bucket-set_self :
    (key : Text) (n s : ℕ) (limits : List Bucket) {b : Bucket}
    → find_bucket key limits ≡ some b
    → window_of key (set_bucket n s key limits) ≡ some (record { used = n; opened = s })
find_bucket-set_self key n s limits {b} e =
    let same = text_eq key key in
    let hit : text_eq b.key key ≡ true = find_first_holds (λ x. text_eq x.key key) limits e in
    rw
      (find_first-update_kept (λ x. text_eq x.key key) (λ x. text_eq x.key key)
        (λ x. record x { count = n; window_start = s }) limits (λ x. refl) e)
      (rw hit refl)

find_bucket-set_other :
    (key other : Text) (n s : ℕ) (limits : List Bucket)
    → text_eq key other ≡ false
    → find_bucket other (set_bucket n s key limits) ≡ find_bucket other limits
unfolding find_first update_where
find_bucket-set_other key other n s [] d = refl
find_bucket-set_other key other n s (b ∷ bs) d = ground (
  arith,
  text_eq_iff b.key key,
  text_eq_iff b.key other,
  text_eq_iff key other,
  find_bucket-set_other key other n s bs d,
)

find_bucket-append_other :
    (other : Text) (b : Bucket) (limits : List Bucket)
    → text_eq b.key other ≡ false
    → find_bucket other (limits ++ b ∷ []) ≡ find_bucket other limits
unfolding find_first
find_bucket-append_other other b [] d = rw d refl
find_bucket-append_other other b (c ∷ cs) d = ground (arith, find_bucket-append_other other b cs d)

-- A call moves its key's window as the specification's `admit` does.
consume_from_self :
    (o : Option Bucket) (key : Text) (now : ℕ) (limits : List Bucket)
    → find_bucket key limits ≡ o
    → ((consume_from o key now limits).0 ≡ (admit now (window_from o)).0)
      × (window_of key (consume_from o key now limits).1 ≡ (admit now (window_from o)).1)
consume_from_self none key now limits e = (
  refl,
  ap window_from (
      find_first-append_last (λ b. text_eq b.key key) limits
        (record { key = key; count = 1; window_start = now }) e (text_eq_refl key)),
)
consume_from_self (some b) key now limits e =
    elim (Bool-cases (leb (b.window_start + window_ms) now)) [
      | inl t ↦ rw t (refl, find_bucket-set_self key 1 now limits e)
      | inr g ↦ elim (Bool-cases (leb max_per_window b.count)) [
        | inl t ↦ rw g (rw t (refl, ap window_from e))
        | inr h ↦ rw g (rw h (refl, find_bucket-set_self key (b.count + 1) b.window_start limits e))
      ]
    ]

consume_from_other :
    (o : Option Bucket) (key other : Text) (now : ℕ) (limits : List Bucket)
    → text_eq key other ≡ false
    → window_of other (consume_from o key now limits).1 ≡ window_of other limits
consume_from_other none key other now limits d =
    ap window_from (find_bucket-append_other other _ limits d)
consume_from_other (some b) key other now limits d =
    elim (Bool-cases (leb (b.window_start + window_ms) now)) [
      | inl t ↦ rw t (ap window_from (find_bucket-set_other key other 1 now limits d))
      | inr g ↦ elim (Bool-cases (leb max_per_window b.count)) [
        | inl t ↦ rw g (rw t refl)
        | inr h ↦ rw g (
            rw h (
              ap window_from
                (find_bucket-set_other key other (b.count + 1) b.window_start limits d)))
      ]
    ]

step_self :
    (asked key : Text) (now : ℕ) (ts rest : List ℕ) (limits : List Bucket)
    → asked ≡ key
    → rest ≡ admitted ts (window_of key (try_consume_rate_limit asked now limits).1)
    → keep_if ((try_consume_rate_limit asked now limits).0 && true) now rest
      ≡ admitted (now ∷ ts) (window_of key limits)
unfolding try_consume_rate_limit admitted
step_self asked key now ts rest limits same e =
    let k : rest ≡ admitted ts (window_of key (try_consume_rate_limit key now limits).1) =
      subst (λ x. rest ≡ admitted ts (window_of key (try_consume_rate_limit x now limits).1)) same
        e in
    let (r, w) = consume_from_self (find_bucket key limits) key now limits refl in
    rw (same, k, r, w)
      (elim (admit now (window_of key limits)).0
        as (λ b.
          keep_if (b && true) now (admitted ts (admit now (window_of key limits)).1)
          ≡ keep_if b now (admitted ts (admit now (window_of key limits)).1)) [
            | true ↦ refl
            | false ↦ refl
          ])

step_other :
    (asked key : Text) (now : ℕ) (ts rest : List ℕ) (limits : List Bucket)
    → text_eq asked key ≡ false
    → rest ≡ admitted ts (window_of key (try_consume_rate_limit asked now limits).1)
    → keep_if ((try_consume_rate_limit asked now limits).0 && false) now rest
      ≡ admitted ts (window_of key limits)
unfolding try_consume_rate_limit
step_other asked key now ts rest limits other e =
    rw (e, consume_from_other (find_bucket asked limits) asked key now limits other)
      (elim (try_consume_rate_limit asked now limits).0
        as (λ b.
          keep_if (b && false) now (admitted ts (window_of key limits))
          ≡ admitted ts (window_of key limits)) [ true ↦ refl | false ↦ refl ])

-- For each key, the calls that the limiter grants are those that a limiter of that key alone admits.
pub granted-refines :
    (key : Text) (cs : List Call) (limits : List Bucket)
    → granted key cs limits ≡ admitted (calls_at key cs) (window_of key limits)
unfolding granted calls_at admitted
granted-refines key [] limits = refl
granted-refines key (c ∷ cs) limits = elim (Bool-cases (text_eq c.key key)) [
  | inl t ↦ rw t (
      step_self c.key key c.at (calls_at key cs) _ limits ((text_eq_iff c.key key).0 t)
        (granted-refines key cs (try_consume_rate_limit c.key c.at limits).1))
  | inr g ↦ rw g (
      step_other c.key key c.at (calls_at key cs) _ limits g
        (granted-refines key cs (try_consume_rate_limit c.key c.at limits).1))
]

-- The clock does not go back from call to call.
abbrev pub AreClocked : ℕ → List Call → Type 0
AreClocked from [] = Unit
AreClocked from (c ∷ cs) = (from ≤ c.at) × AreClocked c.at cs

earlier-IsClocked :
    (from since : ℕ) (ts : List ℕ) → from ≤ since → IsClocked since ts → IsClocked from ts
earlier-IsClocked from since [] l c = tt
earlier-IsClocked from since (t ∷ ts) l (c, cs) = (omega arith, cs)

calls_at-IsClocked :
    (key : Text) (from : ℕ) (cs : List Call) → AreClocked from cs → IsClocked from (calls_at key cs)
unfolding calls_at
calls_at-IsClocked key from [] c = tt
calls_at-IsClocked key from (c ∷ cs) (l, k) =
    let rest = calls_at-IsClocked key c.at cs k in
    elim (Bool-cases (text_eq c.key key)) [
      | inl t ↦ rw t (l, rest)
      | inr g ↦ rw g (earlier-IsClocked from c.at (calls_at key cs) l rest)
    ]

-- In a sequence of calls by a clock that does not go back, from the empty map on, a key is granted at
-- most 20 calls in any 60 seconds.
pub granted_quota :
    (key : Text) (a : ℕ) (cs : List Call)
    → AreClocked 0 cs
    → count_where (in_minute a) (granted key cs []) ≤ 20
unfolding find_first
granted_quota key a cs clocked =
    rw (granted-refines key cs [])
      (admitted_quota a (calls_at key cs) (calls_at-IsClocked key 0 cs clocked))
