-- ===== src/Cron/Search.antt =====
-- cron-next.ts `getNextCronRun`: the first matching minute after the given time.
use mastermind_7dtd_ai_serve.Base.{
  ℕ, zero, suc, ◌+◌, ◌*◌, ◌<◌, ◌≡◌, ◌∙◌, subst, true, false, none, some, arith, Bool-cases,
  Option-cases, inl, inr, ◌⊎◌, ◌↔◌, refl, sym, ap, Bool, ◌&&◌, Option, List, any, ◌==◌,
}
use mastermind_7dtd_ai_serve.Base.Text.{Text}
use mastermind_7dtd_ai_serve.Base.Result.{ok, err}
use mastermind_7dtd_ai_serve.Cron.{
  Calendar, no_next_run, Cron, parse_cron, minute_ms, max_minutes, matches, allows, search_from,
  first_candidate, found_or_throw, get_next_cron_run,
}

zero_rounds : (from : ℕ) → from + zero * minute_ms ≡ from
zero_rounds from = omega arith

next_round : (from k : ℕ) → from + suc k * minute_ms ≡ from + minute_ms + k * minute_ms
next_round from k = omega arith

module _ (cal : Calendar) (cron : Cron) where
  -- `t` is the first of the `n` minutes from `from` on that matches.
  pub record IsFirstMatch (n from t : ℕ) : Type 0 where
    pub matched : matches cal cron t ≡ true
    pub round : ℕ
    pub in_time : round < n
    pub on_minute : t ≡ from + round * minute_ms
    pub none_before : (k : ℕ) → k < round → matches cal cron (from + k * minute_ms) ≡ false

  IsFirstMatch-next :
      (n from t : ℕ)
      → matches cal cron from ≡ false
      → IsFirstMatch n (from + minute_ms) t
      → IsFirstMatch (suc n) from t
  IsFirstMatch-next n from t h f = record {
    matched = f.matched;
    round = suc f.round;
    in_time = omega arith;
    on_minute = omega (arith, f.on_minute);
    none_before = earlier;
  }
    where
      earlier : (k : ℕ) → k < suc f.round → matches cal cron (from + k * minute_ms) ≡ false
      earlier zero l = rw (zero_rounds from) h
      earlier (suc k) l = rw (next_round from k) (f.none_before k (omega arith))

  search_from-some : (n from t : ℕ) → search_from cal n cron from ≡ some t → IsFirstMatch n from t
  unfolding search_from
  search_from-some zero from t e = cc
  search_from-some (suc n) from t e = elim (Bool-cases (matches cal cron from)) [
    | inr g ↦
        IsFirstMatch-next n from t g
          (search_from-some n (from + minute_ms) t (rw (g, search_from) at e))
    | inl h ↦
        let same : from ≡ t = cc (rw (h, search_from) at e) in
        subst (IsFirstMatch (suc n) from) same (record {
          matched = h;
          round = 0;
          in_time = omega arith;
          on_minute = omega arith;
          none_before = λ k l. absurd (omega arith);
        })
  ]

  search_from-none :
      (n from : ℕ)
      → search_from cal n cron from ≡ none
      → (k : ℕ) → k < n
      → matches cal cron (from + k * minute_ms) ≡ false
  unfolding search_from
  search_from-none zero from e k l = absurd (omega arith)
  search_from-none (suc n) from e k l = elim (Bool-cases (matches cal cron from)) [
    | inl h ↦ cc (rw (h, search_from) at e)
    | inr g ↦ at_round k l g (search_from-none n (from + minute_ms) (rw (g, search_from) at e))
  ]
    where
      at_round :
          (k : ℕ)
          → k < suc n
          → matches cal cron from ≡ false
          → ((j : ℕ) → j < n → matches cal cron (from + minute_ms + j * minute_ms) ≡ false)
          → matches cal cron (from + k * minute_ms) ≡ false
      at_round zero l g h = rw (zero_rounds from) g
      at_round (suc k) l g h = rw (next_round from k) (h k (omega arith))

run_of_search :
    (cal : Calendar) (expression : Text) (from : ℕ) {cron : Cron}
    → parse_cron expression ≡ ok cron
    → get_next_cron_run cal expression from
      ≡ found_or_throw (search_from cal max_minutes cron (first_candidate cal from))
unfolding get_next_cron_run
run_of_search cal expression from e = rw e

-- A field that is `*` permits every value, and a list those that stand in it.
abbrev pub Permits : Option (List ℕ) → ℕ → Type 0
Permits none value = Unit
Permits (some values) value = any (λ x. x == value) values ≡ true

-- Every field permits its part of the local time.
abbrev pub Fits : Calendar → Cron → ℕ → Type 0
Fits cal cron t =
    Permits cron.months (cal.month t)
    × Permits cron.doms (cal.date t)
    × Permits cron.dows (cal.day t)
    × Permits cron.hours (cal.hours t)
    × Permits cron.minutes (cal.minutes t)

-- The minute after `from`, without seconds.
abbrev pub minute_after : Calendar → ℕ → ℕ
minute_after cal from =
    cal.set_minutes (cal.clear_seconds from) (cal.minutes (cal.clear_seconds from) + 1)

-- `t` is the first of the `n` minutes from `from` on that fits.
pub record IsFirst (cal : Calendar) (cron : Cron) (n from t : ℕ) : Type 0 where
  pub fits : Fits cal cron t
  pub round : ℕ
  pub in_time : round < n
  pub on_minute : t ≡ from + round * 60000
  pub none_before : (k : ℕ) → k < round → Fits cal cron (from + k * 60000) → ⊥

Permits-allows : (o : Option (List ℕ)) (v : ℕ) → (allows o v ≡ true) ↔ Permits o v
unfolding allows
Permits-allows none v = (λ h. tt, λ h. refl)
Permits-allows (some values) v = (λ h. h, λ h. h)

all_five :
    (a b c d e : Bool)
    → (a && b && c && d && e) ≡ true
    → (a ≡ true) × (b ≡ true) × (c ≡ true) × (d ≡ true) × (e ≡ true)
all_five a b c d e h = (ground arith, ground arith, ground arith, ground arith, ground arith)

matches-Fits :
    (cal : Calendar) (cron : Cron) (t : ℕ) → (matches cal cron t ≡ true) ↔ Fits cal cron t
unfolding matches
matches-Fits cal cron t =
    let m = Permits-allows cron.months (cal.month t) in
    let d = Permits-allows cron.doms (cal.date t) in
    let w = Permits-allows cron.dows (cal.day t) in
    let h = Permits-allows cron.hours (cal.hours t) in
    let n = Permits-allows cron.minutes (cal.minutes t) in
    (
      λ e.
          let (e0, e1, e2, e3, e4) = all_five _ _ _ _ _ e in
          (m.0 e0, d.0 e1, w.0 e2, h.0 e3, n.0 e4),
      λ (p0, p1, p2, p3, p4). rw (m.1 p0, d.1 p1, w.1 p2, h.1 p3, n.1 p4) refl,
    )

no_fit : (cal : Calendar) (cron : Cron) (t : ℕ) → matches cal cron t ≡ false → Fits cal cron t → ⊥
no_fit cal cron t g f = let yes_too = (matches-Fits cal cron t).1 f in cc

IsFirst-match :
    (cal : Calendar) (cron : Cron) (n from t : ℕ)
    → IsFirstMatch cal cron n from t
    → IsFirst cal cron n from t
IsFirst-match cal cron n from t f = record {
  fits = (matches-Fits cal cron t).0 f.matched;
  round = f.round;
  in_time = f.in_time;
  on_minute = f.on_minute;
  none_before = λ k l. no_fit cal cron (from + k * minute_ms) (f.none_before k l);
}

minute_after_lem : (cal : Calendar) (from : ℕ) → first_candidate cal from ≡ minute_after cal from
unfolding first_candidate
minute_after_lem cal from = refl

-- For an expression that parses, the call either returns the first minute, from the minute after
-- `from` on, at which every field allows the local month, day of the month, day of the week, hour and
-- minute, within the next 366 days; or it throws, and then no minute of those 366 days fits.
pub get_next_cron_run-IsFirst :
    (cal : Calendar) (expression : Text) (from : ℕ) (cron : Cron)
    → parse_cron expression ≡ ok cron
    → ((t : ℕ) × (get_next_cron_run cal expression from ≡ ok t)
        × IsFirst cal cron (366 * 24 * 60) (minute_after cal from) t)
      ⊎ ((get_next_cron_run cal expression from ≡ err no_next_run)
          × ((k : ℕ) → k < 366 * 24 * 60 → Fits cal cron (minute_after cal from + k * 60000) → ⊥))
unfolding found_or_throw
get_next_cron_run-IsFirst cal expression from cron e =
    let run = run_of_search cal expression from e in
    let start = minute_after_lem cal from in
    elim (Option-cases (search_from cal max_minutes cron (first_candidate cal from))) [
      | inl h ↦ inr (
        run ∙ (rw (h, found_or_throw)),
        λ k l. no_fit cal cron (minute_after cal from + k * minute_ms) (
            ap (λ s. matches cal cron (s + k * minute_ms)) (sym start)
            ∙ search_from-none cal cron max_minutes (first_candidate cal from) h k l),
      )
      | inr (t, h) ↦ inl (
        t,
        run ∙ (rw (h, found_or_throw)),
        subst (λ s. IsFirst cal cron max_minutes s t) start
            (IsFirst-match cal cron max_minutes (first_candidate cal from) t
              (search_from-some cal cron max_minutes (first_candidate cal from) t h)),
      )
    ]
