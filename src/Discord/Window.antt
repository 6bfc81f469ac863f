-- ===== src/Discord/Window.antt =====
-- The rate limit that discord.constants.ts describes, for one key: a fixed window that opens with the
-- first call after the last window has closed, and admits ten calls.
use mastermind_7dtd_ai_serve.Base.{
  ℕ, ◌+◌, ◌≤◌, Bool, true, false, ◌&&◌, Option, none, some, List, [], ◌∷◌, arith, leb, ltb,
  if◌then◌else◌, count_where,
}
use mastermind_7dtd_ai_serve.Discord.{max_per_window, window_ms}

-- How many calls a window has admitted, and when it opened.
pub record Window : Type 0 where
  pub used : ℕ
  pub opened : ℕ

abbrev pub admit : ℕ → Option Window → Bool × Option Window
admit now none = (true, some (record { used = 1; opened = now }))
admit now (some w) =
    if leb (w.opened + window_ms) now
    then (true, some (record { used = 1; opened = now }))
    else (if leb max_per_window w.used
        then (false, some w)
        else (true, some (record { used = w.used + 1; opened = w.opened })))

abbrev pub keep_if : Bool → ℕ → List ℕ → List ℕ
keep_if true t ts = t ∷ ts
keep_if false t ts = ts

-- The times of the calls that are admitted.
unfoldable pub admitted : List ℕ → Option Window → List ℕ
admitted [] w = []
admitted (t ∷ ts) w = let (granted, w') = admit t w in keep_if granted t (admitted ts w')

-- The times do not go back.
abbrev pub IsClocked : ℕ → List ℕ → Type 0
IsClocked from [] = Unit
IsClocked from (t ∷ ts) = (from ≤ t) × IsClocked t ts

module _ (a : ℕ) where
  abbrev pub in_minute : ℕ → Bool
  in_minute t = leb a t && ltb t (a + 60000)

  abbrev counted : List ℕ → Option Window → ℕ
  counted ts w = count_where in_minute (admitted ts w)

  counted_keep :
      (b : Bool) (t : ℕ) (ts : List ℕ)
      → count_where in_minute (keep_if b t ts)
        ≤ (if in_minute t then 1 else 0) + count_where in_minute ts
  unfolding count_where
  counted_keep true t ts = omega arith
  counted_keep false t ts = omega arith

  -- After the interval no call counts.
  none_later :
      (ts : List ℕ) (w : Option Window) (from : ℕ)
      → IsClocked from ts
      → a + window_ms ≤ from
      → counted ts w ≤ 0
  unfolding admitted count_where
  none_later [] w from c l = omega arith
  none_later (t ∷ ts) w from (c, cs) l = ground (
    arith,
    counted_keep (admit t w).0 t (admitted ts (admit t w).1),
    none_later ts (admit t w).1 t cs,
  )

  -- A window that opened in the interval does not close in it.
  one_window :
      (ts : List ℕ) (u s from : ℕ)
      → IsClocked from ts
      → a ≤ s
      → s ≤ from
      → u ≤ 10
      → counted ts (some (record { used = u; opened = s })) + u ≤ 10
  unfolding admitted count_where
  one_window [] u s from c l m n = omega arith
  one_window (t ∷ ts) u s from (c, cs) l m n = ground (
    arith,
    none_later ts (some (record { used = 1; opened = t })) t cs,
    none_later ts (some (record { used = u; opened = s })) t cs,
    none_later ts (some (record { used = u + 1; opened = s })) t cs,
    one_window ts u s t cs,
    one_window ts (u + 1) s t cs,
  )

  -- Calls that all come after the interval's start: what is left of the open window, and another one.
  two_windows :
      (ts : List ℕ) (u s from : ℕ)
      → IsClocked from ts
      → a ≤ from
      → s ≤ from
      → u ≤ 10
      → counted ts (some (record { used = u; opened = s })) + u ≤ 20
  unfolding admitted count_where
  two_windows [] u s from c l m n = omega arith
  two_windows (t ∷ ts) u s from (c, cs) l m n =
      ground (arith, one_window ts 1 t t cs, two_windows ts u s t cs, two_windows ts (u + 1) s t cs)

  any_window :
      (ts : List ℕ) (u s from : ℕ)
      → IsClocked from ts
      → s ≤ from
      → u ≤ 10
      → counted ts (some (record { used = u; opened = s })) ≤ 20
  unfolding admitted count_where
  any_window [] u s from c m n = omega arith
  any_window (t ∷ ts) u s from (c, cs) m n = ground (
    arith,
    one_window ts 1 t t cs,
    two_windows ts u s t cs,
    two_windows ts (u + 1) s t cs,
    any_window ts 1 t t cs,
    any_window ts u s t cs,
    any_window ts (u + 1) s t cs,
  )

  pub admitted_quota :
      (ts : List ℕ) → IsClocked 0 ts → count_where in_minute (admitted ts none) ≤ 20
  unfolding admitted count_where
  admitted_quota [] c = omega arith
  admitted_quota (t ∷ ts) (c, cs) = ground (arith, one_window ts 1 t t cs, any_window ts 1 t t cs)
