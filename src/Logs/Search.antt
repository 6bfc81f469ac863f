-- ===== src/Logs/Search.antt =====
-- JavaScript's `startsWith`, `includes`, `lastIndexOf` and `slice` at the end of a text.
use mastermind_7dtd_ai_serve.Base.{
  ℕ, zero, suc, ◌+◌, ◌-◌, ◌≤◌, ◌≡◌, refl, Bool, true, ◌||◌, Option, none, some, [], ◌∷◌, arith, inl,
  inr, if◌then◌else◌, Bool-cases, Option-cases, length, drop,
}
use mastermind_7dtd_ai_serve.Base.Text.{Text}
use mastermind_7dtd_ai_serve.Players.{starts_with}

-- `s.includes(needle)`.
unfoldable pub contains : Text → Text → Bool
contains needle [] = starts_with [] needle
contains needle (c ∷ s) = starts_with (c ∷ s) needle || contains needle s

-- The greatest index not before `from` at which the needle stands, counting the text's start as `from`.
last_from : Text → ℕ → Text → Option ℕ
last_from needle from [] = if starts_with [] needle then some from else none
last_from needle from (c ∷ s) = elim (last_from needle (from + 1) s) [
  | some i ↦ some i
  | none ↦ if starts_with (c ∷ s) needle then some from else none
]

-- `s.lastIndexOf(needle)`, with `none` for -1.
unfoldable pub last_index_of : Text → Text → Option ℕ
unfolding last_from
last_index_of needle s = last_from needle 0 s

-- `s.slice(-n)` for a positive `n`.
unfoldable pub last_units : ℕ → Text → Text
last_units n s = drop (length s - n) s

-- The needle stands at the index.
abbrev pub OccursAt : Text → Text → ℕ → Type 0
OccursAt needle s i = (i ≤ length s) × (starts_with (drop i s) needle ≡ true)

last_from-OccursAt :
    (needle : Text) (from : ℕ) (s : Text) {j : ℕ}
    → last_from needle from s ≡ some j
    → (i : ℕ) × (j ≡ from + i) × OccursAt needle s i
unfolding last_from
last_from-OccursAt needle from [] {j} e = elim (Bool-cases (starts_with [] needle)) [
  | inl t ↦ let same : from ≡ j = cc (rw t at e) in (0, omega arith, (omega arith, t))
  | inr g ↦ cc (rw g at e)
]
last_from-OccursAt needle from (c ∷ s) {j} e = elim (Option-cases (last_from needle (from + 1) s)) [
  | inl n ↦ elim (Bool-cases (starts_with (c ∷ s) needle)) [
    | inl t ↦ let same : from ≡ j = cc (rw t at (rw n at e)) in (0, omega arith, (omega arith, t))
    | inr g ↦ cc (rw g at (rw n at e))
  ]
  | inr (k, f) ↦
      let same : k ≡ j = cc (rw f at e) in
      let (i, at, (l, o)) = last_from-OccursAt needle (from + 1) s f in
      (suc i, omega arith, (omega arith, o))
]

last_from-greatest :
    (needle : Text) (from : ℕ) (s : Text) (i : ℕ)
    → OccursAt needle s i
    → (j : ℕ) × (last_from needle from s ≡ some j) × (from + i ≤ j)
unfolding last_from
last_from-greatest needle from [] zero (l, o) = (from, rw o refl, omega arith)
last_from-greatest needle from [] (suc i) (l, o) = absurd (omega arith)
last_from-greatest needle from (c ∷ s) zero (l, o) =
    elim (Option-cases (last_from needle (from + 1) s)) [
      | inl n ↦ (from, rw (n, o) refl, omega arith)
      | inr (k, f) ↦
          let (i, at, rest) = last_from-OccursAt needle (from + 1) s f in
          (k, rw f refl, omega arith)
    ]
last_from-greatest needle from (c ∷ s) (suc i) (l, o) =
    let (j, f, le) = last_from-greatest needle (from + 1) s i (omega arith, o) in
    (j, rw f refl, omega arith)

-- The index is one at which the needle stands, and none is greater.
pub last_index_of-OccursAt :
    (needle s : Text) {j : ℕ} → last_index_of needle s ≡ some j → OccursAt needle s j
unfolding last_index_of
last_index_of-OccursAt needle s {j} e =
    let (i, at, o) = last_from-OccursAt needle 0 s e in
    let same : i ≡ j = omega arith in rw (← same) o

pub last_index_of-greatest :
    (needle s : Text) (i : ℕ)
    → OccursAt needle s i
    → (j : ℕ) × (last_index_of needle s ≡ some j) × (i ≤ j)
unfolding last_index_of
last_index_of-greatest needle s i o =
    let (j, e, l) = last_from-greatest needle 0 s i o in (j, e, omega arith)
