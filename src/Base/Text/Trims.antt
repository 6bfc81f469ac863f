-- ===== src/Base/Text/Trims.antt =====
-- Texts that are trimmed and in lower case are not changed by either.
use Prim.Native.Nat.{ℕ}
use mathlib.Core.Path.{◌≡◌, refl, sym, ap, ◌∙◌}
use mathlib.Core.Logic.{inl, inr}
use mathlib.Core.Bool.{Bool, true, not}
use mathlib.Core.List.{
  [], ◌∷◌, ◌++◌, map, map-append, reverse, reverse-cons, reverse-append, reverse-reverse,
}
use native.Mathlib.Omega.{arith}
use mastermind_7dtd_ai_serve.Base.Tests.{Bool-cases}
use mastermind_7dtd_ai_serve.Base.Text.{Text, is_space, trim_start, trim, lower_unit, to_lower}

-- The text does not start with white space.
abbrev starts_well : Text → Bool
starts_well [] = true
starts_well (c ∷ s) = not (is_space c)

trim_start-starts_well : (s : Text) → starts_well (trim_start s) ≡ true
unfolding trim_start
trim_start-starts_well [] = refl
trim_start-starts_well (c ∷ s) = elim (Bool-cases (is_space c)) [
  | inl t ↦ rw t (trim_start-starts_well s)
  | inr g ↦ rw g (rw g refl)
]

trim_start_stays : (s : Text) → starts_well s ≡ true → trim_start s ≡ s
unfolding trim_start
trim_start_stays [] h = refl
trim_start_stays (c ∷ s) h = elim (Bool-cases (is_space c)) [
  | inl t ↦ cc (rw t at h)
  | inr g ↦ rw g refl
]

-- What is removed stands before the rest.
trim_start_split : (s : Text) → (p : Text) × (s ≡ p ++ trim_start s)
unfolding trim_start
trim_start_split [] = ([], refl)
trim_start_split (c ∷ s) = elim (Bool-cases (is_space c)) [
  | inl t ↦ let (p, e) = trim_start_split s in (c ∷ p, rw t (ap (λ r. c ∷ r) e))
  | inr g ↦ ([], rw g refl)
]

starts_well_prefix : (v q : Text) → starts_well (v ++ q) ≡ true → starts_well v ≡ true
starts_well_prefix [] q h = refl
starts_well_prefix (c ∷ v) q h = h

trim-starts_well : (s : Text) → starts_well (trim s) ≡ true
unfolding trim
trim-starts_well s =
    let u = trim_start s in
    let (p, e) = trim_start_split (reverse u) in
    let parts : u ≡ reverse (trim_start (reverse u)) ++ reverse p =
      sym (reverse-reverse u) ∙ ap reverse e ∙ reverse-append p (trim_start (reverse u)) in
    starts_well_prefix (reverse (trim_start (reverse u))) (reverse p)
      (ap starts_well (sym parts) ∙ trim_start-starts_well s)

pub trim-trim : (s : Text) → trim (trim s) ≡ trim s
trim-trim s =
    let r = reverse (trim_start s) in
    let start : trim_start (trim s) ≡ trim s = trim_start_stays (trim s) (trim-starts_well s) in
    let again : trim_start (trim_start r) ≡ trim_start r =
      trim_start_stays (trim_start r) (trim_start-starts_well r) in
    unfold trim in
    (ap (λ x. reverse (trim_start (reverse x))) start
      ∙ ap (λ x. reverse (trim_start x)) (reverse-reverse (trim_start r))
      ∙ ap reverse again)

module _ (f : ℕ → ℕ) where
  map-reverse : (s : Text) → map f (reverse s) ≡ reverse (map f s)
  map-reverse [] = refl
  map-reverse (c ∷ s) =
      ap (map f) (reverse-cons c s)
      ∙ map-append f (reverse s) (c ∷ [])
      ∙ ap (λ r. r ++ f c ∷ []) (map-reverse s)
      ∙ sym (reverse-cons (f c) (map f s))

lower_unit-is_space : (c : ℕ) → is_space (lower_unit c) ≡ is_space c
unfolding lower_unit is_space
lower_unit-is_space c = ground arith

lower_unit_again : (c : ℕ) → lower_unit (lower_unit c) ≡ lower_unit c
unfolding lower_unit
lower_unit_again c = ground arith

trim_start-lower : (s : Text) → trim_start (map lower_unit s) ≡ map lower_unit (trim_start s)
unfolding trim_start
trim_start-lower [] = refl
trim_start-lower (c ∷ s) = elim (Bool-cases (is_space c)) [
  | inl t ↦ rw (lower_unit-is_space c, t) (trim_start-lower s)
  | inr g ↦ rw (lower_unit-is_space c, g) refl
]

pub trim-to_lower : (s : Text) → trim (to_lower s) ≡ to_lower (trim s)
unfolding trim to_lower
trim-to_lower s =
    ap (λ x. reverse (trim_start (reverse x))) (trim_start-lower s)
    ∙ ap (λ x. reverse (trim_start x)) (sym (map-reverse lower_unit (trim_start s)))
    ∙ ap reverse (trim_start-lower (reverse (trim_start s)))
    ∙ sym (map-reverse lower_unit (trim_start (reverse (trim_start s))))

to_lower_again : (s : Text) → to_lower (to_lower s) ≡ to_lower s
unfolding to_lower
to_lower_again [] = refl
to_lower_again (c ∷ s) = rw (lower_unit_again c, to_lower_again s) refl

-- `s.trim().toLowerCase()` twice.
pub to_lower-trim_again : (s : Text) → to_lower (trim (to_lower (trim s))) ≡ to_lower (trim s)
to_lower-trim_again s =
    ap to_lower (trim-to_lower (trim s) ∙ ap to_lower (trim-trim s)) ∙ to_lower_again (trim s)
