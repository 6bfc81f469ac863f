-- ===== src/Base/Text/Splits.antt =====
-- What `split` gives for a text with a separator.
use Prim.Native.Nat.{ℕ}
use mathlib.Core.Path.{◌≡◌, sym, ap, ◌∙◌}
use mathlib.Core.Bool.{false}
use mathlib.Core.List.{[], ◌∷◌, ◌++◌, append-nil, append_assoc, reverse, reverse-cons}
use native.Mathlib.Omega.{arith}
use mastermind_7dtd_ai_serve.Base.Tests.{◌==◌, ==_refl}
use mastermind_7dtd_ai_serve.Base.Text.{Text, has_unit, split_from, split}

longer : (c : ℕ) (cur a : Text) → reverse (c ∷ cur) ++ a ≡ reverse cur ++ c ∷ a
longer c cur a = ap (λ r. r ++ a) (reverse-cons c cur) ∙ append_assoc (reverse cur) (c ∷ []) a

split_from-first :
    (sep : ℕ) (cur a b : Text)
    → has_unit sep a ≡ false
    → split_from sep cur (a ++ sep ∷ b) ≡ (reverse cur ++ a) ∷ split_from sep [] b
unfolding split_from has_unit
split_from-first sep cur [] b h =
    rw (==_refl sep) (ap (λ r. r ∷ split_from sep [] b) (sym (append-nil (reverse cur))))
split_from-first sep cur (c ∷ a) b h =
    let other : (c == sep) ≡ false = ground arith in
    let rest : has_unit sep a ≡ false = ground arith in
    rw other
      (split_from-first sep (c ∷ cur) a b rest ∙ ap (λ r. r ∷ split_from sep [] b) (longer c cur a))

split_from-none :
    (sep : ℕ) (cur a : Text)
    → has_unit sep a ≡ false
    → split_from sep cur a ≡ (reverse cur ++ a) ∷ []
unfolding split_from has_unit
split_from-none sep cur [] h = ap (λ r. r ∷ []) (sym (append-nil (reverse cur)))
split_from-none sep cur (c ∷ a) h =
    let other : (c == sep) ≡ false = ground arith in
    let rest : has_unit sep a ≡ false = ground arith in
    rw other (split_from-none sep (c ∷ cur) a rest ∙ ap (λ r. r ∷ []) (longer c cur a))

pub split-first :
    (sep : ℕ) (a b : Text) → has_unit sep a ≡ false → split sep (a ++ sep ∷ b) ≡ a ∷ split sep b
unfolding split
split-first sep a b h = split_from-first sep [] a b h

pub split-none : (sep : ℕ) (a : Text) → has_unit sep a ≡ false → split sep a ≡ a ∷ []
unfolding split
split-none sep a h = split_from-none sep [] a h
