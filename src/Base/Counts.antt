-- ===== src/Base/Counts.antt =====
-- How many rows pass a test, after a deletion, and under a unique constraint.
use Prim.Native.Nat.{◌+◌, ◌≤◌}
use mathlib.Core.Path.{◌≡◌, refl, sym, ap, ◌∙◌}
use mathlib.Core.Logic.{inl, inr}
use mathlib.Core.Bool.{Bool, true, false}
use mathlib.Core.Option.{none, some}
use mathlib.Core.List.{List, [], ◌∷◌, ◌++◌}
use native.Mathlib.Omega.{arith}
use mastermind_7dtd_ai_serve.Base.Tests.{if◌then◌else◌, Bool-cases}
use mastermind_7dtd_ai_serve.Base.Lists.{
  find_first, delete_where, count_where, count_where-append, All,
}

module _ {ℓ} {A : Type ℓ} where
  delete_where-none : (p : A → Bool) (xs : List A) → count_where p xs ≤ 0 → delete_where p xs ≡ xs
  unfolding delete_where count_where
  delete_where-none p [] h = refl
  delete_where-none p (x ∷ xs) h = elim (Bool-cases (p x)) [
    | inl t ↦ absurd (ground arith)
    | inr g ↦ rw g (ap (λ ys. x ∷ ys) (delete_where-none p xs (ground arith)))
  ]

  -- The deletion of the one row that passes a test.
  pub count_where-delete_one :
      (p q : A → Bool) (xs : List A) {a : A}
      → find_first p xs ≡ some a
      → count_where p xs ≤ 1
      → count_where q (delete_where p xs) + (if q a then 1 else 0) ≡ count_where q xs
  unfolding find_first delete_where count_where
  count_where-delete_one p q [] e one = cc
  count_where-delete_one p q (x ∷ xs) {a} e one = elim (Bool-cases (p x)) [
    | inl t ↦
        let same : x ≡ a = cc (rw t at e) in
        rw t (rw (delete_where-none p xs (ground arith), same) (omega arith))
    | inr g ↦ rw g (omega (arith, count_where-delete_one p q xs (rw g at e) (ground arith)))
  ]

  pub count_where-delete-le :
      (p q : A → Bool) (xs : List A) → count_where q (delete_where p xs) ≤ count_where q xs
  unfolding delete_where count_where
  count_where-delete-le p q [] = omega arith
  count_where-delete-le p q (x ∷ xs) = ground (arith, count_where-delete-le p q xs)

  pub count_where-found :
      (p q : A → Bool) (xs : List A) {a : A}
      → find_first p xs ≡ some a
      → q a ≡ true
      → 1 ≤ count_where q xs
  unfolding find_first count_where
  count_where-found p q [] e h = cc
  count_where-found p q (x ∷ xs) {a} e h = elim (Bool-cases (p x)) [
    | inl t ↦
        let same : x ≡ a = cc (rw t at e) in let qx : q x ≡ true = rw same h in rw qx (omega arith)
    | inr g ↦ ground (arith, count_where-found p q xs (rw g at e) h)
  ]

  -- A row that is found passes another test, so that test finds one too.
  pub find_first-found :
      (p q : A → Bool) (xs : List A) {a : A}
      → find_first p xs ≡ some a
      → q a ≡ true
      → (b : A) × (find_first q xs ≡ some b)
  unfolding find_first
  find_first-found p q [] e h = cc
  find_first-found p q (x ∷ xs) {a} e h = elim (Bool-cases (q x)) [
    | inl u ↦ (x, rw u refl)
    | inr v ↦ elim (Bool-cases (p x)) [
      | inl t ↦ let same : x ≡ a = cc (rw t at e) in let qx : q x ≡ true = rw same h in absurd cc
      | inr g ↦ rw v (find_first-found p q xs (rw g at e) h)
    ]
  ]

  -- Two lookups of the row that alone passes a test.
  pub find_first_unique :
      (p q : A → Bool) (xs : List A) {a b : A}
      → find_first p xs ≡ some a
      → find_first q xs ≡ some b
      → q a ≡ true
      → count_where q xs ≤ 1
      → a ≡ b
  unfolding find_first count_where
  find_first_unique p q [] e f h one = cc
  find_first_unique p q (x ∷ xs) {a} {b} e f h one = elim (Bool-cases (p x)) [
    | inl t ↦
        let same : x ≡ a = cc (rw t at e) in
        let qx : q x ≡ true = rw same h in sym same ∙ cc (rw qx at f)
    | inr g ↦ elim (Bool-cases (q x)) [
      | inl u ↦ let more = count_where-found p q xs (rw g at e) h in absurd (ground arith)
      | inr v ↦ find_first_unique p q xs (rw g at e) (rw v at f) h (ground arith)
    ]
  ]

  pub count_where-none :
      (q : A → Bool) (xs : List A) → All (λ x. q x ≡ false) xs → count_where q xs ≡ 0
  unfolding count_where
  count_where-none q [] h = refl
  count_where-none q (x ∷ xs) (h, hs) = rw h (omega (arith, count_where-none q xs hs))

  pub count_where-find_none :
      (p : A → Bool) (xs : List A) → find_first p xs ≡ none → count_where p xs ≡ 0
  unfolding find_first count_where
  count_where-find_none p [] e = refl
  count_where-find_none p (x ∷ xs) e = elim (Bool-cases (p x)) [
    | inl t ↦ cc (rw t at e)
    | inr g ↦ rw g (omega (arith, count_where-find_none p xs (rw g at e)))
  ]

  -- One more row keeps a test's rows at most one, if the row does not pass it or was the first to.
  pub count_where-append_one :
      (p : A → Bool) (xs : List A) (x : A)
      → count_where p xs ≤ 1
      → (p x ≡ true → count_where p xs ≡ 0)
      → count_where p (xs ++ x ∷ []) ≤ 1
  unfolding count_where
  count_where-append_one p xs x one first = ground (arith, count_where-append p xs (x ∷ []), first)

  pub find_first-append :
      (p : A → Bool) (xs ys : List A) {a : A}
      → find_first p xs ≡ some a
      → find_first p (xs ++ ys) ≡ some a
  unfolding find_first
  find_first-append p [] ys e = cc
  find_first-append p (x ∷ xs) ys e = elim (Bool-cases (p x)) [
    | inl t ↦ rw t (rw t at e)
    | inr g ↦ rw g (find_first-append p xs ys (rw g at e))
  ]
