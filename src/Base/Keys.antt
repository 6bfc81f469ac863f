-- ===== src/Base/Keys.antt =====
-- Tables with a primary key: updates and lookups by it.
use Prim.Native.Nat.{ℕ, ◌+◌}
use mathlib.Core.Path.{◌≡◌, refl, ap}
use mathlib.Core.Logic.{◌≢◌, inl, inr}
use mathlib.Core.Bool.{Bool}
use mathlib.Core.Option.{some}
use mathlib.Core.List.{List, [], ◌∷◌}
use native.Mathlib.Omega.{arith}
use mastermind_7dtd_ai_serve.Base.Tests.{◌==◌, if◌then◌else◌, Bool-cases}
use mastermind_7dtd_ai_serve.Base.Lists.{find_first, update_where, count_where, All}

-- Rows told apart by a key, as a table with a primary key has them.
module _ {ℓ} {A : Type ℓ} (key : A → ℕ) where
  abbrev pub HasDistinct : List A → Type 0
  HasDistinct [] = Unit
  HasDistinct (x ∷ xs) = All (λ y. key y ≢ key x) xs × HasDistinct xs

  update_where_absent :
      (k : ℕ) (f : A → A) (xs : List A)
      → All (λ y. key y ≢ k) xs
      → update_where (λ y. key y == k) f xs ≡ xs
  unfolding update_where
  update_where_absent k f [] h = refl
  update_where_absent k f (x ∷ xs) (h, hs) = ground (arith, update_where_absent k f xs hs)

  -- An update of the one row with a key moves each count by what that row contributes.
  pub count_where-update_one :
      (q : A → Bool) (f : A → A) (k : ℕ) (xs : List A) {a : A}
      → HasDistinct xs
      → find_first (λ y. key y == k) xs ≡ some a
      → count_where q (update_where (λ y. key y == k) f xs) + (if q a then 1 else 0)
        ≡ count_where q xs + (if q (f a) then 1 else 0)
  unfolding find_first update_where count_where
  count_where-update_one q f k [] d e = cc
  count_where-update_one q f k (x ∷ xs) {a} (fresh, d) e = elim (Bool-cases (key x == k)) [
    | inl t ↦
        let same : x ≡ a = ground arith in
        let kx : key x ≡ k = ground arith in
        rw t (rw same (rw (update_where_absent k f xs (rw (← kx) fresh)) (omega arith)))
    | inr g ↦ rw g (omega (arith, count_where-update_one q f k xs d (rw g at e)))
  ]

  -- An update that keeps the key keeps the rows apart.
  All-ne-update_where :
      (p : A → Bool) (f : A → A) (k : ℕ) (xs : List A)
      → ((a : A) → key (f a) ≡ key a)
      → All (λ y. key y ≢ k) xs
      → All (λ y. key y ≢ k) (update_where p f xs)
  unfolding update_where
  All-ne-update_where p f k [] keep h = tt
  All-ne-update_where p f k (x ∷ xs) keep (h, hs) =
      (ground (arith, keep x), All-ne-update_where p f k xs keep hs)

  pub HasDistinct-update_where :
      (p : A → Bool) (f : A → A) (xs : List A)
      → ((a : A) → key (f a) ≡ key a)
      → HasDistinct xs
      → HasDistinct (update_where p f xs)
  unfolding update_where
  HasDistinct-update_where p f [] keep d = tt
  HasDistinct-update_where p f (x ∷ xs) keep (h, d) = (
    elim (Bool-cases (p x)) [
      | inl t ↦ rw t (rw (keep x) (All-ne-update_where p f (key x) xs keep h))
      | inr g ↦ rw g (All-ne-update_where p f (key x) xs keep h)
    ],
    HasDistinct-update_where p f xs keep d,
  )

  -- The row found by its key after an update of that row.
  pub find_first-update_self :
      (f : A → A) (k : ℕ) (xs : List A) {a : A}
      → ((a : A) → key (f a) ≡ key a)
      → find_first (λ y. key y == k) xs ≡ some a
      → find_first (λ y. key y == k) (update_where (λ y. key y == k) f xs) ≡ some (f a)
  unfolding find_first update_where
  find_first-update_self f k [] keep e = cc
  find_first-update_self f k (x ∷ xs) {a} keep e = elim (Bool-cases (key x == k)) [
    | inl t ↦ let same : x ≡ a = ground arith in rw t (rw (keep x) (rw t (ap some (ap f same))))
    | inr g ↦ rw g (rw g (find_first-update_self f k xs keep (rw g at e)))
  ]

  -- Rows found by another key are not affected.
  pub find_first-update_other :
      (f : A → A) (k j : ℕ) (xs : List A)
      → ((a : A) → key (f a) ≡ key a)
      → k ≢ j
      → find_first (λ y. key y == j) (update_where (λ y. key y == k) f xs)
        ≡ find_first (λ y. key y == j) xs
  unfolding find_first update_where
  find_first-update_other f k j [] keep n = refl
  find_first-update_other f k j (x ∷ xs) keep n =
      ground (arith, keep x, find_first-update_other f k j xs keep n)
