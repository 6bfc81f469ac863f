-- ===== src/Base/KeyLookups.antt =====
-- Tables with a primary key: appended and selected rows, and lookups after an update.
use Prim.Native.Nat.{ℕ}
use mathlib.Core.Path.{◌≡◌, refl, sym, ap}
use mathlib.Core.Logic.{◌≢◌, inl, inr}
use mathlib.Core.Bool.{Bool, true, false}
use mathlib.Core.Option.{some}
use mathlib.Core.List.{List, [], ◌∷◌, ◌++◌}
use native.Mathlib.Omega.{arith}
use mastermind_7dtd_ai_serve.Base.Tests.{◌==◌, ==_refl, if◌then◌else◌, Bool-cases}
use mastermind_7dtd_ai_serve.Base.Lists.{
  find_first, update_where, select, delete_where, All, All-append, All-map, All-find_first,
}
use mastermind_7dtd_ai_serve.Base.Alls.{All-zip, All-select, All-delete_where}
use mastermind_7dtd_ai_serve.Base.Keys.{HasDistinct}

module _ {ℓ} {A : Type ℓ} (key : A → ℕ) where
  pub find_first-append_absent :
      (k : ℕ) (xs ys : List A)
      → All (λ y. key y ≢ k) xs
      → find_first (λ y. key y == k) (xs ++ ys) ≡ find_first (λ y. key y == k) ys
  unfolding find_first
  find_first-append_absent k [] ys h = refl
  find_first-append_absent k (x ∷ xs) ys (h, hs) =
      ground (arith, find_first-append_absent k xs ys hs)

  pub find_first-append_found :
      (k : ℕ) (xs ys : List A) {a : A}
      → find_first (λ y. key y == k) xs ≡ some a
      → find_first (λ y. key y == k) (xs ++ ys) ≡ some a
  unfolding find_first
  find_first-append_found k [] ys e = cc
  find_first-append_found k (x ∷ xs) ys {a} e = elim (Bool-cases (key x == k)) [
    | inl t ↦ rw t (rw t at e)
    | inr g ↦ rw g (find_first-append_found k xs ys (rw g at e))
  ]

  pub find_first-append_new :
      (k : ℕ) (xs : List A) (x : A)
      → key x ≢ k
      → find_first (λ y. key y == k) (xs ++ x ∷ []) ≡ find_first (λ y. key y == k) xs
  unfolding find_first
  find_first-append_new k [] x n = ground arith
  find_first-append_new k (y ∷ xs) x n = ground (arith, find_first-append_new k xs x n)

  pub HasDistinct-append_new :
      (xs : List A) (x : A)
      → All (λ y. key y ≢ key x) xs
      → HasDistinct key xs
      → HasDistinct key (xs ++ x ∷ [])
  HasDistinct-append_new [] x h d = (tt, tt)
  HasDistinct-append_new (y ∷ xs) x (h, hs) (n, d) = (
    All-append (λ z. key z ≢ key y) xs (x ∷ []) n (λ e. h (sym e), tt),
    HasDistinct-append_new xs x hs d,
  )

  pub HasDistinct-select :
      (p : A → Bool) (xs : List A) → HasDistinct key xs → HasDistinct key (select p xs)
  unfolding select
  HasDistinct-select p [] d = tt
  HasDistinct-select p (x ∷ xs) (n, d) = elim (Bool-cases (p x)) [
    | inl t ↦ rw t (
      All-map (λ y (h, _). h) (select p xs) (All-select (λ y. key y ≢ key x) p xs n),
      HasDistinct-select p xs d,
    )
    | inr g ↦ rw g (HasDistinct-select p xs d)
  ]

  pub HasDistinct-delete_where :
      (q : A → Bool) (xs : List A) → HasDistinct key xs → HasDistinct key (delete_where q xs)
  unfolding delete_where
  HasDistinct-delete_where q [] d = tt
  HasDistinct-delete_where q (x ∷ xs) (n, d) = elim (Bool-cases (q x)) [
    | inl t ↦ rw t (HasDistinct-delete_where q xs d)
    | inr g ↦ rw g (All-delete_where (λ y. key y ≢ key x) q xs n, HasDistinct-delete_where q xs d)
  ]

  -- Each row is the one found by its key.
  pub All-found :
      (xs : List A)
      → HasDistinct key xs
      → All (λ x. find_first (λ y. key y == key x) xs ≡ some x) xs
  unfolding find_first
  All-found [] d = tt
  All-found (x ∷ xs) (n, d) = (
    rw (==_refl (key x)),
    All-map (λ y (f, m). ground arith) xs (All-zip _ _ xs (All-found xs d) n),
  )

  -- An update by any test, seen at one row.
  pub find_first-update_where :
      (p : A → Bool) (f : A → A) (k : ℕ) (xs : List A) {a : A}
      → ((x : A) → key (f x) ≡ key x)
      → find_first (λ y. key y == k) xs ≡ some a
      → find_first (λ y. key y == k) (update_where p f xs) ≡ some (if p a then f a else a)
  unfolding find_first update_where
  find_first-update_where p f k [] keep e = cc
  find_first-update_where p f k (x ∷ xs) {a} keep e = elim (Bool-cases (key x == k)) [
    | inl t ↦
        let same : x ≡ a = ground arith in
        let hit : (key (if p x then f x else x) == k) ≡ true = ground (arith, keep x) in
        rw hit (ap (λ (y : A). some (if p y then f y else y)) same)
    | inr g ↦
        let miss : (key (if p x then f x else x) == k) ≡ false = ground (arith, keep x) in
        rw miss (find_first-update_where p f k xs keep (rw g at e))
  ]

  pub find_first-select :
      (p : A → Bool) (k : ℕ) (xs : List A) {a : A}
      → find_first (λ y. key y == k) xs ≡ some a
      → p a ≡ true
      → find_first (λ y. key y == k) (select p xs) ≡ some a
  unfolding find_first select
  find_first-select p k [] e h = cc
  find_first-select p k (x ∷ xs) {a} e h = elim (Bool-cases (key x == k)) [
    | inl t ↦
        let same : x ≡ a = ground arith in
        let px : p x ≡ true = rw same h in rw px (rw t (ap some same))
    | inr g ↦ elim (Bool-cases (p x)) [
      | inl u ↦ rw u (rw g (find_first-select p k xs (rw g at e) h))
      | inr v ↦ rw v (find_first-select p k xs (rw g at e) h)
    ]
  ]

  -- The row found by a test, after an update of the row with its key that the test still accepts.
  pub find_first-update_found :
      (p : A → Bool) (f : A → A) (xs : List A) {a : A}
      → HasDistinct key xs
      → find_first p xs ≡ some a
      → p (f a) ≡ true
      → find_first p (update_where (λ x. key x == key a) f xs) ≡ some (f a)
  unfolding find_first update_where
  find_first-update_found p f [] d e h = cc
  find_first-update_found p f (x ∷ xs) {a} (n, d) e h = elim (Bool-cases (p x)) [
    | inl t ↦
        let same : x ≡ a = cc (rw t at e) in
        let hit : (key x == key a) ≡ true = rw same (==_refl (key a)) in
        let px : p (f x) ≡ true = rw same h in rw hit (rw px (ap some (ap f same)))
    | inr g ↦
        let apart = All-find_first (λ y. key y ≢ key x) p xs n (rw g at e) in
        let miss : (key x == key a) ≡ false = ground arith in
        rw miss (rw g (find_first-update_found p f xs d (rw g at e) h))
  ]
