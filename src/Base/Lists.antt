-- ===== src/Base/Lists.antt =====
-- Tables as lists of rows: the queries that the services make of the database, and their laws.
use Prim.Native.Nat.{ℕ, zero, suc, ◌+◌, ◌≤◌, ◌<◌}
use mathlib.Core.Path.{◌≡◌, refl, ap}
use mathlib.Core.Logic.{◌⊎◌, inl, inr}
use mathlib.Core.Bool.{Bool, true, false, ◌||◌}
use mathlib.Core.Option.{Option, none, some}
use mathlib.Core.List.{List, [], ◌∷◌, ◌++◌}
use native.Mathlib.Omega.{arith}
use mastermind_7dtd_ai_serve.Base.Tests.{if◌then◌else◌, Bool-cases}

module _ {ℓ} {A : Type ℓ} where
  abbrev pub length : List A → ℕ
  length [] = 0
  length (x ∷ xs) = suc (length xs)

  pub length-append : (xs ys : List A) → length (xs ++ ys) ≡ length xs + length ys
  length-append [] ys = omega arith
  length-append (x ∷ xs) ys = omega (arith, length-append xs ys)

  abbrev pub take : ℕ → List A → List A
  take zero xs = []
  take (suc n) [] = []
  take (suc n) (x ∷ xs) = x ∷ take n xs

  abbrev pub drop : ℕ → List A → List A
  drop zero xs = xs
  drop (suc n) [] = []
  drop (suc n) (x ∷ xs) = drop n xs

  -- `findFirst`, `findUnique`: the first row that the test accepts.
  unfoldable pub find_first : (A → Bool) → List A → Option A
  find_first p [] = none
  find_first p (x ∷ xs) = if p x then some x else find_first p xs

  -- `findMany`, and JavaScript's `filter`.
  unfoldable pub select : (A → Bool) → List A → List A
  select p [] = []
  select p (x ∷ xs) = let rest = select p xs in if p x then x ∷ rest else rest

  -- `update`, `updateMany`.
  unfoldable pub update_where : (A → Bool) → (A → A) → List A → List A
  update_where p f [] = []
  update_where p f (x ∷ xs) = (if p x then f x else x) ∷ update_where p f xs

  -- `delete`, `deleteMany`.
  unfoldable pub delete_where : (A → Bool) → List A → List A
  delete_where p [] = []
  delete_where p (x ∷ xs) = let rest = delete_where p xs in if p x then rest else x ∷ rest

  unfoldable pub count_where : (A → Bool) → List A → ℕ
  count_where p [] = 0
  count_where p (x ∷ xs) = (if p x then 1 else 0) + count_where p xs

  unfoldable pub any : (A → Bool) → List A → Bool
  any p [] = false
  any p (x ∷ xs) = p x || any p xs

module _ {ℓ κ} {A : Type ℓ} (P : A → Type κ) where
  abbrev pub All : List A → Type κ
  All [] = Unit
  All (x ∷ xs) = P x × All xs

  pub All-append : (xs ys : List A) → All xs → All ys → All (xs ++ ys)
  All-append [] ys hx hy = hy
  All-append (x ∷ xs) ys (h, hx) hy = (h, All-append xs ys hx hy)

  pub All-find_first :
      (p : A → Bool) (xs : List A) {a : A} → All xs → find_first p xs ≡ some a → P a
  unfolding find_first
  All-find_first p [] h e = cc
  All-find_first p (x ∷ xs) {a} (h, hs) e = elim (Bool-cases (p x)) [
    | inl t ↦ let same : x ≡ a = ground arith in rw (← same) h
    | inr f ↦ All-find_first p xs hs (rw f at e)
  ]

pub All-update_where {ℓ κ} :
    {A : Type ℓ} (P : A → Type κ) (p : A → Bool) (f : A → A) (xs : List A)
    → ((a : A) → P a → P (f a))
    → All P xs
    → All P (update_where p f xs)
unfolding update_where
All-update_where P p f [] keep h = tt
All-update_where P p f (x ∷ xs) keep (h, hs) = (
  elim (Bool-cases (p x)) [ inl t ↦ rw t (keep x h) | inr g ↦ rw g h ],
  All-update_where P p f xs keep hs,
)

pub All-map {ℓ κ ι} :
    {A : Type ℓ} {P : A → Type κ} {Q : A → Type ι} (f : (a : A) → P a → Q a) (xs : List A)
    → All P xs
    → All Q xs
All-map f [] h = tt
All-map f (x ∷ xs) (h, hs) = (f x h, All-map f xs hs)

module _ {ℓ} {A : Type ℓ} where
  pub find_first_holds :
      (p : A → Bool) (xs : List A) {a : A} → find_first p xs ≡ some a → p a ≡ true
  unfolding find_first
  find_first_holds p [] e = cc
  find_first_holds p (x ∷ xs) {a} e = elim (Bool-cases (p x)) [
    | inl t ↦ let same : x ≡ a = ground arith in rw (← same) t
    | inr f ↦ find_first_holds p xs (rw f at e)
  ]

  -- A narrower test that still accepts the first hit finds the same row.
  pub find_first_narrow :
      (p q : A → Bool) (xs : List A) {a : A}
      → ((x : A) → q x ≡ true → p x ≡ true)
      → find_first p xs ≡ some a
      → q a ≡ true
      → find_first q xs ≡ some a
  unfolding find_first
  find_first_narrow p q [] sub e h = cc
  find_first_narrow p q (x ∷ xs) {a} sub e h = elim (Bool-cases (p x)) [
    | inl t ↦ let same : x ≡ a = ground arith in rw same (rw h (ap some refl))
    | inr f ↦ elim (Bool-cases (q x)) [
      | inl t ↦ cc (sub x t)
      | inr g ↦ rw g (find_first_narrow p q xs sub (rw f at e) h)
    ]
  ]

  -- A wider test finds something where a narrower one does.
  pub find_first_wider :
      (p q : A → Bool) (xs : List A) {a : A}
      → ((x : A) → q x ≡ true → p x ≡ true)
      → find_first q xs ≡ some a
      → (b : A) × (find_first p xs ≡ some b)
  unfolding find_first
  find_first_wider p q [] sub e = cc
  find_first_wider p q (x ∷ xs) sub e = elim (Bool-cases (p x)) [
    | inl t ↦ (x, rw t)
    | inr f ↦ elim (Bool-cases (q x)) [
      | inl t ↦ cc (sub x t)
      | inr g ↦ rw f (find_first_wider p q xs sub (rw g at e))
    ]
  ]

  pub count_where-append :
      (p : A → Bool) (xs ys : List A)
      → count_where p (xs ++ ys) ≡ count_where p xs + count_where p ys
  unfolding count_where
  count_where-append p [] ys = omega arith
  count_where-append p (x ∷ xs) ys = omega (arith, count_where-append p xs ys)

module _ {ℓ} {A : Type ℓ} where
  -- A hit in a list with one more row is an old hit, or the new row.
  pub find_first-append_cases :
      (p : A → Bool) (xs : List A) (a : A) {x : A}
      → find_first p (xs ++ a ∷ []) ≡ some x
      → (find_first p xs ≡ some x) ⊎ ((a ≡ x) × (p a ≡ true))
  unfolding find_first
  find_first-append_cases p [] a e = elim (Bool-cases (p a)) [
    | inl t ↦ inr (cc (rw t at e), t)
    | inr g ↦ cc (rw g at e)
  ]
  find_first-append_cases p (y ∷ xs) a e = elim (Bool-cases (p y)) [
    | inl t ↦ inl (rw t (rw t at e))
    | inr g ↦ rw g (find_first-append_cases p xs a (rw g at e))
  ]

-- An update whose rows leave the counted set lowers the count, strictly if it hits a counted row.
module _ {ℓ} {A : Type ℓ} (p q : A → Bool) (f : A → A)
    (leaves : (x : A) → p x ≡ true → q (f x) ≡ false) where
  pub count_where-update-le : (xs : List A) → count_where q (update_where p f xs) ≤ count_where q xs
  unfolding count_where update_where
  count_where-update-le [] = omega arith
  count_where-update-le (x ∷ xs) = ground (arith, leaves x, count_where-update-le xs)

  pub count_where-update-lt :
      (r : A → Bool) (xs : List A) {a : A}
      → find_first r xs ≡ some a
      → p a ≡ true
      → q a ≡ true
      → count_where q (update_where p f xs) < count_where q xs
  unfolding count_where update_where find_first
  count_where-update-lt r [] e hp hq = cc
  count_where-update-lt r (x ∷ xs) {a} e hp hq = elim (Bool-cases (r x)) [
    | inl t ↦
        let same : x ≡ a = cc (rw t at e) in
        let px : p x ≡ true = rw same hp in
        let qx : q x ≡ true = rw same hq in
        let gone : q (f x) ≡ false = leaves x px in
        rw px (rw (gone, qx) (omega (arith, count_where-update-le xs)))
    | inr g ↦ let rest = count_where-update-lt r xs (rw g at e) hp hq in ground (arith, leaves x)
  ]
