-- ===== src/Base/Updates.antt =====
-- Lookups, selections and deletions by an arbitrary test, after an update.
use mathlib.Core.Path.{◌≡◌, refl, ap, ◌∙◌}
use mathlib.Core.Bool.{Bool, true, false}
use mathlib.Core.Logic.{inl, inr}
use mathlib.Core.Option.{none, some}
use mathlib.Core.List.{List, [], ◌∷◌, ◌++◌}
use native.Mathlib.Omega.{arith}
use mastermind_7dtd_ai_serve.Base.Tests.{if◌then◌else◌, Bool-cases}
use mastermind_7dtd_ai_serve.Base.Lists.{find_first, update_where, delete_where, select, any, All}

module _ {ℓ} {A : Type ℓ} where
  -- A row found by a test that the update does not affect.
  pub find_first-update_kept :
      (p q : A → Bool) (f : A → A) (xs : List A) {a : A}
      → ((x : A) → p (f x) ≡ p x)
      → find_first p xs ≡ some a
      → find_first p (update_where q f xs) ≡ some (if q a then f a else a)
  unfolding find_first update_where
  find_first-update_kept p q f [] keep e = cc
  find_first-update_kept p q f (x ∷ xs) {a} keep e = elim (Bool-cases (p x)) [
    | inl t ↦
        let same : x ≡ a = cc (rw t at e) in
        let hit : p (if q x then f x else x) ≡ true = elim (Bool-cases (q x)) [
          | inl u ↦ rw u (rw (keep x) t)
          | inr v ↦ rw v t
        ] in
        rw hit (ap (λ (y : A). some (if q y then f y else y)) same)
    | inr g ↦
        let miss : p (if q x then f x else x) ≡ false = elim (Bool-cases (q x)) [
          | inl u ↦ rw u (rw (keep x) g)
          | inr v ↦ rw v g
        ] in
        rw miss (find_first-update_kept p q f xs keep (rw g at e))
  ]

  pub delete_where-All : (p : A → Bool) (xs : List A) → All (λ x. p x ≡ false) (delete_where p xs)
  unfolding delete_where
  delete_where-All p [] = tt
  delete_where-All p (x ∷ xs) = elim (Bool-cases (p x)) [
    | inl t ↦ rw t (delete_where-All p xs)
    | inr g ↦ rw g (g, delete_where-All p xs)
  ]

  pub select_none : (p : A → Bool) (xs : List A) → All (λ x. p x ≡ false) xs → select p xs ≡ []
  unfolding select
  select_none p [] h = refl
  select_none p (x ∷ xs) (h, hs) = rw (h, select_none p xs hs)

  -- What the update establishes for the rows it hits and the others have.
  pub All-updated {κ} :
      (P : A → Type κ) (q : A → Bool) (f : A → A) (xs : List A)
      → All (λ x. (q x ≡ true → P (f x)) × (q x ≡ false → P x)) xs
      → All P (update_where q f xs)
  unfolding update_where
  All-updated P q f [] h = tt
  All-updated P q f (x ∷ xs) ((hit, miss), hs) = (
    elim (Bool-cases (q x)) [ inl t ↦ rw t (hit t) | inr g ↦ rw g (miss g) ],
    All-updated P q f xs hs,
  )

  -- An update under which the selection's test does not change.
  pub select-update_where :
      (t q : A → Bool) (f : A → A) (xs : List A)
      → ((x : A) → t (f x) ≡ t x)
      → select t (update_where q f xs) ≡ update_where q f (select t xs)
  unfolding select update_where
  select-update_where t q f [] keep = refl
  select-update_where t q f (x ∷ xs) keep = elim (Bool-cases (t x)) [
    | inl y ↦
        let kept : t (if q x then f x else x) ≡ true = elim (Bool-cases (q x)) [
          | inl u ↦ rw u (rw (keep x) y)
          | inr v ↦ rw v y
        ] in
        rw (kept, y, select-update_where t q f xs keep) refl
    | inr n ↦
        let kept : t (if q x then f x else x) ≡ false = elim (Bool-cases (q x)) [
          | inl u ↦ rw u (rw (keep x) n)
          | inr v ↦ rw v n
        ] in
        rw (kept, n) (select-update_where t q f xs keep)
  ]

  pub select-append_one :
      (t : A → Bool) (xs : List A) (x : A)
      → t x ≡ true
      → select t (xs ++ x ∷ []) ≡ select t xs ++ x ∷ []
  unfolding select
  select-append_one t [] x h = rw h refl
  select-append_one t (y ∷ xs) x h = elim (Bool-cases (t y)) [
    | inl u ↦ rw (u, select-append_one t xs x h) refl
    | inr v ↦ rw v (select-append_one t xs x h)
  ]

  pub find_first-append_last :
      (q : A → Bool) (xs : List A) (x : A)
      → find_first q xs ≡ none
      → q x ≡ true
      → find_first q (xs ++ x ∷ []) ≡ some x
  unfolding find_first
  find_first-append_last q [] x e h = rw h refl
  find_first-append_last q (y ∷ xs) x e h = elim (Bool-cases (q y)) [
    | inl u ↦ cc (rw u at e)
    | inr v ↦ rw v (find_first-append_last q xs x (rw v at e) h)
  ]

  -- An update of a hit, after which its rows are hits, leaves one of its rows the first hit.
  pub find_first-update_hit :
      (p q : A → Bool) (f : A → A) (xs : List A) {a : A}
      → ((x : A) → p x ≡ true → q (f x) ≡ true)
      → ((x : A) → p (f x) ≡ p x)
      → find_first q xs ≡ some a
      → p a ≡ true
      → (b : A) × (find_first q (update_where p f xs) ≡ some b) × (p b ≡ true)
  unfolding find_first update_where
  find_first-update_hit p q f [] hits keep e h = cc
  find_first-update_hit p q f (x ∷ xs) {a} hits keep e h = elim (Bool-cases (p x)) [
    | inl t ↦ (f x, rw t (rw (hits x t) refl), keep x ∙ t)
    | inr g ↦ elim (Bool-cases (q x)) [
      | inl u ↦ let same : x ≡ a = cc (rw u at e) in let px : p x ≡ true = rw same h in cc
      | inr v ↦ rw g (rw v (find_first-update_hit p q f xs hits keep (rw v at e) h))
    ]
  ]

  pub find_first-none :
      (p : A → Bool) (xs : List A) → All (λ x. p x ≡ false) xs → find_first p xs ≡ none
  unfolding find_first
  find_first-none p [] h = refl
  find_first-none p (x ∷ xs) (h, hs) = rw h (find_first-none p xs hs)

  pub any-append_last :
      (p : A → Bool) (xs : List A) (x : A) → p x ≡ true → any p (xs ++ x ∷ []) ≡ true
  unfolding any
  any-append_last p [] x h = rw h refl
  any-append_last p (y ∷ xs) x h = ground (arith, any-append_last p xs x h)

  -- A hit that is not deleted stays the first hit.
  pub find_first-delete_where :
      (p q : A → Bool) (xs : List A) {a : A}
      → find_first p xs ≡ some a
      → q a ≡ false
      → find_first p (delete_where q xs) ≡ some a
  unfolding find_first delete_where
  find_first-delete_where p q [] e h = cc
  find_first-delete_where p q (x ∷ xs) {a} e h = elim (Bool-cases (p x)) [
    | inl t ↦
        let same : x ≡ a = cc (rw t at e) in
        let kept : q x ≡ false = rw same h in rw kept (rw t (ap some same))
    | inr g ↦ elim (Bool-cases (q x)) [
      | inl u ↦ rw u (find_first-delete_where p q xs (rw g at e) h)
      | inr v ↦ rw v (rw g (find_first-delete_where p q xs (rw g at e) h))
    ]
  ]
