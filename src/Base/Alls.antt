-- ===== src/Base/Alls.antt =====
-- Predicates that hold of every row of a table.
use mathlib.Core.Path.{◌≡◌}
use mathlib.Core.Bool.{Bool, true}
use mathlib.Core.Logic.{inl, inr}
use mathlib.Core.List.{List, [], ◌∷◌}
use mastermind_7dtd_ai_serve.Base.Tests.{Bool-cases}
use mastermind_7dtd_ai_serve.Base.Lists.{All, select, delete_where}

pub All-of {ℓ κ} : {A : Type ℓ} (P : A → Type κ) → ((a : A) → P a) → (xs : List A) → All P xs
All-of P f [] = tt
All-of P f (x ∷ xs) = (f x, All-of P f xs)

pub All-zip {ℓ κ ι} :
    {A : Type ℓ} (P : A → Type κ) (Q : A → Type ι) (xs : List A)
    → All P xs
    → All Q xs
    → All (λ x. P x × Q x) xs
All-zip P Q [] h k = tt
All-zip P Q (x ∷ xs) (h, hs) (k, ks) = ((h, k), All-zip P Q xs hs ks)

-- The selected rows have what all rows have, and pass the test.
pub All-select {ℓ κ} :
    {A : Type ℓ} (P : A → Type κ) (p : A → Bool) (xs : List A)
    → All P xs
    → All (λ x. P x × (p x ≡ true)) (select p xs)
unfolding select
All-select P p [] h = tt
All-select P p (x ∷ xs) (h, hs) = elim (Bool-cases (p x)) [
  | inl t ↦ rw t ((h, t), All-select P p xs hs)
  | inr g ↦ rw g (All-select P p xs hs)
]

pub All-delete_where {ℓ κ} :
    {A : Type ℓ} (P : A → Type κ) (q : A → Bool) (xs : List A)
    → All P xs
    → All P (delete_where q xs)
unfolding delete_where
All-delete_where P q [] h = tt
All-delete_where P q (x ∷ xs) (h, hs) = elim (Bool-cases (q x)) [
  | inl t ↦ rw t (All-delete_where P q xs hs)
  | inr g ↦ rw g (h, All-delete_where P q xs hs)
]
