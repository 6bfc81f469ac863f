-- ===== src/Cron/Fields.antt =====
-- cron-next.ts `parseSet`: the values that a field of a cron expression stands for.
use mathlib.Core.List.{Memᴰ}
use mastermind_7dtd_ai_serve.Base.{
  ℕ, zero, suc, ◌+◌, ◌-◌, ◌*◌, ◌≤◌, ◌<◌, ◌≡◌, refl, subst, Bool, true, false, ◌||◌, some, List, [],
  ◌∷◌, ◌++◌, arith, ltb, leb, if◌then◌else◌, Bool-cases, Option-cases, inl, inr, ◌⊎◌, All,
  All-append, any,
}
use mastermind_7dtd_ai_serve.Base.Text.{Text, lit, text_eq, trim, split}
use mastermind_7dtd_ai_serve.Base.Result.{ok, err, ◌>>=◌, >>=-eq-ok, ok-injective}
use mastermind_7dtd_ai_serve.Cron.{
  invalid_field, match_step, Parsed, nan, negative, natural, parse_int, steps, parse_item,
  parse_items, parse_set, allows,
}

abbrev pub InRange : ℕ → ℕ → List ℕ → Type 0
InRange low top = All (λ (x : ℕ). (low ≤ x) × (x ≤ top))

steps-InRange :
    (n value top amount low : ℕ) → low ≤ value → InRange low top (steps n value top amount)
unfolding steps
steps-InRange zero value top amount low h = tt
steps-InRange (suc n) value top amount low h = elim (Bool-cases (leb value top)) [
  | inl t ↦ rw t ((h, ground arith), steps-InRange n (value + amount) top amount low (omega arith))
  | inr g ↦ rw g tt
]

-- A step item lists every multiple of the step above the least value, up to the greatest: `n` rounds
-- are enough when they cover the range.
steps_complete :
    (n value top amount i : ℕ)
    → 1 ≤ amount
    → top < value + n
    → value + i * amount ≤ top
    → Memᴰ (value + i * amount) (steps n value top amount)
unfolding steps
steps_complete zero value top amount i a h l = absurd (omega arith)
steps_complete (suc n) value top amount zero a h l =
    let t : leb value top ≡ true = ground arith in rw t (Memᴰ.head (omega arith))
steps_complete (suc n) value top amount (suc i) a h l =
    let t : leb value top ≡ true = ground arith in
    let e : value + amount + i * amount ≡ value + suc i * amount = omega arith in
    let deeper = steps_complete n (value + amount) top amount i a (omega arith) (omega arith) in
    rw t (Memᴰ.tail (subst (λ (x : ℕ). Memᴰ x (steps n (value + amount) top amount)) e deeper))

Parsed-cases : (p : Parsed) → ((n : ℕ) × (p ≡ natural n)) ⊎ ((p ≡ nan) ⊎ (p ≡ negative))
Parsed-cases nan = inr (inl refl)
Parsed-cases negative = inr (inr refl)
Parsed-cases (natural n) = inl (n, refl)

stepped-InRange :
    (field : Text) (low top amount : ℕ) (b : Bool) {values : List ℕ}
    → (if b then err (invalid_field field) else ok (steps (top - low + 1) low top amount))
      ≡ ok values
    → InRange low top values
stepped-InRange field low top amount true h = cc
stepped-InRange field low top amount false h =
    subst (InRange low top) (ok-injective h)
      (steps-InRange (top - low + 1) low top amount low (omega arith))

single-InRange :
    (field : Text) (low top n : ℕ) {values : List ℕ}
    → (if ltb n low || ltb top n then err (invalid_field field) else ok (n ∷ [])) ≡ ok values
    → InRange low top values
single-InRange field low top n h = elim (Bool-cases (ltb n low || ltb top n)) [
  | inl t ↦ cc (rw t at h)
  | inr g ↦ subst (InRange low top) (ok-injective (rw g at h)) ((ground arith, ground arith), tt)
]

-- The values of one item lie in the field's range.
parse_item-InRange :
    (field s : Text) (low top : ℕ) {values : List ℕ}
    → parse_item field s low top ≡ ok values
    → InRange low top values
unfolding parse_item
parse_item-InRange field s low top h = elim (Option-cases (match_step s)) [
  | inr (amount, e) ↦
      stepped-InRange field low top amount (ltb amount 1 || ltb (top - low + 1) amount)
        (rw (e, parse_item) at h)
  | inl e ↦ elim (Parsed-cases (parse_int (trim s))) [
    | inl (n, p) ↦ single-InRange field low top n (rw (e, p, parse_item) at h)
    | inr (inl p) ↦ cc (rw (e, p, parse_item) at h)
    | inr (inr p) ↦ cc (rw (e, p, parse_item) at h)
  ]
]

parse_items-InRange :
    (field : Text) (ss : List Text) (low top : ℕ) {values : List ℕ}
    → parse_items field ss low top ≡ ok values
    → InRange low top values
unfolding parse_items
parse_items-InRange field [] low top h = subst (InRange low top) (ok-injective h) tt
parse_items-InRange field (s ∷ ss) low top h =
    let (first, e, h1) =
      >>=-eq-ok (parse_item field s low top)
        (λ f. parse_items field ss low top >>= λ r. ok (f ++ r)) h in
    let (rest, e2, h2) = >>=-eq-ok (parse_items field ss low top) (λ r. ok (first ++ r)) h1 in
    subst (InRange low top) (ok-injective h2) (
      All-append (λ (x : ℕ). (low ≤ x) × (x ≤ top)) first rest
        (parse_item-InRange field s low top e) (parse_items-InRange field ss low top e2))

-- Every value of a field that parses, and is not `*`, lies between the field's least and greatest
-- values.
parse_set-InRange :
    (field : Text) (low top : ℕ) (values : List ℕ)
    → parse_set field low top ≡ ok (some values)
    → InRange low top values
unfolding parse_set
parse_set-InRange field low top values h = elim (Bool-cases (text_eq field (lit "*"))) [
  | inl t ↦ cc (rw t at h)
  | inr g ↦
      let (vs, e, k) =
        >>=-eq-ok (parse_items field (split b',' field) low top) (λ v. ok (some v)) (rw g at h) in
      let same : vs ≡ values = cc in
      subst (InRange low top) same (parse_items-InRange field (split b',' field) low top e)
]

allows_mem : (values : List ℕ) (x : ℕ) → Memᴰ x values → allows (some values) x ≡ true
unfolding allows any
allows_mem [] x m = elim m [ ]
allows_mem (y ∷ values) x (Memᴰ.head e) = ground (arith, e)
allows_mem (y ∷ values) x (Memᴰ.tail m) = ground (arith, allows_mem values x m)

Memᴰ-append : {x : ℕ} (xs ys : List ℕ) → Memᴰ x xs → Memᴰ x (xs ++ ys)
Memᴰ-append [] ys m = elim m [ ]
Memᴰ-append (y ∷ xs) ys (Memᴰ.head e) = Memᴰ.head e
Memᴰ-append (y ∷ xs) ys (Memᴰ.tail m) = Memᴰ.tail (Memᴰ-append xs ys m)

-- A field that is one step item `*/amount`, for an amount from 1 to the range's size, parses, and
-- allows every multiple of the amount above the field's least value, up to its greatest.
parse_set_steps :
    (field : Text) (low top amount i : ℕ)
    → text_eq field (lit "*") ≡ false
    → split b',' field ≡ field ∷ []
    → match_step field ≡ some amount
    → 1 ≤ amount
    → amount ≤ top - low + 1
    → low + i * amount ≤ top
    → (values : List ℕ) × (parse_set field low top ≡ ok (some values))
      × (allows (some values) (low + i * amount) ≡ true)
unfolding parse_set parse_items parse_item
parse_set_steps field low top amount i star one step a b l = (
  steps (top - low + 1) low top amount ++ [],
  rw (star, one, parse_items, parse_item, step, bad) refl,
  allows_mem (steps (top - low + 1) low top amount ++ []) (low + i * amount) (
      Memᴰ-append (steps (top - low + 1) low top amount) []
        (steps_complete (top - low + 1) low top amount i a (omega arith) l)),
)
  where
    bad : (ltb amount 1 || ltb (top - low + 1) amount) ≡ false
    bad = ground arith
