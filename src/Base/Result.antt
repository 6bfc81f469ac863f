-- ===== src/Base/Result.antt =====
-- Results of handlers that may throw: `err` carries the exception.
use mathlib.Core.Path.{◌≡◌, refl}
use mathlib.Core.Logic.{◌⊎◌, inl, inr}
use mathlib.Core.Bool.{Bool, true, false}
use mathlib.Core.Option.{Option, none, some}

pub data Result (X T : Type 0) : Type 0 where
  err : X → Result X T
  ok : T → Result X T

infixl 5 ◌>>=◌
abbrev pub ◌>>=◌ : {X S T : Type 0} → Result X S → (S → Result X T) → Result X T
err x >>= rest = err x
ok s >>= rest = rest s

infixl 5 ◌>>◌
-- A step whose value is not used.
abbrev pub ◌>>◌ : {X T : Type 0} → Result X (Unit {0}) → Result X T → Result X T
step >> rest = step >>= (λ u. rest)

-- `if (!test) throw e`.
abbrev pub require : {E : Type 0} → Bool → E → Result E (Unit {0})
require true e = ok tt
require false e = err e

-- `if (!o) throw e`.
abbrev pub or_throw : {E A : Type 0} → Option A → E → Result E A
or_throw none e = err e
or_throw (some a) e = ok a

pub Result-cases :
    {E A : Type 0} (m : Result E A) → ((a : A) × (m ≡ ok a)) ⊎ ((e : E) × (m ≡ err e))
Result-cases (ok a) = inl (a, refl)
Result-cases (err e) = inr (e, refl)

-- What the first step of a handler that ends well has returned.
pub >>=-eq-ok :
    {X S T : Type 0} (step : Result X S) (rest : S → Result X T) {t : T}
    → (step >>= rest) ≡ ok t
    → (s : S) × (step ≡ ok s) × (rest s ≡ ok t)
>>=-eq-ok (err x) rest run = cc
>>=-eq-ok (ok s) rest run = (s, refl, run)

pub or_throw->>= :
    {X S T : Type 0} (found : Option S) (x : X) (rest : S → Result X T) {t : T}
    → (or_throw found x >>= rest) ≡ ok t
    → (s : S) × (found ≡ some s) × (rest s ≡ ok t)
or_throw->>= (some s) x rest run = (s, refl, run)
or_throw->>= none x rest run = cc

pub require->>= :
    {X T : Type 0} (test : Bool) (x : X) (rest : Result X T) {t : T}
    → (require test x >> rest) ≡ ok t
    → (test ≡ true) × (rest ≡ ok t)
require->>= false x rest run = cc
require->>= true x rest run = (refl, run)

pub ok-injective : {X T : Type 0} {s t : T} → ◌≡◌ {A = Result X T} (ok s) (ok t) → s ≡ t
ok-injective same = cc

pub require_inv :
    {X : Type 0} (test : Bool) (x : X) {u : Unit {0}} → require test x ≡ ok u → test ≡ true
require_inv false x run = cc
require_inv true x run = refl
