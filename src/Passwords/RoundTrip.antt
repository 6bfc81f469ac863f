-- ===== src/Passwords/RoundTrip.antt =====
-- auth.service.ts: a hash that was made is verified by its own password.
use mastermind_7dtd_ai_serve.Base.{
  ℕ, ◌≡◌, ◌≢◌, refl, ap, ◌∙◌, true, false, ◌&&◌, List, [], ◌∷◌, ◌++◌, ◌==◌, ==_refl, length, arith,
  inl, inr, Bool-cases,
}
use mastermind_7dtd_ai_serve.Base.Text.{Text, lit, text_eq, text_eq_iff, has_unit, split}
use mastermind_7dtd_ai_serve.Base.Text.Splits.{split-first, split-none}
use mastermind_7dtd_ai_serve.Players.{starts_with}
use mastermind_7dtd_ai_serve.Passwords.{Secrets, make_password_hash, verify_scrypt, verify_password}

-- What a salt and a hash must be like, and what Node's `crypto` guarantees: hexadecimal texts have no
-- `$` and are read back, and neither the salt nor the hash of this password is empty.
pub record IsHex (p : Secrets) (password : Text) : Type 0 where
  pub salt_plain : has_unit 36 p.salt ≡ false
  pub hex_plain : (bytes : List ℕ) → has_unit 36 (p.to_hex bytes) ≡ false
  pub read_back : (bytes : List ℕ) → p.from_hex (p.to_hex bytes) ≡ bytes
  pub salted : p.salt ≢ []
  pub hashed : p.to_hex (p.scrypt password p.salt) ≢ []

same_length_eq : (a b : List ℕ) → (length a == length b && text_eq a b) ≡ text_eq a b
same_length_eq a b = elim (Bool-cases (text_eq a b)) [
  | inr g ↦ rw g (ground arith)
  | inl t ↦ let same : a ≡ b = (text_eq_iff a b).0 t in rw (same, ==_refl (length b)) refl
]

module _ (p : Secrets) (password : Text) (hex : IsHex p password) where
  parts_of_hash :
      split 36 (make_password_hash p password)
      ≡ lit "scrypt" ∷ p.salt ∷ p.to_hex (p.scrypt password p.salt) ∷ []
  unfolding make_password_hash lit has_unit
  parts_of_hash =
      let hash = p.to_hex (p.scrypt password p.salt) in
      split-first 36 (lit "scrypt") (p.salt ++ 36 ∷ hash) refl
      ∙ ap (λ r. lit "scrypt" ∷ r)
          (split-first 36 p.salt hash hex.salt_plain
            ∙ ap (λ r. p.salt ∷ r) (split-none 36 hash (hex.hex_plain (p.scrypt password p.salt))))

  hash_marked : starts_with (make_password_hash p password) (lit "scrypt$") ≡ true
  unfolding make_password_hash lit starts_with
  hash_marked = refl

  verify_parts :
      (try salt hash : Text) (kind : Text)
      → salt ≢ []
      → hash ≢ []
      → verify_scrypt p try (kind ∷ salt ∷ hash ∷ [])
        ≡ text_eq (p.scrypt try salt) (p.from_hex hash)
  unfolding verify_scrypt
  verify_parts try [] hash kind s h = absurd (s refl)
  verify_parts try (c ∷ salt) [] kind s h = absurd (h refl)
  verify_parts try (c ∷ salt) (d ∷ hash) kind s h =
      same_length_eq (p.scrypt try (c ∷ salt)) (p.from_hex (d ∷ hash))

  -- A stored hash is verified by the passwords that `scrypt` maps to the same bytes.
  pub verify_made :
      (try : Text)
      → verify_password p try (make_password_hash p password)
        ≡ text_eq (p.scrypt try p.salt) (p.scrypt password p.salt)
  unfolding verify_password
  verify_made try =
      rw (hash_marked, parts_of_hash)
        (verify_parts try p.salt (p.to_hex (p.scrypt password p.salt)) (lit "scrypt") hex.salted
            hex.hashed
          ∙ ap (text_eq (p.scrypt try p.salt)) (hex.read_back (p.scrypt password p.salt)))

  pub made_filled : make_password_hash p password ≢ []
  unfolding make_password_hash lit
  made_filled e = cc
