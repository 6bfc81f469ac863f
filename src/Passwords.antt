-- ===== src/Passwords.antt =====
-- control-plane/src/auth/auth.service.ts: how passwords are hashed and verified. What Node's `crypto` and
-- the token library compute is a parameter.
pub mod RoundTrip
use mastermind_7dtd_ai_serve.Base.{
  ℕ, Bool, true, false, not, ◌&&◌, ◌||◌, List, [], ◌∷◌, ◌++◌, ◌==◌, length, if◌then◌else◌,
}
use mastermind_7dtd_ai_serve.Base.Text.{Text, lit, text_eq, split}
use mastermind_7dtd_ai_serve.Players.{starts_with}

-- `randomBytes(16).toString('hex')` in this request, `scryptSync(password, salt, 64)`, `createHash('sha256')`
-- with the digest as hex, `toString('hex')` and `Buffer.from(_, 'hex')`, and `jwt.sign` of a user and an
-- organisation. A request hashes one password at most.
pub record Secrets : Type 0 where
  pub salt : Text
  pub scrypt : Text → Text → List ℕ
  pub sha256 : Text → Text
  pub to_hex : List ℕ → Text
  pub from_hex : Text → List ℕ
  pub issue_token : ℕ → ℕ → Text

-- `timingSafeEqual` of buffers of one length.
abbrev same_bytes : List ℕ → List ℕ → Bool
same_bytes a b = text_eq a b

-- The loop over the bytes, where `diff` says whether one differed; whether one does at the end.
unfoldable pub bytes_differ : Bool → List ℕ → List ℕ → Bool
bytes_differ diff [] bs = diff
bytes_differ diff (a ∷ as') [] = bytes_differ (diff || not (a == 0)) as' []
bytes_differ diff (a ∷ as') (b ∷ bs) = bytes_differ (diff || not (a == b)) as' bs

abbrev hash_password : Secrets → Text → Text → Text
hash_password p password salt = p.sha256 (salt ++ password)

module _ (p : Secrets) where
  unfoldable pub make_password_hash : Text → Text
  make_password_hash password = lit "scrypt$" ++ p.salt ++ 36 ∷ p.to_hex (p.scrypt password p.salt)

  -- The parts between `$`: the second is the salt and the third the hash.
  unfoldable pub verify_scrypt : Text → List Text → Bool
  verify_scrypt password (kind ∷ (c ∷ salt) ∷ (d ∷ hash) ∷ rest) =
      let candidate = p.scrypt password (c ∷ salt) in
      let expected = p.from_hex (d ∷ hash) in
      length candidate == length expected && same_bytes candidate expected
  verify_scrypt password _ = false

  -- The parts between `:` of an older hash.
  unfoldable pub verify_legacy : Text → List Text → Bool
  verify_legacy password ((c ∷ salt) ∷ (d ∷ hash) ∷ rest) =
      let a = p.from_hex (hash_password p password (c ∷ salt)) in
      let b = p.from_hex (d ∷ hash) in length a == length b && not (bytes_differ false a b)
  verify_legacy password _ = false

  unfoldable pub verify_password : Text → Text → Bool
  verify_password password stored =
      if starts_with stored (lit "scrypt$")
      then verify_scrypt password (split 36 stored)
      else verify_legacy password (split 58 stored)
