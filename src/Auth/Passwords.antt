-- ===== src/Auth/Passwords.antt =====
-- auth/core.go: ValidatePassword, HashPassword, VerifyPassword. Argon2 and base64 are arguments, and
-- so is the salt that is drawn; the hypotheses say what base64 promises.
use fgvcplateform_public.Base.{
  ℕ, ◌≡◌, refl, String, Bool, true, false, not, ◌&&◌, ◌||◌, Option, none, some, List, [], ◌∷◌,
  str_eq, subst, Bool-cases, inl, inr, if◌then◌else◌, ltb, byte_len, length, ◌==◌, arith,
}
use fgvcplateform_public.Base.Paths.{split_on, join_on, has_rune}
use fgvcplateform_public.Base.Splits.{split_on-join_on}

-- ConstantTimeCompare(a, b) == 1
abbrev pub same_bytes : List ℕ → List ℕ → Bool
same_bytes [] [] = true
same_bytes [] (y ∷ ys) = false
same_bytes (x ∷ xs) [] = false
same_bytes (x ∷ xs) (y ∷ ys) = x == y && same_bytes xs ys

pub same_bytes_refl : (xs : List ℕ) → same_bytes xs xs ≡ true
same_bytes_refl [] = refl
same_bytes_refl (x ∷ xs) = let rest = same_bytes_refl xs in ground (arith, rest)

abbrev option_or : String → Option String → String
option_or d none = d
option_or d (some x) = x

-- a text is valid UTF-8
unfoldable pub validate_password : String → Bool
validate_password value = not (ltb (byte_len value) 12 || ltb 1024 (byte_len value))

module _ (encode : List ℕ → String) (decode : String → Option (List ℕ))
    (argon : String → List ℕ → List ℕ) where
  unfoldable pub hash_password : List ℕ → String → Option String
  hash_password salt password =
      if not (validate_password password)
      then none
      else some (
          join_on "$" (
            ""
            ∷ "argon2id"
            ∷ "v=19"
            ∷ "m=19456,t=2,p=1"
            ∷ encode salt
            ∷ encode (argon password salt)
            ∷ []))

  abbrev pub verify_key : String → List ℕ → Option (List ℕ) → Bool
  verify_key password salt none = false
  verify_key password salt (some want) = length want == 32 && same_bytes (argon password salt) want

  abbrev pub verify_salt : String → String → Option (List ℕ) → Bool
  verify_salt password key none = false
  verify_salt password key (some salt) = length salt == 16 && verify_key password salt (decode key)

  -- exactly six parts, of which the first four are fixed
  unfoldable pub verify_parts : String → List String → Bool
  verify_parts password (a ∷ b ∷ c ∷ d ∷ salt ∷ key ∷ []) =
      str_eq a ""
      && str_eq b "argon2id"
      && str_eq c "v=19"
      && str_eq d "m=19456,t=2,p=1"
      && verify_salt password key (decode salt)
  verify_parts password _ = false

  unfoldable pub verify_password : String → String → Bool
  verify_password encoded password = verify_parts password (split_on b'$' encoded)

  -- what base64 promises of these bytes
  pub record IsEncodable (bytes : List ℕ) : Type 0 where
    pub decodes : decode (encode bytes) ≡ some bytes
    pub no_dollar : has_rune b'$' (encode bytes) ≡ false

  verified :
      (salt : List ℕ) (password : String)
      → length salt ≡ 16
      → length (argon password salt) ≡ 32
      → IsEncodable salt
      → IsEncodable (argon password salt)
      → verify_password
          (join_on "$" (
            ""
            ∷ "argon2id"
            ∷ "v=19"
            ∷ "m=19456,t=2,p=1"
            ∷ encode salt
            ∷ encode (argon password salt)
            ∷ []))
          password
        ≡ true
  unfolding verify_password verify_parts has_rune
  verified salt password l size s k =
      let full_salt : (length salt == 16) ≡ true = ground (arith, l) in
      let full_key : (length (argon password salt) == 32) ≡ true = ground (arith, size) in
      rw
        (
          split_on-join_on "$" ""
              ("argon2id"
                ∷ "v=19"
                ∷ "m=19456,t=2,p=1"
                ∷ encode salt
                ∷ encode (argon password salt)
                ∷ [])
              (refl, (refl, (refl, (refl, (s.no_dollar, (k.no_dollar, tt)))))),
          s.decodes,
          k.decodes,
          full_salt,
          full_key,
          same_bytes_refl (argon password salt),
        )
        refl

  -- If base64 decodes what it made of the salt and of the key and wrote no dollar sign, the salt has
  -- 16 bytes and Argon2 gives 32, then a password verifies against its own hash.
  pub verify_password-hash_password :
      (salt : List ℕ) (password encoded : String)
      → length salt ≡ 16
      → length (argon password salt) ≡ 32
      → IsEncodable salt
      → IsEncodable (argon password salt)
      → hash_password salt password ≡ some encoded
      → verify_password encoded password ≡ true
  unfolding hash_password
  verify_password-hash_password salt password encoded l size s k h =
      elim (Bool-cases (validate_password password)) [
        | inl p ↦
            subst (λ o. verify_password (option_or "" o) password ≡ true) (rw p at h)
              (verified salt password l size s k)
        | inr p ↦ let e = rw p at h in absurd (cc e)
      ]
