-- ===== src/Encryption/RoundTrips.antt =====
-- What was encrypted is decrypted with the same secret.
use project_saas_backend.Common.{
  ℕ, Text, some, List, [], ◌∷◌, ◌++◌, ◌≡◌, refl, ap, ◌∙◌, take, drop, length, arith, suc, zero,
  Bool, true, false, ◌&&◌, not, leb, if◌then◌else◌,
}
use project_saas_backend.Encryption.{
  Platform, get_key, encrypt_buffer, decrypt_buffer, encrypt_string, decrypt_string, decoded,
}

take-append {ℓ} : {A : Type ℓ} (xs ys : List A) (n : ℕ) → length xs ≡ n → take n (xs ++ ys) ≡ xs
take-append [] ys zero h = refl
take-append [] ys (suc n) h = absurd (omega (arith, h))
take-append (x ∷ xs) ys zero h = absurd (omega (arith, h))
take-append (x ∷ xs) ys (suc n) h = ap (λ l. x ∷ l) (take-append xs ys n (omega (arith, h)))

drop-append {ℓ} : {A : Type ℓ} (xs ys : List A) (n : ℕ) → length xs ≡ n → drop n (xs ++ ys) ≡ ys
drop-append [] ys zero h = refl
drop-append [] ys (suc n) h = absurd (omega (arith, h))
drop-append (x ∷ xs) ys zero h = absurd (omega (arith, h))
drop-append (x ∷ xs) ys (suc n) h = drop-append xs ys n (omega (arith, h))

-- No surrogate without its other half.
abbrev pub is_high : ℕ → Bool
is_high c = leb 55296 c && leb c 56319

abbrev pub is_low : ℕ → Bool
is_low c = leb 56320 c && leb c 57343

abbrev pub low_first : Text → Bool
low_first [] = false
low_first (c ∷ s) = is_low c

-- `after_high` says that the character before is the first half of a pair.
abbrev pub pairs_up : Bool → Text → Bool
pairs_up after_high [] = not after_high
pairs_up after_high (c ∷ s) =
    let rest = pairs_up (is_high c) s in (if after_high then is_low c else not (is_low c)) && rest

-- What the program relies on of the platform: a digest of 32 bytes; a cipher that undoes itself under
-- one key of 32 bytes and one initial vector of 16; UTF-8, which undoes itself on texts without
-- unpaired surrogates; and Base64, which undoes itself on bytes.
pub record Sound (P : Platform) : Type 0 where
  pub digest_length : (t : Text) → length (P.sha256 t) ≡ 32
  pub deciphers :
      (key iv bytes : List ℕ)
      → length key ≡ 32
      → length iv ≡ 16
      → P.decipher key iv (P.encipher key iv bytes) ≡ some bytes
  pub utf8 : (t : Text) → pairs_up false t ≡ true → P.of_utf8 (P.to_utf8 t) ≡ t
  pub base64 : (b : List ℕ) → P.of_base64 (P.to_base64 b) ≡ b

module _ (P : Platform) (sound : Sound P) where
  -- Bytes that were encrypted with an initial vector of 16 bytes are decrypted with the same secret to
  -- what they were.
  pub decrypt_buffer-encrypt_buffer :
      (iv bytes : List ℕ) (secret : Text)
      → length iv ≡ 16
      → decrypt_buffer P (encrypt_buffer P iv bytes secret) secret ≡ some bytes
  unfolding decrypt_buffer encrypt_buffer get_key
  decrypt_buffer-encrypt_buffer iv bytes secret h =
      let sealed = P.encipher (get_key P secret) iv bytes in
      let key = get_key P secret in
      ap (λ v. P.decipher key v (drop 16 (iv ++ sealed))) (take-append iv sealed 16 h)
      ∙ ap (λ d. P.decipher key iv d) (drop-append iv sealed 16 h)
      ∙ sound.deciphers key iv bytes (sound.digest_length secret) h

  -- A text without unpaired surrogates that was encrypted with an initial vector of 16 bytes is
  -- decrypted with the same secret to what it was.
  pub decrypt_string-encrypt_string :
      (iv : List ℕ) (text secret : Text)
      → length iv ≡ 16
      → pairs_up false text ≡ true
      → decrypt_string P (encrypt_string P iv text secret) secret ≡ some text
  unfolding decrypt_string encrypt_string
  decrypt_string-encrypt_string iv text secret h paired =
      ap (λ b. decoded P (decrypt_buffer P b secret))
        (sound.base64 (encrypt_buffer P iv (P.to_utf8 text) secret))
      ∙ ap (decoded P) (decrypt_buffer-encrypt_buffer iv (P.to_utf8 text) secret h)
      ∙ ap some (sound.utf8 text paired)
