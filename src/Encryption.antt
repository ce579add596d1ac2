-- ===== src/Encryption.antt =====
-- src/shared/utils/encryption.util.ts and src/shared/services/encryption.service.ts. The hash, the
-- block cipher, the text encodings and the random bytes of the platform are an interface.
pub mod RoundTrips
mod Tests
use project_saas_backend.Common.{ℕ, Text, Option, none, some, List, [], ◌∷◌, ◌++◌, take, drop}

pub record Platform : Type 0 where
  -- `createHash('sha256')`, and its hexadecimal text
  pub sha256 : Text → List ℕ
  pub hex : List ℕ → Text
  -- AES-256-CBC with a key and an initial vector; the decipher throws on bad data
  pub encipher : List ℕ → List ℕ → List ℕ → List ℕ
  pub decipher : List ℕ → List ℕ → List ℕ → Option (List ℕ)
  pub to_utf8 : Text → List ℕ
  pub of_utf8 : List ℕ → Text
  pub to_base64 : List ℕ → Text
  pub of_base64 : Text → List ℕ

module _ (P : Platform) where
  open P use {sha256, hex, encipher, decipher, to_utf8, of_utf8, to_base64, of_base64}

  unfoldable pub get_key : Text → List ℕ
  get_key secret = sha256 secret

  -- The random initial vector comes first.
  unfoldable pub encrypt_buffer : List ℕ → List ℕ → Text → List ℕ
  unfolding get_key
  encrypt_buffer iv buffer secret = iv ++ encipher (get_key secret) iv buffer

  unfoldable pub decrypt_buffer : List ℕ → Text → Option (List ℕ)
  unfolding get_key
  decrypt_buffer encrypted secret =
      decipher (get_key secret) (take 16 encrypted) (drop 16 encrypted)

  unfoldable pub encrypt_string : List ℕ → Text → Text → Text
  unfolding encrypt_buffer
  encrypt_string iv text secret = to_base64 (encrypt_buffer iv (to_utf8 text) secret)

  abbrev pub decoded : Option (List ℕ) → Option Text
  decoded none = none
  decoded (some bytes) = some (of_utf8 bytes)

  unfoldable pub decrypt_string : Text → Text → Option Text
  unfolding decrypt_buffer
  decrypt_string encrypted secret = decoded (decrypt_buffer (of_base64 encrypted) secret)

  unfoldable pub hash_string : Text → Text
  hash_string value = hex (sha256 value)

  unfoldable pub generate_secure_token : List ℕ → Text
  generate_secure_token random_bytes = hex random_bytes
