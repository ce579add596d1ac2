-- ===== src/Encryption/Tests.antt =====
-- The witness of the theorem on encrypted texts.
use project_saas_backend.Common.{ℕ, codes, some, List, [], ◌∷◌, ◌≡◌, refl, drop}
use project_saas_backend.Encryption.{Platform, encrypt_string, decrypt_string}
use project_saas_backend.Encryption.RoundTrips.{Sound, decrypt_string-encrypt_string}

abbrev digest : List ℕ
digest =
    1 ∷ 2 ∷ 3 ∷ 4 ∷ 5 ∷ 6 ∷ 7 ∷ 8 ∷ 1 ∷ 2 ∷ 3 ∷ 4 ∷ 5 ∷ 6 ∷ 7 ∷ 8 ∷ 1 ∷ 2 ∷ 3 ∷ 4 ∷ 5 ∷ 6 ∷ 7 ∷ 8
    ∷ 1 ∷ 2 ∷ 3 ∷ 4 ∷ 5 ∷ 6 ∷ 7 ∷ 8 ∷ []

-- Bytes after their key, and texts that are their own encodings.
abbrev toy : Platform
toy = record {
  sha256 = λ s. digest;
  hex = λ b. b;
  encipher = λ key iv bytes. 7 ∷ bytes;
  decipher = λ key iv bytes. some (drop 1 bytes);
  to_utf8 = λ t. t;
  of_utf8 = λ b. b;
  to_base64 = λ b. b;
  of_base64 = λ t. t;
}

abbrev iv : List ℕ
iv = 1 ∷ 2 ∷ 3 ∷ 4 ∷ 5 ∷ 6 ∷ 7 ∷ 8 ∷ 9 ∷ 10 ∷ 11 ∷ 12 ∷ 13 ∷ 14 ∷ 15 ∷ 16 ∷ []

toy-Sound : Sound toy
toy-Sound = record {
  digest_length = λ t. refl;
  deciphers = λ key iv bytes k v. refl;
  utf8 = λ t paired. refl;
  base64 = λ b. refl;
}

decrypt_string-encrypt_string_example :
    decrypt_string toy (encrypt_string toy iv (codes "hello") (codes "k")) (codes "k")
    ≡ some (codes "hello")
unfolding codes
decrypt_string-encrypt_string_example =
    decrypt_string-encrypt_string toy toy-Sound iv (codes "hello") (codes "k") refl refl
