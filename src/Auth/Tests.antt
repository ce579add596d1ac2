-- ===== src/Auth/Tests.antt =====
-- Runs of the authentication service on a table in memory, and the witnesses of its theorems.
use project_saas_backend.Common.{
  ℕ, Text, codes, take, text_eq, text_eq_iff, none, List, [], ◌∷◌, ◌++◌, Bool, true, ◌≡◌, ◌≢◌, ◌↔◌,
  ◌⊎◌, refl,
}
use project_saas_backend.Common.Result.{ok, err}
use project_saas_backend.Errors.Registry
use project_saas_backend.Accounts.{User, default_row, set_deleted, update_refresh_token}
use project_saas_backend.Accounts.Memory.{memory_table, find_unique, update}
use project_saas_backend.Auth.{
  Crypto, Draw, AuthTokens, RegisterDto, LoginDto, generate_tokens, save_refresh_token,
  refresh_tokens, logout, refusal,
}
use project_saas_backend.Auth.Session.{with_token, tokens_of, Accepted}
use project_saas_backend.Auth.Refresh.{refresh_rotation, logout_ends}
use project_saas_backend.Auth.Login.{Opened, Refused, login_cases}
use project_saas_backend.Auth.Registration.{IsFree, Registered, register-login}

hash : Text → Text → Text
hash salt raw = 36 ∷ take 72 raw

compare : Text → Text → Bool
unfolding text_eq
compare raw stored = text_eq (36 ∷ take 72 raw) stored

compare-hash :
    (raw other salt : Text) → (compare raw (hash salt other) ≡ true) ↔ (take 72 raw ≡ take 72 other)
unfolding compare hash
compare-hash raw other salt = text_eq_iff (take 72 raw) (take 72 other)

hash-IsText : (salt raw : Text) → (c : ℕ) × (s : Text) × (hash salt raw ≡ c ∷ s)
unfolding hash
hash-IsText salt raw = (36, take 72 raw, refl)

-- A signed token as far as bcrypt is concerned: header, payload, signature. Of a real one the first
-- 72 bytes are the header and the start of the subject.
abbrev toy_crypto : Crypto
toy_crypto = record {
  hash = hash;
  compare = compare;
  sign_access = λ sub email role now. codes "access." ++ sub;
  sign_refresh = λ sub jti now. codes "eyJhbGciOiJIUzI1NiIsInR5cCI6IkpXVCJ9." ++ sub ++ jti;
  compare-hash = compare-hash;
  hash-IsText = hash-IsText;
}

abbrev alice_id : Text
alice_id = codes "3f8b2c1e-0000-4000-8000-000000000001"

abbrev draw : Text → Draw
draw jti = record {
  now = 1000;
  user_id = alice_id;
  password_salt = codes "s1";
  token_salt = codes "s2";
  jti = jti;
}

abbrev first_draw : Draw
first_draw = draw (codes "one")

abbrev second_draw : Draw
second_draw = draw (codes "two")

abbrev alice : User
alice = default_row alice_id 1 (record {
  email = codes "alice@example.com";
  password = hash (codes "s1") (codes "Passw0rd!");
  first_name = codes "Alice";
  last_name = codes "Doe";
  phone = none;
})

abbrev credentials : LoginDto
credentials = record { email = codes "Alice@Example.com"; password = codes "Passw0rd!" }

login_cases_example :
    Opened memory_table toy_crypto first_draw credentials (alice ∷ [])
    ⊎ Refused memory_table toy_crypto first_draw credentials (alice ∷ [])
login_cases_example = login_cases memory_table toy_crypto first_draw credentials (alice ∷ [])

abbrev dto : RegisterDto
dto = record {
  email = codes "ALICE@example.com";
  password = codes "Passw0rd!";
  first_name = codes "Alice";
  last_name = codes "Doe";
  phone = none;
}

-- The address of a soft-deleted account.
abbrev deleted_alice : User
deleted_alice = set_deleted 5 alice

IsFree-table : IsFree memory_table toy_crypto [] first_draw dto
unfolding find_unique
IsFree-table = (refl, λ i v h. absurd (cc (h)))

register-login_example : Registered memory_table toy_crypto first_draw dto []
register-login_example = register-login memory_table toy_crypto first_draw dto [] IsFree-table

abbrev session : User
session =
    with_token memory_table toy_crypto first_draw
      (tokens_of memory_table toy_crypto first_draw alice) alice

abbrev first_token : Text
first_token = codes "eyJhbGciOiJIUzI1NiIsInR5cCI6IkpXVCJ9." ++ alice_id ++ codes "one"

Accepted-first : Accepted memory_table toy_crypto (session ∷ []) alice_id first_token session
unfolding find_unique codes text_eq compare hash generate_tokens
Accepted-first = record {
  found = refl;
  stored = hash (codes "s2") first_token;
  kept = refl;
  nonempty = λ e. cc;
  matches = refl;
}

abbrev new_tokens : AuthTokens
new_tokens = tokens_of memory_table toy_crypto second_draw session

abbrev rotated : List User
rotated = with_token memory_table toy_crypto second_draw new_tokens session ∷ session ∷ []

refreshed :
    refresh_tokens memory_table toy_crypto second_draw alice_id first_token (session ∷ [])
    ≡ (ok new_tokens, rotated)
unfolding refresh_tokens find_unique update codes text_eq compare hash generate_tokens
    save_refresh_token update_refresh_token
refreshed = refl

-- Presenting the rotated-out token once more.
refresh_rotation_example :
    (take 72 first_token ≡ take 72 new_tokens.refresh_token
      → (t2 : AuthTokens) × (db2 : List User) × (refresh_tokens memory_table toy_crypto first_draw
            alice_id first_token rotated
          ≡ (ok t2, db2)))
    × (take 72 first_token ≢ take 72 new_tokens.refresh_token
        → refresh_tokens memory_table toy_crypto first_draw alice_id first_token rotated
          ≡ (err (refusal Registry.refresh_token_invalid), rotated))
refresh_rotation_example =
    refresh_rotation memory_table toy_crypto second_draw first_draw alice_id first_token first_token
      new_tokens (session ∷ []) rotated refreshed

-- The rotated-out token agrees with the new one in the first 72 bytes.
old_token_agrees : take 72 first_token ≡ take 72 new_tokens.refresh_token
unfolding codes generate_tokens
old_token_agrees = refl

logout_ends_example :
    (db' : List User) × (logout memory_table toy_crypto second_draw alice_id (session ∷ [])
      ≡ (ok tt, db'))
    × ((d2 : Draw) (raw : Text)
        → refresh_tokens memory_table toy_crypto d2 alice_id raw db'
          ≡ (err (refusal Registry.refresh_token_invalid), db'))
unfolding find_unique codes text_eq
logout_ends_example =
    logout_ends memory_table toy_crypto second_draw alice_id session (session ∷ []) refl
