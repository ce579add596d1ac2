-- ===== src/Common/Result.antt =====
-- Code that may throw: `E` is the type of what is thrown. An action on a state keeps what it wrote
-- before a throw.

pub data Result {ℓ κ} (E : Type ℓ) (A : Type κ) : Type (ℓ ⊔ κ) where
  ok : A → Result E A
  err : E → Result E A

abbrev pub Exec {ℓ} : Type ℓ → Type ℓ → Type ℓ → Type ℓ
Exec E S A = S → Result E A × S

module _ {ℓ} {E S A : Type ℓ} where
  abbrev pub pure : A → Exec E S A
  pure a s = (ok a, s)

  abbrev pub throw : E → Exec E S A
  throw e s = (err e, s)

  abbrev pub lift : Result E A → Exec E S A
  lift r s = (r, s)

module _ {ℓ} {E S A B : Type ℓ} where
  abbrev pub continue : (A → Exec E S B) → Result E A × S → Result E B × S
  continue f (ok a, s) = f a s
  continue f (err e, s) = (err e, s)

  infixl 5 ◌>>=◌ ◌>>◌
  abbrev pub ◌>>=◌ : Exec E S A → (A → Exec E S B) → Exec E S B
  ◌>>=◌ m f s = continue f (m s)

  abbrev pub ◌>>◌ : Exec E S A → Exec E S B → Exec E S B
  m >> n = m >>= λ _. n
