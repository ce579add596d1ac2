-- ===== src/Accounts/Steps.antt =====
-- What one `update` of an existing row does to the table.
use project_saas_backend.Common.{
  Text, text_eq, text_eq_refl, text_eq_iff, ◌≢◌, none, some, ◌≡◌, refl, ◌∙◌, arith, if◌then◌else◌,
}
use project_saas_backend.Common.Result.{ok, err}
use project_saas_backend.Accounts.{User, UserTable, KeepsKeys, record_not_found, update_row}

module _ (T : UserTable) where
  open T use {Db, find_unique, update_found, update_missing}

  -- The row with this id is replaced, and no other.
  pub record Replaced (db db' : Db) (i : Text) (u : User) : Type 0 where
    pub at : (j : Text) → find_unique db' j ≡ (if text_eq i j then some u else find_unique db j)

  pub update_row_found :
      (i : Text) (f : User → User) (db : Db) (u : User)
      → KeepsKeys f
      → find_unique db i ≡ some u
      → (db' : Db) × (update_row T i f db ≡ (ok (f u), db')) × Replaced db db' i (f u)
  update_row_found i f db u keeps found =
      let (db', e, at) = update_found db i f u keeps found in (db', rw e refl, record { at = at })

  pub update_row_missing :
      (i : Text) (f : User → User) (db : Db)
      → find_unique db i ≡ none
      → update_row T i f db ≡ (err record_not_found, db)
  update_row_missing i f db missing = rw (update_missing db i f missing) refl

  module _ {db db' : Db} {i : Text} {u : User} (r : Replaced db db' i u) where
    pub Replaced_self : find_unique db' i ≡ some u
    Replaced_self = r.at i ∙ rw (text_eq_refl i) refl

  pub Replaced-other :
      (db db' : Db) (i j : Text) (u : User)
      → Replaced db db' i u
      → i ≢ j
      → find_unique db' j ≡ find_unique db j
  Replaced-other db db' i j u r ne = ground (arith, r.at j, text_eq_iff i j)

  pub Replaced-trans :
      (db db' db'' : Db) (i : Text) (u v : User)
      → Replaced db db' i u
      → Replaced db' db'' i v
      → Replaced db db'' i v
  Replaced-trans db db' db'' i u v r s = record { at = λ j. ground (arith, r.at j, s.at j) }
