-- ===== src/Idempotency/Memory.antt =====
-- A records table in memory: the records in the order of their creation, the newest first.
use mathlib.Core.Path.{subst}
use project_saas_backend.Common.{
  Text, text_eq, text_eq_iff, Option, none, some, List, [], ◌∷◌, Bool, true, false, ◌≡◌, ◌≢◌, refl,
  sym, ap, ◌∙◌, inl, inr, if◌then◌else◌, Bool-cases, Option-cases,
}
use project_saas_backend.Idempotency.{
  IdempotencyRecord, Created, stored, taken, has_key, RecordTable,
}

unfoldable pub find_unique : List IdempotencyRecord → Text → Option IdempotencyRecord
find_unique [] k = none
find_unique (r ∷ db) k = if has_key r.idempotency_key k then some r else find_unique db k

unfoldable pub find_first :
    List IdempotencyRecord → (IdempotencyRecord → Bool) → Option IdempotencyRecord
find_first [] p = none
find_first (r ∷ db) p = if p r then some r else find_first db p

pub without : Text → List IdempotencyRecord → List IdempotencyRecord
without k [] = []
without k (r ∷ db) =
    let rest = without k db in if has_key r.idempotency_key k then rest else r ∷ rest

drop_found :
    Text → List IdempotencyRecord → Option IdempotencyRecord → Option (List IdempotencyRecord)
drop_found k db none = none
drop_found k db (some r) = some (without k db)

pub delete : List IdempotencyRecord → Text → Option (List IdempotencyRecord)
unfolding drop_found
delete db k = drop_found k db (find_unique db k)

unless_found :
    IdempotencyRecord
    → List IdempotencyRecord
    → Option IdempotencyRecord
    → Created (List IdempotencyRecord)
unless_found r db none = stored (r ∷ db)
unless_found r db (some s) = taken

by_key : IdempotencyRecord → List IdempotencyRecord → Option Text → Created (List IdempotencyRecord)
unfolding unless_found
by_key r db none = stored (r ∷ db)
by_key r db (some k) = unless_found r db (find_unique db k)

unfoldable pub create :
    List IdempotencyRecord → IdempotencyRecord → Created (List IdempotencyRecord)
unfolding by_key unless_found
create db r = by_key r db r.idempotency_key

by_key_stored :
    (r : IdempotencyRecord) (db db' : List IdempotencyRecord) (o : Option Text)
    → by_key r db o ≡ stored db'
    → db' ≡ (r ∷ db)
unfolding by_key unless_found
by_key_stored r db db' none e = cc
by_key_stored r db db' (some k) e = elim (Option-cases (find_unique db k)) [
  | inl free ↦ cc (e, free)
  | inr p ↦ absurd (cc (e, p.1))
]

create_adds :
    (db db' : List IdempotencyRecord) (r : IdempotencyRecord)
    → create db r ≡ stored db'
    → db' ≡ (r ∷ db)
unfolding create
create_adds db db' r e = by_key_stored r db db' r.idempotency_key e

pub create_taken :
    (db : List IdempotencyRecord) (r s : IdempotencyRecord) (k : Text)
    → r.idempotency_key ≡ some k
    → find_unique db k ≡ some s
    → create db r ≡ taken
unfolding create by_key unless_found
create_taken db r s k named found = ap (by_key r db) named ∙ ap (unless_found r db) found

key_only :
    (o : Option Text) (j k : Text) → has_key o j ≡ true → text_eq j k ≡ false → has_key o k ≡ false
key_only none j k h ne = refl
key_only (some i) j k h ne = subst (λ t. text_eq t k ≡ false) (sym ((text_eq_iff i j).0 h)) ne

pub find-without :
    (db : List IdempotencyRecord) (j k : Text)
    → find_unique (without j db) k ≡ (if text_eq j k then none else find_unique db k)
unfolding find_unique without
find-without [] j k = elim (Bool-cases (text_eq j k)) [
  | inl same ↦ rw same refl
  | inr other ↦ rw other refl
]
find-without (r ∷ db) j k =
    let ih = find-without db j k in
    elim (Bool-cases (has_key r.idempotency_key j)) [
      | inl mine ↦ elim (Bool-cases (text_eq j k)) [
        | inl same ↦ rw mine (ih ∙ rw same refl)
        | inr other ↦
            rw mine (ih ∙ rw other (sym (rw (key_only r.idempotency_key j k mine other) refl)))
      ]
      | inr kept ↦ elim (Bool-cases (text_eq j k)) [
        | inl same ↦
            let away =
              subst (λ i. has_key r.idempotency_key i ≡ false) ((text_eq_iff j k).0 same) kept in
            rw kept (rw away (ih ∙ rw same refl))
        | inr other ↦ rw kept (rw ih (rw other refl))
      ]
    ]

pub first-without :
    (db : List IdempotencyRecord) (k : Text) (p : IdempotencyRecord → Bool)
    → ((r : IdempotencyRecord) → has_key r.idempotency_key k ≡ true → p r ≡ false)
    → find_first (without k db) p ≡ find_first db p
unfolding find_first without
first-without [] k p unseen = refl
first-without (r ∷ db) k p unseen = elim (Bool-cases (has_key r.idempotency_key k)) [
  | inl named ↦ rw named (rw (unseen r named) (first-without db k p unseen))
  | inr other ↦ rw other (rw (first-without db k p unseen) refl)
]

pub delete_removes :
    (db db' : List IdempotencyRecord) (k : Text) → delete db k ≡ some db' → db' ≡ without k db
unfolding delete drop_found
delete_removes db db' k e = elim (Option-cases (find_unique db k)) [
  | inl gone ↦ absurd (cc (e, gone))
  | inr p ↦ cc (e, p.1)
]

pub first-create :
    (db db' : List IdempotencyRecord) (r : IdempotencyRecord) (p : IdempotencyRecord → Bool)
    → create db r ≡ stored db'
    → find_first db' p ≡ (if p r then some r else find_first db p)
unfolding find_first
first-create db db' r p e = rw (create_adds db db' r e) refl

pub find_added :
    (db db' : List IdempotencyRecord) (r : IdempotencyRecord) (k : Text)
    → create db r ≡ stored db'
    → find_unique db' k ≡ (if has_key r.idempotency_key k then some r else find_unique db k)
unfolding find_unique
find_added db db' r k e = rw (create_adds db db' r e) refl

pub hit_kept :
    (db db' : List IdempotencyRecord) (r : IdempotencyRecord) (p : IdempotencyRecord → Bool)
    → create db r ≡ stored db'
    → find_first db p ≢ none
    → find_first db' p ≢ none
hit_kept db db' r p e hit gone = elim (Bool-cases (p r)) [
  | inl seen ↦ absurd (cc (first-create db db' r p e, seen, gone))
  | inr unseen ↦ hit (cc (first-create db db' r p e, unseen, gone))
]

pub hit_added :
    (db db' : List IdempotencyRecord) (r : IdempotencyRecord) (p : IdempotencyRecord → Bool)
    → create db r ≡ stored db'
    → p r ≡ true
    → find_first db' p ≢ none
hit_added db db' r p e seen gone = absurd (cc (first-create db db' r p e, seen, gone))

abbrev pub memory_table : RecordTable
memory_table = record {
  Db = List IdempotencyRecord;
  find_unique = find_unique;
  find_first = find_first;
  delete = delete;
  create = create;
  find-create = find_added;
  create_taken = create_taken;
  find-delete = λ db db' j k e. rw (delete_removes db db' j e) (find-without db j k);
  find_first-create = hit_kept;
  find_first-delete = λ db db' k p e unseen hit gone. hit (
      sym (first-without db k p unseen)
      ∙ sym (ap (λ d. find_first d p) (delete_removes db db' k e))
      ∙ gone);
  find_first_hit = hit_added;
  find_first_miss = λ db db' r p e unseen miss. first-create db db' r p e ∙ rw unseen miss;
}
