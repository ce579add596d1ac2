-- ===== src/Upload/Audit/Laws.antt =====
-- What the audit log shows after an entry was added or changed, and what its queries give.
use project_saas_backend.Common.{
  append_assoc, ℕ, zero, suc, ◌<◌, ◌≤◌, ◌-◌, Text, Option, some, List, [], ◌∷◌, ◌++◌, map, false,
  ◌≡◌, refl, ap, sym, ◌∙◌, arith, length, get_elem?, All, take, take-append-drop, length-drop,
  length-take, ◌==◌,
}
use project_saas_backend.Upload.Audit.{
  AuditLogEntry, Audit, change, trail, entries_of_user, get_audit_trail_for_user, slice_last,
}

-- Every address in the buffer is that of an entry.
abbrev pub Sound : Audit → Type 0
Sound a = All (λ i. i < length a.entries) a.logs

get_elem?-last :
    (es : List AuditLogEntry) (e : AuditLogEntry) → get_elem? (es ++ e ∷ []) (length es) ≡ some e
get_elem?-last [] e = refl
get_elem?-last (x ∷ es) e = get_elem?-last es e

get_elem?-before :
    (es : List AuditLogEntry) (e : AuditLogEntry) (i : ℕ)
    → i < length es
    → get_elem? (es ++ e ∷ []) i ≡ get_elem? es i
get_elem?-before [] e i h = absurd (omega (arith, h))
get_elem?-before (x ∷ es) e zero h = refl
get_elem?-before (x ∷ es) e (suc i) h = get_elem?-before es e i (omega (arith, h))

pub change-last :
    (es : List AuditLogEntry) (e : AuditLogEntry) (f : AuditLogEntry → AuditLogEntry)
    → change (length es) f (es ++ e ∷ []) ≡ es ++ f e ∷ []
unfolding change
change-last [] e f = refl
change-last (x ∷ es) e f = ap (λ l. x ∷ l) (change-last es e f)

map-append :
    (f : ℕ → Option AuditLogEntry) (is js : List ℕ) → map f (is ++ js) ≡ map f is ++ map f js
map-append f [] js = refl
map-append f (i ∷ is) js = ap (λ l. f i ∷ l) (map-append f is js)

old_logs :
    (es : List AuditLogEntry) (e : AuditLogEntry) (is : List ℕ)
    → All (λ i. i < length es) is
    → map (λ i. get_elem? (es ++ e ∷ []) i) is ≡ map (λ i. get_elem? es i) is
old_logs es e [] sound = refl
old_logs es e (i ∷ is) sound = rw (get_elem?-before es e i sound.0, old_logs es e is sound.1) refl

-- The trail of a buffer to which the last entry was added.
pub trail_once :
    (a : Audit) (e : AuditLogEntry)
    → Sound a
    → trail (record { entries = a.entries ++ e ∷ []; logs = a.logs ++ length a.entries ∷ [] })
      ≡ trail a ++ some e ∷ []
unfolding trail
trail_once a e sound =
    map-append (λ i. get_elem? (a.entries ++ e ∷ []) i) a.logs (length a.entries ∷ [])
    ∙ rw (old_logs a.entries e a.logs sound, get_elem?-last a.entries e) refl

pub trail_twice :
    (a : Audit) (e : AuditLogEntry)
    → Sound a
    → trail (record {
      entries = a.entries ++ e ∷ [];
      logs = (a.logs ++ length a.entries ∷ []) ++ length a.entries ∷ [];
    })
      ≡ trail a ++ some e ∷ some e ∷ []
unfolding trail
trail_twice a e sound =
    let n = length a.entries in
    ap (map (λ i. get_elem? (a.entries ++ e ∷ []) i)) (append_assoc a.logs (n ∷ []) (n ∷ []))
    ∙ map-append (λ i. get_elem? (a.entries ++ e ∷ []) i) a.logs (n ∷ n ∷ [])
    ∙ rw (old_logs a.entries e a.logs sound, get_elem?-last a.entries e) refl

slice_last-limit {ℓ} :
    {A : Type ℓ} (limit : ℕ) (xs : List A)
    → 0 < limit
    → (earlier : List A) × (xs ≡ earlier ++ slice_last limit xs)
      × (length (slice_last limit xs) ≤ limit)
      × (length earlier ≡ length xs - limit)
slice_last-limit limit xs h =
    let n = length xs - limit in
    let some_limit : (limit == 0) ≡ false = ground arith in
    (
      take n xs,
      rw some_limit (sym (take-append-drop n xs)),
      rw some_limit (rw (length-drop n xs) (omega arith)),
      length-take n xs ∙ omega arith,
    )

-- A query of the entries of a user with a limit above 0 gives the last ones of that user, as many as
-- there are but at most the limit.
pub get_audit_trail_for_user-last :
    (user_id : Text) (limit : ℕ) (a : Audit)
    → 0 < limit
    → (earlier : List AuditLogEntry) × (entries_of_user user_id a
        ≡ earlier ++ get_audit_trail_for_user user_id limit a)
      × (length (get_audit_trail_for_user user_id limit a) ≤ limit)
      × (length earlier ≡ length (entries_of_user user_id a) - limit)
unfolding get_audit_trail_for_user
get_audit_trail_for_user-last user_id limit a h =
    slice_last-limit limit (entries_of_user user_id a) h
