-- ===== src/Http/Sanitize/Laws.antt =====
-- What the sanitising changes, and which fields stay.
use mathlib.Core.Path.{subst}
use project_saas_backend.Common.Trim.{trim, Trimmed, trim-Trimmed}
use project_saas_backend.Common.{
  Text, text_eq, text_eq_iff, Option, none, some, List, [], ◌∷◌, ◌++◌, map, Bool, true, false, ◌≡◌,
  refl, ap, ◌∙◌, sym, ◌||◌, any, if◌then◌else◌, Bool-cases, inl, inr, arith,
}
use project_saas_backend.Http.Sanitize.{
  Value, text, items, object, other, Items, end, item, Fields, none_left, field, sanitize_string,
  sanitize, delete_field, strip_sensitive_fields,
}

-- The texts of a value, in their order.
unfoldable mutual
  pub texts : Value → List Text
  texts (text s) = s ∷ []
  texts (items xs) = item_texts xs
  texts (object fs) = field_texts fs
  texts (other n) = []

  item_texts : Items → List Text
  item_texts end = []
  item_texts (item x xs) = texts x ++ item_texts xs

  field_texts : Fields → List Text
  field_texts none_left = []
  field_texts (field key v fs) = texts v ++ field_texts fs

-- The value with its texts blanked: its shape, its keys and whatever is no text.
unfoldable mutual
  pub blank : Value → Value
  blank (text s) = text []
  blank (items xs) = items (blank_items xs)
  blank (object fs) = object (blank_fields fs)
  blank (other n) = other n

  blank_items : Items → Items
  blank_items end = end
  blank_items (item x xs) = item (blank x) (blank_items xs)

  blank_fields : Fields → Fields
  blank_fields none_left = none_left
  blank_fields (field key v fs) = field key (blank v) (blank_fields fs)

map-append {ℓ} : {A : Type ℓ} (f : A → A) (xs ys : List A) → map f (xs ++ ys) ≡ map f xs ++ map f ys
map-append f [] ys = refl
map-append f (x ∷ xs) ys = ap (λ l. f x ∷ l) (map-append f xs ys)

module _ (xss : Text → Text) where
  mutual
    unfolding sanitize texts

    texts_of : (v : Value) → texts (sanitize xss v) ≡ map (sanitize_string xss) (texts v)
    texts_of (text s) = refl
    texts_of (items xs) = texts_of_items xs
    texts_of (object fs) = texts_of_fields fs
    texts_of (other n) = refl

    texts_of_items :
        (xs : Items)
        → texts (sanitize xss (items xs)) ≡ map (sanitize_string xss) (texts (items xs))
    texts_of_items end = refl
    texts_of_items (item x xs) =
        rw (texts_of x) (
          rw (texts_of_items xs) (sym (map-append (sanitize_string xss) (texts x) (item_texts xs))))

    texts_of_fields :
        (fs : Fields)
        → texts (sanitize xss (object fs)) ≡ map (sanitize_string xss) (texts (object fs))
    texts_of_fields none_left = refl
    texts_of_fields (field key v fs) = rw (texts_of v) (
        rw (texts_of_fields fs) (sym (map-append (sanitize_string xss) (texts v) (field_texts fs))))

  mutual
    unfolding sanitize blank

    same_shape : (v : Value) → blank (sanitize xss v) ≡ blank v
    same_shape (text s) = refl
    same_shape (items xs) = same_shape_items xs
    same_shape (object fs) = same_shape_fields fs
    same_shape (other n) = refl

    same_shape_items : (xs : Items) → blank (sanitize xss (items xs)) ≡ blank (items xs)
    same_shape_items end = refl
    same_shape_items (item x xs) = cc (same_shape x, same_shape_items xs)

    same_shape_fields : (fs : Fields) → blank (sanitize xss (object fs)) ≡ blank (object fs)
    same_shape_fields none_left = refl
    same_shape_fields (field key v fs) = cc (same_shape v, same_shape_fields fs)

  -- A text after sanitising: the filter's answer for the text without white space at its ends.
  abbrev pub Sanitized : Text → Text → Type 0
  Sanitized s t = (u : Text) × Trimmed s u × (t ≡ xss u)

  abbrev pub Pairwise : List Text → List Text → Type 0
  Pairwise [] [] = Unit
  Pairwise (s ∷ ss) (t ∷ ts) = Sanitized s t × Pairwise ss ts
  Pairwise _ _ = ⊥

  all_sanitized : (ss : List Text) → Pairwise ss (map (sanitize_string xss) ss)
  unfolding sanitize_string
  all_sanitized [] = tt
  all_sanitized (s ∷ ss) = ((trim s, trim-Trimmed s, refl), all_sanitized ss)

  -- Every text of a value, at any depth, becomes what the filter answers for it without the white space
  -- at its two ends, all of it and no more; nothing else changes: not the order, the keys, the numbers
  -- or the nesting.
  pub sanitize-texts :
      (v : Value) → Pairwise (texts v) (texts (sanitize xss v)) × (blank (sanitize xss v) ≡ blank v)
  sanitize-texts v = (
    subst (λ ts. Pairwise (texts v) ts) (sym (texts_of v)) (all_sanitized (texts v)),
    same_shape v,
  )

unfoldable pub lookup : Text → Fields → Option Value
unfolding text_eq
lookup name none_left = none
lookup name (field key v fs) =
    let rest = lookup name fs in if text_eq key name then some v else rest

delete_field-lookup :
    (name key : Text) (fs : Fields)
    → lookup key (delete_field name fs) ≡ (if text_eq name key then none else lookup key fs)
unfolding lookup
delete_field-lookup name key none_left = ground (arith)
delete_field-lookup name key (field k v fs) = elim (Bool-cases (text_eq k name)) [
  | inl e ↦
      let same : text_eq k key ≡ text_eq name key =
        ap (λ t. text_eq t key) ((text_eq_iff k name).0 e) in
      rw e (rw (delete_field-lookup name key fs) (rw same (twice (text_eq name key))))
  | inr e ↦ elim (Bool-cases (text_eq name key)) [
    | inl n ↦
        let apart : text_eq k key ≡ false =
          ap (λ t. text_eq k t) (sym ((text_eq_iff name key).0 n)) ∙ e in
        rw e (rw apart (delete_field-lookup name key fs ∙ rw n refl))
    | inr n ↦ rw e (rw n (kept (text_eq k key) (delete_field-lookup name key fs ∙ rw n refl)))
  ]
]
  where
    twice :
        (b : Bool)
        → (if b then none else lookup key fs)
          ≡ (if b then none else if b then some v else lookup key fs)
    twice true = refl
    twice false = refl

    kept :
        (b : Bool)
        → lookup key (delete_field name fs) ≡ lookup key fs
        → (if b then some v else lookup key (delete_field name fs))
          ≡ (if b then some v else lookup key fs)
    kept true e = refl
    kept false e = e

-- A field that is listed is gone, and every other one is as it was.
pub strip_sensitive_fields-lookup :
    (fs : Fields) (names : List Text) (key : Text)
    → lookup key (strip_sensitive_fields fs names)
      ≡ (if any (λ n. text_eq n key) names then none else lookup key fs)
unfolding strip_sensitive_fields
strip_sensitive_fields-lookup fs [] key = refl
strip_sensitive_fields-lookup fs (name ∷ names) key =
    strip_sensitive_fields-lookup (delete_field name fs) names key
    ∙ rw (delete_field-lookup name key fs)
        (merged (text_eq name key) (any (λ n. text_eq n key) names))
  where
    merged :
        (a b : Bool)
        → (if b then none else if a then none else lookup key fs)
          ≡ (if a || b then none else lookup key fs)
    merged true true = refl
    merged true false = refl
    merged false true = refl
    merged false false = refl
