-- ===== src/Http/Validation/Laws.antt =====
-- The names that the pipe gives to invalid fields, and what the client sees of them.
use mathlib.Core.Path.{subst}
use project_saas_backend.Common.{
  append_assoc, ℕ, Text, Option, none, some, List, [], ◌∷◌, ◌++◌, map, Bool, true, false, ◌≡◌, refl,
  ap, ◌∙◌, sym,
}
use project_saas_backend.Common.Result.{err}
use project_saas_backend.Errors.{FieldError, Thrown}
use project_saas_backend.Errors.Filter.{catch, http_code}
use project_saas_backend.Errors.Filter.Envelope.{http_object-catch}
use project_saas_backend.Http.Validation.{
  ValidationErrors, end, error, dotted, field_error, extract_fields, invalid_body, Metatype,
  primitive, dto, transform, checked,
}

-- Names joined by dots.
abbrev pub join_dots : List Text → Text
join_dots [] = []
join_dots (s ∷ []) = s
join_dots (s ∷ t ∷ ss) = s ++ 46 ∷ join_dots (t ∷ ss)

abbrev own_path : List Text → Option (List (Text × Text)) → List (List Text)
own_path p none = []
own_path p (some cs) = p ∷ []

-- The paths of the properties that violate constraints, a property before its children.
unfoldable pub paths : List Text → ValidationErrors → List (List Text)
paths p end = []
paths p (error property value constraints children rest) =
    own_path (p ++ property ∷ []) constraints
    ++ (paths (p ++ property ∷ []) children ++ paths p rest)

-- Every property has a name.
unfoldable pub Named : ValidationErrors → Type 0
Named end = Unit
Named (error [] value constraints children rest) = false ≡ true
Named (error (c ∷ s) value constraints children rest) = Named children × Named rest

join_dots-last :
    (s : Text) (ss : List Text) (t : Text)
    → join_dots ((s ∷ ss) ++ t ∷ []) ≡ join_dots (s ∷ ss) ++ 46 ∷ t
join_dots-last s [] t = refl
join_dots-last s (u ∷ ss) t =
    ap (λ x. s ++ 46 ∷ x) (join_dots-last u ss t)
    ∙ sym (append_assoc s (46 ∷ join_dots (u ∷ ss)) (46 ∷ t))

-- The path is empty, or begins with a name.
abbrev Rooted : List Text → Type 0
Rooted [] = Unit
Rooted ([] ∷ ss) = false ≡ true
Rooted ((c ∷ s) ∷ ss) = Unit

dotted-join_dots :
    (p : List Text) (s : Text) → Rooted p → dotted (join_dots p) s ≡ join_dots (p ++ s ∷ [])
dotted-join_dots [] s h = refl
dotted-join_dots ([] ∷ ss) s h = absurd (cc (h))
dotted-join_dots ((c ∷ t) ∷ []) s h = refl
dotted-join_dots ((c ∷ t) ∷ u ∷ ss) s h = sym (join_dots-last (c ∷ t) (u ∷ ss) s)

append-Rooted : (p : List Text) (c : ℕ) (s : Text) → Rooted p → Rooted (p ++ (c ∷ s) ∷ [])
append-Rooted [] c s h = tt
append-Rooted ([] ∷ ss) c s h = absurd (cc (h))
append-Rooted ((d ∷ t) ∷ ss) c s h = tt

abbrev pub names_of : List FieldError → List Text
names_of fs = map (λ (f : FieldError). f.field) fs

names_of-append : (xs ys : List FieldError) → names_of (xs ++ ys) ≡ names_of xs ++ names_of ys
names_of-append [] ys = refl
names_of-append (x ∷ xs) ys = ap (λ l. x.field ∷ l) (names_of-append xs ys)

map_join-append :
    (xs ys : List (List Text)) → map join_dots (xs ++ ys) ≡ map join_dots xs ++ map join_dots ys
map_join-append [] ys = refl
map_join-append (x ∷ xs) ys = ap (λ l. join_dots x ∷ l) (map_join-append xs ys)

own_name :
    (p : List Text) (value : Option Text) (cs : Option (List (Text × Text)))
    → names_of (field_error (join_dots p) value cs) ≡ map join_dots (own_path p cs)
unfolding field_error
own_name p value none = refl
own_name p value (some cs) = refl

extract_fields-paths_from :
    (es : ValidationErrors) (p : List Text)
    → Named es
    → Rooted p
    → names_of (extract_fields es (join_dots p)) ≡ map join_dots (paths p es)
unfolding extract_fields paths Named
extract_fields-paths_from end p named rooted = refl
extract_fields-paths_from (error [] value cs children rest) p named rooted = absurd (cc (named))
extract_fields-paths_from (error (c ∷ s) value cs children rest) p named rooted =
    let q = p ++ (c ∷ s) ∷ [] in
    rw (dotted-join_dots p (c ∷ s) rooted) (
      names_of-append (field_error (join_dots q) value cs) _
      ∙ rw (own_name q value cs) (
          rw
            (names_of-append (extract_fields children (join_dots q))
              (extract_fields rest (join_dots p)))
            (rw (extract_fields-paths_from children q named.0 (append-Rooted p c s rooted)) (
              rw (extract_fields-paths_from rest p named.1 rooted) (
                sym (
                  map_join-append (own_path q cs) (paths q children ++ paths p rest)
                  ∙ ap (λ l. map join_dots (own_path q cs) ++ l)
                      (map_join-append (paths q children) (paths p rest))))))))

-- Where every property has a name, the fields that are reported are those that violate constraints, a
-- property before its children, each under the names on its path joined by dots.
pub extract_fields-paths :
    (es : ValidationErrors)
    → Named es
    → names_of (extract_fields es []) ≡ map join_dots (paths [] es)
extract_fields-paths es named = extract_fields-paths_from es [] named tt

-- What the client sees has the status alone.
abbrev pub Lossy : Bool → Thrown → Type 0
Lossy production x =
    ((catch production x).status_code ≡ 400)
    × ((catch production x).error.code ≡ http_code 400)
    × ((catch production x).error.details ≡ none)
    × ((catch production x).error.fields ≡ none)

invalid_body-Lossy :
    (production : Bool) (fields : List FieldError) → Lossy production (invalid_body fields)
unfolding invalid_body
invalid_body-Lossy production fields =
    http_object-catch production 400 _ "The request contains invalid data." [] tt

module _ {V : Type 0} (plain_to_instance : V → V) (validate : V → ValidationErrors) where
  checked-Lossy :
      (production : Bool) (v : V) (es : ValidationErrors) (x : Thrown)
      → checked plain_to_instance validate v es ≡ err x
      → Lossy production x
  unfolding checked
  checked-Lossy production v end x h = absurd (cc (h))
  checked-Lossy production v (error p value cs children rest) x h =
      let same : invalid_body (extract_fields (error p value cs children rest) []) ≡ x = cc (h) in
      subst (Lossy production) same
        (invalid_body-Lossy production (extract_fields (error p value cs children rest) []))

  -- A value that the pipe refuses reaches the client as a plain 400: the filter keeps neither the code
  -- of the pipe, nor its details, nor any of the fields that it collected.
  pub transform-Lossy :
      (production : Bool) (value : V) (t : Metatype) (x : Thrown)
      → transform plain_to_instance validate value t ≡ err x
      → Lossy production x
  unfolding transform
  transform-Lossy production value primitive x e = absurd (cc (e))
  transform-Lossy production value dto x e =
      checked-Lossy production (plain_to_instance value) (validate (plain_to_instance value)) x e
