-- ===== src/Upload/PresignedUrl/Keys.antt =====
-- The keys that buildUploadKey of src/modules/upload/application/use-cases/presigned-url.service.ts
-- makes, and the path that the local storage resolves them to.
use mathlib.Core.Path.{subst}
use project_saas_backend.Common.{
  append_assoc, Text, codes, lower, to_lower, text_eq, some, [], ◌∷◌, ◌++◌, true, false, ◌≡◌, ◌==◌,
  refl, sym, ap, ◌∙◌, arith, Bool-cases, inl, inr, All, All-append,
}
use project_saas_backend.Upload.Config.{strip_leading}
use project_saas_backend.Upload.LocalStorage.{
  FilePath, split_segments, enter, walk, normalized, to_slashes,
}
use project_saas_backend.Upload.PresignedUrl.{
  alphanumeric, is_extension, match_extension, extract_extension, build_upload_key,
}

-- Neither slash.
abbrev pub NoSlash : Text → Type 0
NoSlash s = All (λ c. ((c == 47) ≡ false) × ((c == 92) ≡ false)) s

split-NoSlash : (a b : Text) → NoSlash a → split_segments (a ++ 47 ∷ b) ≡ (a ∷ split_segments b)
unfolding split_segments
split-NoSlash [] b h = refl
split-NoSlash (c ∷ a) b h = rw (h.0.0, split-NoSlash a b h.1) refl

split_one : (a : Text) → NoSlash a → split_segments a ≡ (a ∷ [])
unfolding split_segments
split_one [] h = refl
split_one (c ∷ a) h = rw (h.0.0, split_one a h.1) refl

to_slashes-NoSlash : (a b : Text) → NoSlash a → to_slashes (a ++ b) ≡ (a ++ to_slashes b)
unfolding to_slashes
to_slashes-NoSlash [] b h = refl
to_slashes-NoSlash (c ∷ a) b h = rw (h.0.1, to_slashes-NoSlash a b h.1) refl

to_slashes_own : (a : Text) → NoSlash a → to_slashes a ≡ a
unfolding to_slashes
to_slashes_own [] h = refl
to_slashes_own (c ∷ a) h = rw (h.0.1, to_slashes_own a h.1) refl

lowered-NoSlash : (s : Text) → alphanumeric s ≡ true → NoSlash (to_lower s)
unfolding to_lower lower
lowered-NoSlash [] h = tt
lowered-NoSlash (c ∷ s) h = ((ground arith, ground arith), lowered-NoSlash s (ground arith))

extension-NoSlash : (s : Text) → is_extension s ≡ true → NoSlash (to_lower s)
unfolding to_lower lower
extension-NoSlash [] h = absurd (cc (h))
extension-NoSlash (c ∷ []) h = absurd (cc (h))
extension-NoSlash (c ∷ d ∷ s) h =
    ((ground arith, ground arith), lowered-NoSlash (d ∷ s) (ground arith))

match-NoSlash : (s : Text) → NoSlash (to_lower (match_extension s))
unfolding to_lower
match-NoSlash [] = tt
match-NoSlash (c ∷ s) = elim (Bool-cases (is_extension (c ∷ s))) [
  | inl e ↦ subst NoSlash (sym (matched e)) (extension-NoSlash (c ∷ s) e)
  | inr e ↦ subst NoSlash (sym (skipped e)) (match-NoSlash s)
]
  where
    matched : is_extension (c ∷ s) ≡ true → to_lower (match_extension (c ∷ s)) ≡ to_lower (c ∷ s)
    matched e = rw e refl

    skipped :
        is_extension (c ∷ s) ≡ false
        → to_lower (match_extension (c ∷ s)) ≡ to_lower (match_extension s)
    skipped e = rw e refl

-- A name that a path enters: not empty, no slash, and no dot at its start.
abbrev pub Segment : Text → Type 0
Segment [] = false ≡ true
Segment (c ∷ s) = ((c == 46) ≡ false) × NoSlash (c ∷ s)

pub Segment-NoSlash : (s : Text) → Segment s → NoSlash s
Segment-NoSlash [] h = tt
Segment-NoSlash (c ∷ s) h = h.1

pub Segment-append : (s t : Text) → Segment s → NoSlash t → Segment (s ++ t)
Segment-append [] t h k = absurd (cc (h))
Segment-append (c ∷ s) t h k = (h.0, All-append _ (c ∷ s) t h.1 k)

pub enter-Segment : (p : FilePath) (s : Text) → Segment s → enter p s ≡ (s ∷ p)
unfolding enter text_eq codes
enter-Segment p [] h = absurd (cc (h))
enter-Segment p (c ∷ s) h = rw h.0 refl

pub file_name : Text → Text → Text
unfolding extract_extension
file_name uuid original_filename = uuid ++ extract_extension original_filename

pub file_name-Segment : (uuid f : Text) → Segment uuid → Segment (file_name uuid f)
unfolding file_name extract_extension
file_name-Segment uuid f h = Segment-append uuid _ h (match-NoSlash f)

-- What follows uploads/temp/ in the key.
pub rest_of : Text → Text → Text → Text → Text
unfolding file_name
rest_of t f u uuid = u ++ 47 ∷ (t ++ 47 ∷ file_name uuid f)

pub key_named :
    (t f u uuid : Text)
    → Segment u
    → build_upload_key t f (some u) uuid ≡ (codes "uploads/temp/" ++ rest_of t f u uuid)
unfolding build_upload_key rest_of file_name
key_named t f [] uuid h = absurd (cc (h))
key_named t f (c ∷ u) uuid h =
    rw (append_assoc u (47 ∷ []) (t ++ 47 ∷ (uuid ++ extract_extension f))) refl

pub rest_of-split :
    (t f u uuid : Text)
    → Segment t
    → Segment u
    → Segment uuid
    → split_segments (rest_of t f u uuid) ≡ (u ∷ t ∷ file_name uuid f ∷ [])
unfolding rest_of
rest_of-split t f u uuid ht hu hd =
    rw (split-NoSlash u (t ++ 47 ∷ file_name uuid f) (Segment-NoSlash u hu)) (
      rw (split-NoSlash t (file_name uuid f) (Segment-NoSlash t ht)) (
        rw
          (split_one (file_name uuid f)
            (Segment-NoSlash (file_name uuid f) (file_name-Segment uuid f hd)))
          refl))

rest_of-slashes :
    (t f u uuid : Text)
    → Segment t
    → Segment u
    → Segment uuid
    → to_slashes (rest_of t f u uuid) ≡ rest_of t f u uuid
unfolding rest_of to_slashes
rest_of-slashes t f u uuid ht hu hd =
    let file = file_name uuid f in
    to_slashes-NoSlash u (47 ∷ (t ++ 47 ∷ file)) (Segment-NoSlash u hu)
    ∙ ap (λ x. u ++ 47 ∷ x)
        (to_slashes-NoSlash t (47 ∷ file) (Segment-NoSlash t ht)
          ∙ ap (λ x. t ++ 47 ∷ x)
              (to_slashes_own file (Segment-NoSlash file (file_name-Segment uuid f hd))))

pub build_upload_key-normalized :
    (t f u uuid : Text)
    → Segment t
    → Segment u
    → Segment uuid
    → normalized (build_upload_key t f (some u) uuid)
      ≡ (codes "uploads/temp/" ++ rest_of t f u uuid)
unfolding normalized strip_leading codes
build_upload_key-normalized t f u uuid ht hu hd =
    rw (key_named t f u uuid hu) (rw (rest_of-slashes t f u uuid ht hu hd) refl)

-- The key of a new upload names, below the directory temp, the file in the directory of the type in
-- that of the user.
pub build_upload_key-walk :
    (t f u uuid : Text) (p : FilePath)
    → Segment t
    → Segment u
    → Segment uuid
    → walk p (split_segments (rest_of t f u uuid)) ≡ (file_name uuid f ∷ t ∷ u ∷ p)
unfolding walk
build_upload_key-walk t f u uuid p ht hu hd = rw (rest_of-split t f u uuid ht hu hd) (
    rw (enter-Segment p u hu) (
      rw (enter-Segment (u ∷ p) t ht)
        (rw (enter-Segment (t ∷ u ∷ p) (file_name uuid f) (file_name-Segment uuid f hd)) refl)))
