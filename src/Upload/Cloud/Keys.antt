-- ===== src/Upload/Cloud/Keys.antt =====
-- src/modules/upload/infrastructure/providers/base-storage.provider.ts: paths, keys and names; and what
-- the cloud providers share.
use project_saas_backend.Common.{
  true, text_eq, ℕ, ◌+◌, codes, to_lower, starts_with, Option, none, some, ◌||◌, not, any, ltb, ◌-◌,
  ◌*◌, ◌/◌, Text, List, [], ◌∷◌, ◌++◌, Bool, false, ◌&&◌, ◌==◌, if◌then◌else◌,
}
use project_saas_backend.Upload.LocalStorage.{split_segments, to_slashes}
use project_saas_backend.Upload.LocalStorage.Objects.{safe_segment}

abbrev pub starts_with_slash : Text → Bool
starts_with_slash [] = false
starts_with_slash (c ∷ s) = c == 47

-- `replace(/\/+/g, '/')`
unfoldable pub collapse : Text → Text
collapse [] = []
collapse (c ∷ s) =
    let rest = collapse s in if c == 47 && starts_with_slash rest then rest else c ∷ rest

abbrev pub drop_first_slash : Text → Text
drop_first_slash [] = []
drop_first_slash (c ∷ s) = if c == 47 then s else c ∷ s

abbrev pub drop_last_slash : Text → Text
drop_last_slash [] = []
drop_last_slash (c ∷ []) = if c == 47 then [] else c ∷ []
drop_last_slash (c ∷ d ∷ s) = c ∷ drop_last_slash (d ∷ s)

unfoldable pub normalize_path : Text → Text
unfolding to_slashes collapse
normalize_path path = drop_last_slash (drop_first_slash (collapse (to_slashes path)))

unfoldable pub build_file_key : Text → Text → Text → Text
unfolding normalize_path
build_file_key prefix subdirectory filename =
    normalize_path (prefix ++ 47 ∷ (subdirectory ++ 47 ∷ filename))

-- `split('?')[0]`
abbrev pub before_query : Text → Text
before_query [] = []
before_query (c ∷ s) = if c == 63 then [] else c ∷ before_query s

abbrev pub last_of : Text → List Text → Text
last_of s [] = s
last_of s (t ∷ ts) = last_of t ts

unfoldable pub extract_filename : Text → Text
unfolding split_segments
extract_filename file_url = last_of [] (split_segments (before_query file_url))

-- Whole hours; the code's number is not rounded.
unfoldable pub get_age_in_hours : ℕ → ℕ → ℕ
get_age_in_hours now mtime = (now - mtime) / (60 * 60 * 1000)

pub record SaveFileInput : Type 0 where
  pub buffer : List ℕ
  pub filename : Text
  pub mime_type : Text
  pub size : ℕ
  pub is_encrypted : Bool
  pub upload_type : Option Text
  pub metadata : List (Text × Text)

abbrev pub is_http : Text → Bool
unfolding starts_with to_lower codes
is_http s = starts_with (to_lower s) (codes "http:") || starts_with (to_lower s) (codes "https:")

abbrev pub has_slash : Text → Bool
has_slash s = any (λ c. c == 47) s

-- `expectedSize && Math.abs(size - expectedSize) > tolerance`
abbrev pub far_from : ℕ → Option ℕ → ℕ → Bool
far_from tolerance none size = false
far_from tolerance (some n) size =
    not (n == 0) && (ltb (n + tolerance) size || ltb (size + tolerance) n)

abbrev pub or_zero : Option ℕ → ℕ
or_zero none = 0
or_zero (some n) = n

-- An entry of an object literal: a later one replaces the value of an earlier one.
abbrev pub assign : Text → Text → List (Text × Text) → List (Text × Text)
unfolding text_eq
assign key value [] = (key, value) ∷ []
assign key value ((k, v) ∷ entries) =
    let rest = assign key value entries in
    if text_eq k key then (k, value) ∷ entries else (k, v) ∷ rest

-- `{ ...entries, ...more }`
abbrev pub spread : List (Text × Text) → List (Text × Text) → List (Text × Text)
unfolding text_eq
spread entries [] = entries
spread entries ((k, v) ∷ more) = spread (assign k v entries) more

abbrev pub bool_text : Bool → Text
unfolding codes
bool_text true = codes "true"
bool_text false = codes "false"

abbrev pub segment_or_empty : Option Text → Text
unfolding safe_segment
segment_or_empty none = []
segment_or_empty (some t) = safe_segment t
