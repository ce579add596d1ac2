-- ===== src/Upload/Cloud/MediaNames.antt =====
-- src/modules/upload/infrastructure/providers/imagekit-storage.provider.ts: the paths and names of a
-- media library.
use project_saas_backend.Common.{
  ℕ, Text, codes, text_eq, to_lower, Option, none, some, List, [], ◌∷◌, ◌==◌, if◌then◌else◌, get_or,
}
use project_saas_backend.Upload.LocalStorage.{to_slashes}
use project_saas_backend.Upload.Processor.Formats.{find}
use project_saas_backend.Upload.Cloud.Keys.{starts_with_slash, is_http}

-- The text before the last occurrence of a character and the text after it.
abbrev pub extend : ℕ → ℕ → Text → Option (Text × Text) → Option (Text × Text)
extend c d s (some (before, after)) = some (d ∷ before, after)
extend c d s none = if d == c then some ([], s) else none

abbrev pub split_last : ℕ → Text → Option (Text × Text)
split_last c [] = none
split_last c (d ∷ s) = extend c d s (split_last c s)

-- `substring(0, lastIndexOf('/'))`
abbrev pub folder_of : Text → Text
folder_of path = elim (split_last 47 path) [ some p ↦ p.0 | none ↦ [] ]

-- `substring(lastIndexOf('/') + 1)`
abbrev pub name_of : Text → Text
name_of path = elim (split_last 47 path) [ some p ↦ p.1 | none ↦ path ]

abbrev pub or_root : Text → Text
or_root [] = 47 ∷ []
or_root (c ∷ s) = c ∷ s

abbrev pub with_first_slash : Text → Text
with_first_slash s = if starts_with_slash s then s else 47 ∷ s

unfoldable pub parent_folder : Text → Text
unfolding to_slashes
parent_folder full_path = or_root (folder_of (with_first_slash (to_slashes full_path)))

abbrev pub path_or : Text → Option Text → Text
path_or input none = input
path_or input (some path) = path

unfoldable pub url_to_path : (Text → Option Text) → Text → Text
unfolding to_lower codes
url_to_path pathname input =
    if is_http input then path_or input (pathname input) else with_first_slash input

-- The last part between dots.
abbrev pub extension_of : Text → Text
unfolding to_lower
extension_of file_name =
    to_lower (elim (split_last 46 file_name) [ some p ↦ p.1 | none ↦ file_name ])

abbrev pub mime_types : List (Text × Text)
unfolding codes
mime_types =
    (codes "jpg", codes "image/jpeg")
    ∷ (codes "jpeg", codes "image/jpeg")
    ∷ (codes "png", codes "image/png")
    ∷ (codes "webp", codes "image/webp")
    ∷ (codes "gif", codes "image/gif")
    ∷ (codes "pdf", codes "application/pdf")
    ∷ (codes "mp4", codes "video/mp4")
    ∷ []

unfoldable pub mime_from_file_type : Text → Text → Text
unfolding codes text_eq to_lower
mime_from_file_type type file_name =
    get_or (find (extension_of file_name) mime_types) (
      if text_eq type (codes "image") then codes "image/jpeg" else codes "application/octet-stream")
