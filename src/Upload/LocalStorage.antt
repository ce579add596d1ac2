-- ===== src/Upload/LocalStorage.antt =====
-- src/modules/upload/infrastructure/providers/local-storage.provider.ts: resolveManagedPath,
-- assertWritableKey and publicUrl. An absolute path is the list of its segments, the last one first.
-- Node's `path.resolve` is that of POSIX.
pub mod Cleanup
pub mod DirectWrite
pub mod Objects
pub mod Promotion
pub mod Pruning
pub mod Urls
use project_saas_backend.Common.{
  ℕ, Text, codes, to_lower, starts_with, text_eq, Option, none, some, List, [], ◌∷◌, ◌++◌, map,
  ◌||◌, not, ◌==◌, if◌then◌else◌, drop, length,
}
use project_saas_backend.Common.Result.{Result, ok, err, Exec}
use project_saas_backend.Errors.{Thrown, thrown_api, from_definition}
use project_saas_backend.Errors.Registry
use project_saas_backend.Upload.Config.{strip_leading, strip_trailing}

abbrev pub FilePath : Type 0
FilePath = List Text

-- The segments of a relative path, `split('/')`.
abbrev push_char : ℕ → List Text → List Text
push_char c [] = (c ∷ []) ∷ []
push_char c (s ∷ ss) = (c ∷ s) ∷ ss

unfoldable pub split_segments : Text → List Text
split_segments [] = [] ∷ []
split_segments (c ∷ s) =
    let rest = split_segments s in if c == 47 then [] ∷ rest else push_char c rest

abbrev pub parent : FilePath → FilePath
parent [] = []
parent (s ∷ p) = p

-- `.` and an empty segment stay, `..` goes up, any other segment goes down.
unfoldable pub enter : FilePath → Text → FilePath
unfolding text_eq codes
enter p s =
    if text_eq s [] || text_eq s (codes ".")
    then p
    else if text_eq s (codes "..")
    then parent p
    else s ∷ p

unfoldable pub walk : FilePath → List Text → FilePath
unfolding enter
walk p [] = p
walk p (s ∷ ss) = walk (enter p s) ss

-- `path.resolve(base, rel)`
unfoldable pub resolve : FilePath → Text → FilePath
unfolding walk split_segments starts_with
resolve base rel =
    if starts_with rel (47 ∷ [])
    then walk [] (split_segments rel)
    else walk base (split_segments rel)

-- The text of a path.
unfoldable pub joined : FilePath → Text
joined [] = []
joined (s ∷ p) = joined p ++ 47 ∷ s

unfoldable pub absolute : FilePath → Text
unfolding joined
absolute [] = 47 ∷ []
absolute (s ∷ p) = joined (s ∷ p)

-- `replace(/\\/g, '/')`
unfoldable pub to_slashes : Text → Text
to_slashes s = map (λ c. if c == 92 then 47 else c) s

unfoldable pub normalized : Text → Text
unfolding to_slashes strip_leading
normalized key = strip_leading (to_slashes key)

abbrev managed : FilePath → FilePath → Result Thrown FilePath
managed base p =
    if not (starts_with (absolute p) (absolute base))
    then err (thrown_api (from_definition Registry.file_not_found none none))
    else ok p

abbrev relative : Text → Text
relative s = if starts_with s (codes "uploads/") then drop 8 s else s

unfoldable pub resolve_managed_path : FilePath → Text → Result Thrown FilePath
unfolding normalized resolve absolute codes starts_with
resolve_managed_path base key = managed base (resolve base (relative (normalized key)))

unfoldable pub assert_writable_key : Text → Result Thrown (Unit {0})
unfolding normalized to_lower starts_with codes
assert_writable_key key =
    if not (starts_with (to_lower (normalized key)) (codes "uploads/temp/"))
    then err (
        thrown_api (
          from_definition Registry.forbidden
            (some (codes "Direct uploads may only target keys under uploads/temp/.")) none))
    else ok tt

-- `publicUrl`; an absent base is falsy, as is an empty one.
unfoldable pub public_url : Option Text → Text → Text
unfolding strip_trailing
public_url none url = url
public_url (some []) url = url
public_url (some (c ∷ s)) url = strip_trailing (c ∷ s) ++ url

pub record StoredFile : Type 0 where
  pub url : Text
  pub filename : Text
  pub size : ℕ
  pub key : Text
  pub mime_type : Option Text

-- The files on disk, the last written first.
abbrev pub Files : Type 0
Files = List (FilePath × List ℕ)

abbrev pub basename : FilePath → Text
basename [] = []
basename (s ∷ p) = s
