-- ===== src/Upload/Validator.antt =====
-- src/modules/upload/domain/services/file-validator.service.ts. A multer file is on disk or in
-- memory; `content` is its buffer, or what reading its path gives, absent where that fails.
use project_saas_backend.Common.{
  ℕ, suc, ◌+◌, ◌*◌, ◌/◌, ◌%◌, Text, codes, text_eq, Option, none, some, List, [], ◌∷◌, ◌++◌, Bool,
  true, false, ◌&&◌, ◌||◌, leb, ltb, ◌==◌, if◌then◌else◌, length, take, get_elem?, any,
}
use project_saas_backend.Common.Decimal.{decimal}
use project_saas_backend.Common.Result.{Result, ok, err}
use project_saas_backend.Errors.{Thrown, thrown_api, from_definition}
use project_saas_backend.Errors.Registry
use project_saas_backend.Upload.Registry.{FileTypeRegistry, get_max_file_size, is_allowed_mime_type}

pub record MulterFile : Type 0 where
  pub mimetype : Text
  pub size : ℕ
  pub content : Option (List ℕ)

pub record ValidationError : Type 0 where
  pub code : Text
  pub message : Text
  pub field : Option Text

-- `m[i] === v`
abbrev pub is_byte : ℕ → Option ℕ → Bool
is_byte v none = false
is_byte v (some b) = b == v

-- Whether the bytes from `i` on are these.
unfoldable pub bytes_at : List ℕ → ℕ → List ℕ → Bool
bytes_at m i [] = true
bytes_at m i (v ∷ vs) = is_byte v (get_elem? m i) && bytes_at m (suc i) vs

-- `(m[1] & 0xe0) === 0xe0`: the three high bits of the byte are set.
abbrev high_three : Option ℕ → Bool
high_three none = false
high_three (some b) = leb 224 (b % 256)

abbrev zip_third : List ℕ → Bool
zip_third m = is_byte 3 (get_elem? m 2) || is_byte 5 (get_elem? m 2) || is_byte 7 (get_elem? m 2)

-- The formats that the switch tells apart, each with its check of the first 16 bytes.
pub data Format : Type 0 where
  jpeg : Format
  png : Format
  gif : Format
  webp : Format
  ftyp : Format
  pdf : Format
  zip : Format
  rar : Format
  seven_zip : Format
  gzip : Format
  bzip2 : Format
  ebml : Format
  mp3 : Format
  wav : Format
  ogg : Format
  flac : Format
  unrecognised : Format

unfoldable pub has_signature : Format → List ℕ → Bool
unfolding bytes_at
has_signature jpeg m = bytes_at m 0 (255 ∷ 216 ∷ 255 ∷ [])
has_signature png m = bytes_at m 0 (137 ∷ 80 ∷ 78 ∷ 71 ∷ [])
has_signature gif m = bytes_at m 0 (71 ∷ 73 ∷ 70 ∷ [])
has_signature webp m =
    bytes_at m 0 (82 ∷ 73 ∷ 70 ∷ 70 ∷ []) && bytes_at m 8 (87 ∷ 69 ∷ 66 ∷ 80 ∷ [])
has_signature ftyp m = bytes_at m 4 (102 ∷ 116 ∷ 121 ∷ 112 ∷ [])
has_signature pdf m = bytes_at m 0 (37 ∷ 80 ∷ 68 ∷ 70 ∷ [])
has_signature zip m = bytes_at m 0 (80 ∷ 75 ∷ []) && zip_third m
has_signature rar m = bytes_at m 0 (82 ∷ 97 ∷ 114 ∷ 33 ∷ 26 ∷ 7 ∷ [])
has_signature seven_zip m = bytes_at m 0 (55 ∷ 122 ∷ 188 ∷ 175 ∷ 39 ∷ 28 ∷ [])
has_signature gzip m = bytes_at m 0 (31 ∷ 139 ∷ [])
has_signature bzip2 m = bytes_at m 0 (66 ∷ 90 ∷ 104 ∷ [])
has_signature ebml m = bytes_at m 0 (26 ∷ 69 ∷ 223 ∷ 163 ∷ [])
has_signature mp3 m =
    bytes_at m 0 (73 ∷ 68 ∷ 51 ∷ []) || is_byte 255 (get_elem? m 0) && high_three (get_elem? m 1)
has_signature wav m = bytes_at m 0 (82 ∷ 73 ∷ 70 ∷ 70 ∷ []) && bytes_at m 8 (87 ∷ 65 ∷ 86 ∷ 69 ∷ [])
has_signature ogg m = bytes_at m 0 (79 ∷ 103 ∷ 103 ∷ 83 ∷ [])
has_signature flac m = bytes_at m 0 (102 ∷ 76 ∷ 97 ∷ 67 ∷ [])
has_signature unrecognised m = true

-- The case labels of the switch, in its order.
abbrev cases : List (Format × List Text)
cases =
    (jpeg, codes "image/jpeg" ∷ [])
    ∷ (png, codes "image/png" ∷ [])
    ∷ (gif, codes "image/gif" ∷ [])
    ∷ (webp, codes "image/webp" ∷ [])
    ∷ (ftyp, codes "image/avif" ∷ codes "image/heic" ∷ codes "image/heif" ∷ [])
    ∷ (pdf, codes "application/pdf" ∷ [])
    ∷ (
      zip,
      codes "application/zip"
          ∷ codes "application/x-zip-compressed"
          ∷ codes "application/vnd.openxmlformats-officedocument.wordprocessingml.document"
          ∷ codes "application/vnd.openxmlformats-officedocument.spreadsheetml.sheet"
          ∷ codes "application/vnd.openxmlformats-officedocument.presentationml.presentation"
          ∷ codes "application/vnd.oasis.opendocument.text"
          ∷ codes "application/vnd.oasis.opendocument.spreadsheet"
          ∷ codes "application/vnd.oasis.opendocument.presentation"
          ∷ [],
    )
    ∷ (rar, codes "application/x-rar-compressed" ∷ codes "application/vnd.rar" ∷ [])
    ∷ (seven_zip, codes "application/x-7z-compressed" ∷ [])
    ∷ (gzip, codes "application/gzip" ∷ codes "application/x-gzip" ∷ [])
    ∷ (bzip2, codes "application/x-bzip2" ∷ [])
    ∷ (
      ftyp,
      codes "video/mp4" ∷ codes "video/quicktime" ∷ codes "video/3gpp" ∷ codes "video/3gpp2" ∷ [],
    )
    ∷ (ebml, codes "video/webm" ∷ codes "audio/webm" ∷ [])
    ∷ (mp3, codes "audio/mpeg" ∷ [])
    ∷ (wav, codes "audio/wav" ∷ codes "audio/x-wav" ∷ [])
    ∷ (ogg, codes "audio/ogg" ∷ codes "video/ogg" ∷ [])
    ∷ (flac, codes "audio/flac" ∷ codes "audio/x-flac" ∷ [])
    ∷ []

unfoldable pub select : List (Format × List Text) → Text → Format
unfolding text_eq
select [] mime = unrecognised
select ((f, labels) ∷ cs) mime =
    let rest = select cs mime in if any (λ l. text_eq l mime) labels then f else rest

unfoldable pub format_of : Text → Format
unfolding select codes
format_of mime = select cases mime

unfoldable pub validate_content : List ℕ → Text → Bool
unfolding has_signature format_of
validate_content buffer mime =
    if ltb (length buffer) 4 then false else has_signature (format_of mime) (take 16 buffer)

module _ (reg : FileTypeRegistry) (max_file_size : ℕ) where
  unfoldable pub validate_size : ℕ → Option Text → Bool
  unfolding get_max_file_size
  validate_size size t = leb size (get_max_file_size reg max_file_size t)

  -- An unknown type is caught: nothing is allowed for it.
  abbrev pub ok_or_false : Result Thrown Bool → Bool
  ok_or_false (ok b) = b
  ok_or_false (err e) = false

  unfoldable pub validate_mime_type : Text → Text → Bool
  unfolding is_allowed_mime_type
  validate_mime_type mime t = ok_or_false (is_allowed_mime_type reg t mime)

  abbrev pub error : Text → Text → ValidationError
  error code message = record { code = code; message = message; field = some (codes "file") }

  -- `Math.round(maxBytes / (1024 * 1024))`
  abbrev pub whole_mb : ℕ → ℕ
  whole_mb bytes = (2 * bytes + 1048576) / 2097152

  abbrev pub when_not : Bool → ValidationError → List ValidationError
  when_not true e = []
  when_not false e = e ∷ []

  abbrev pub content_ok : Option (List ℕ) → Text → Bool
  content_ok none mime = true
  content_ok (some buffer) mime = validate_content buffer mime

  unfoldable pub validate : MulterFile → Text → List ValidationError
  unfolding validate_mime_type validate_size validate_content codes decimal get_max_file_size
  validate file t =
      when_not (validate_mime_type file.mimetype t) (
        error (codes "INVALID_MIME_TYPE")
          (codes "MIME type \"" ++ file.mimetype ++ codes "\" is not allowed for " ++ t))
      ++ when_not (validate_size file.size (some t)) (
          error (codes "FILE_TOO_LARGE") (
            codes "File size exceeds maximum allowed ("
            ++ decimal (whole_mb (get_max_file_size reg max_file_size (some t)))
            ++ codes " MB for \""
            ++ t
            ++ codes "\")"))
      ++ when_not (content_ok file.content file.mimetype) (
          error (codes "INVALID_FILE_CONTENT")
            (codes "File content does not match declared MIME type"))

  abbrev throw_any : List ValidationError → Result Thrown (Unit {0})
  throw_any [] = ok tt
  throw_any (e ∷ es) = err (thrown_api (from_definition Registry.invalid_file_type none none))

  unfoldable pub validate_or_throw : MulterFile → Text → Result Thrown (Unit {0})
  unfolding validate
  validate_or_throw file t = throw_any (validate file t)
