-- ===== src/Upload/Processor/Formats.antt =====
-- The tables of src/modules/upload/domain/services/file-processor.service.ts: the MIME type of a
-- format, and the extension of a MIME type.
use project_saas_backend.Common.{
  Text, codes, text_eq, to_lower, Option, none, some, List, [], ◌∷◌, if◌then◌else◌, get_or,
}

abbrev pub mime_map : List (Text × Text)
unfolding codes
mime_map =
    (codes "webp", codes "image/webp")
    ∷ (codes "jpeg", codes "image/jpeg")
    ∷ (codes "jpg", codes "image/jpeg")
    ∷ (codes "png", codes "image/png")
    ∷ (codes "gif", codes "image/gif")
    ∷ (codes "avif", codes "image/avif")
    ∷ (codes "tiff", codes "image/tiff")
    ∷ []

abbrev pub extension_map : List (Text × Text)
unfolding codes
extension_map =
    (codes "image/jpeg", codes "jpg")
    ∷ (codes "image/png", codes "png")
    ∷ (codes "image/webp", codes "webp")
    ∷ (codes "image/gif", codes "gif")
    ∷ (codes "image/svg+xml", codes "svg")
    ∷ (codes "image/avif", codes "avif")
    ∷ (codes "image/heic", codes "heic")
    ∷ (codes "image/heif", codes "heif")
    ∷ (codes "image/bmp", codes "bmp")
    ∷ (codes "image/tiff", codes "tiff")
    ∷ (codes "application/pdf", codes "pdf")
    ∷ (codes "application/msword", codes "doc")
    ∷ (
      codes "application/vnd.openxmlformats-officedocument.wordprocessingml.document",
      codes "docx",
    )
    ∷ (codes "application/rtf", codes "rtf")
    ∷ (codes "application/vnd.oasis.opendocument.text", codes "odt")
    ∷ (codes "text/plain", codes "txt")
    ∷ (codes "text/markdown", codes "md")
    ∷ (codes "text/html", codes "html")
    ∷ (codes "application/vnd.ms-excel", codes "xls")
    ∷ (codes "application/vnd.openxmlformats-officedocument.spreadsheetml.sheet", codes "xlsx")
    ∷ (codes "application/vnd.oasis.opendocument.spreadsheet", codes "ods")
    ∷ (codes "text/csv", codes "csv")
    ∷ (codes "text/tab-separated-values", codes "tsv")
    ∷ (codes "application/vnd.ms-powerpoint", codes "ppt")
    ∷ (
      codes "application/vnd.openxmlformats-officedocument.presentationml.presentation",
      codes "pptx",
    )
    ∷ (codes "application/vnd.oasis.opendocument.presentation", codes "odp")
    ∷ (codes "application/vnd.apple.keynote", codes "key")
    ∷ (codes "application/zip", codes "zip")
    ∷ (codes "application/x-zip-compressed", codes "zip")
    ∷ (codes "application/x-rar-compressed", codes "rar")
    ∷ (codes "application/vnd.rar", codes "rar")
    ∷ (codes "application/x-7z-compressed", codes "7z")
    ∷ (codes "application/x-tar", codes "tar")
    ∷ (codes "application/gzip", codes "gz")
    ∷ (codes "application/x-gzip", codes "gz")
    ∷ (codes "application/x-bzip2", codes "bz2")
    ∷ (codes "video/mp4", codes "mp4")
    ∷ (codes "video/mpeg", codes "mpeg")
    ∷ (codes "video/quicktime", codes "mov")
    ∷ (codes "video/webm", codes "webm")
    ∷ (codes "video/x-msvideo", codes "avi")
    ∷ (codes "video/x-matroska", codes "mkv")
    ∷ (codes "video/3gpp", codes "3gp")
    ∷ (codes "video/3gpp2", codes "3g2")
    ∷ (codes "video/x-flv", codes "flv")
    ∷ (codes "video/x-ms-wmv", codes "wmv")
    ∷ (codes "video/ogg", codes "ogv")
    ∷ (codes "audio/mpeg", codes "mp3")
    ∷ (codes "audio/mp4", codes "m4a")
    ∷ (codes "audio/wav", codes "wav")
    ∷ (codes "audio/x-wav", codes "wav")
    ∷ (codes "audio/ogg", codes "ogg")
    ∷ (codes "audio/webm", codes "weba")
    ∷ (codes "audio/aac", codes "aac")
    ∷ (codes "audio/flac", codes "flac")
    ∷ (codes "audio/x-flac", codes "flac")
    ∷ (codes "audio/x-m4a", codes "m4a")
    ∷ (codes "audio/x-ms-wma", codes "wma")
    ∷ (codes "audio/midi", codes "midi")
    ∷ (codes "audio/opus", codes "opus")
    ∷ []

abbrev pub find : Text → List (Text × Text) → Option Text
unfolding text_eq
find key [] = none
find key ((k, v) ∷ table) = let rest = find key table in if text_eq k key then some v else rest

unfoldable pub get_mime_type : Text → Text
unfolding to_lower codes text_eq
get_mime_type format = get_or (find (to_lower format) mime_map) (codes "application/octet-stream")

unfoldable pub extension_from_mime : Option Text → Text
unfolding codes text_eq
extension_from_mime none = codes "bin"
extension_from_mime (some []) = codes "bin"
extension_from_mime (some (c ∷ s)) = get_or (find (c ∷ s) extension_map) (codes "bin")
