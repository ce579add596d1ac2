-- ===== src/Upload/Formats.antt =====
-- The MIME types of the upload categories (infrastructure/config/upload-config.service.ts).
use project_saas_backend.Common.{Text, codes, List, [], ◌∷◌, ◌++◌}

abbrev pub image_mime_types : List Text
image_mime_types =
    codes "image/jpeg"
    ∷ codes "image/png"
    ∷ codes "image/webp"
    ∷ codes "image/gif"
    ∷ codes "image/avif"
    ∷ codes "image/heic"
    ∷ codes "image/heif"
    ∷ codes "image/bmp"
    ∷ codes "image/tiff"
    ∷ codes "image/svg+xml"
    ∷ []

abbrev pub video_mime_types : List Text
video_mime_types =
    codes "video/mp4"
    ∷ codes "video/mpeg"
    ∷ codes "video/quicktime"
    ∷ codes "video/webm"
    ∷ codes "video/x-msvideo"
    ∷ codes "video/x-matroska"
    ∷ codes "video/3gpp"
    ∷ codes "video/3gpp2"
    ∷ codes "video/x-flv"
    ∷ codes "video/x-ms-wmv"
    ∷ codes "video/ogg"
    ∷ []

abbrev pub audio_mime_types : List Text
audio_mime_types =
    codes "audio/mpeg"
    ∷ codes "audio/mp4"
    ∷ codes "audio/wav"
    ∷ codes "audio/x-wav"
    ∷ codes "audio/ogg"
    ∷ codes "audio/webm"
    ∷ codes "audio/aac"
    ∷ codes "audio/flac"
    ∷ codes "audio/x-flac"
    ∷ codes "audio/x-m4a"
    ∷ codes "audio/x-ms-wma"
    ∷ codes "audio/midi"
    ∷ codes "audio/opus"
    ∷ []

abbrev pub document_mime_types : List Text
document_mime_types =
    codes "application/pdf"
    ∷ codes "application/msword"
    ∷ codes "application/vnd.openxmlformats-officedocument.wordprocessingml.document"
    ∷ codes "application/rtf"
    ∷ codes "application/vnd.oasis.opendocument.text"
    ∷ codes "text/plain"
    ∷ codes "text/markdown"
    ∷ codes "text/html"
    ∷ []

abbrev pub spreadsheet_mime_types : List Text
spreadsheet_mime_types =
    codes "application/vnd.ms-excel"
    ∷ codes "application/vnd.openxmlformats-officedocument.spreadsheetml.sheet"
    ∷ codes "application/vnd.oasis.opendocument.spreadsheet"
    ∷ codes "text/csv"
    ∷ codes "text/tab-separated-values"
    ∷ []

abbrev pub presentation_mime_types : List Text
presentation_mime_types =
    codes "application/vnd.ms-powerpoint"
    ∷ codes "application/vnd.openxmlformats-officedocument.presentationml.presentation"
    ∷ codes "application/vnd.oasis.opendocument.presentation"
    ∷ codes "application/vnd.apple.keynote"
    ∷ []

abbrev pub archive_mime_types : List Text
archive_mime_types =
    codes "application/zip"
    ∷ codes "application/x-zip-compressed"
    ∷ codes "application/x-rar-compressed"
    ∷ codes "application/vnd.rar"
    ∷ codes "application/x-7z-compressed"
    ∷ codes "application/x-tar"
    ∷ codes "application/gzip"
    ∷ codes "application/x-gzip"
    ∷ codes "application/x-bzip2"
    ∷ []

abbrev pub all_formats : List Text
all_formats =
    image_mime_types ++ video_mime_types ++ audio_mime_types ++ document_mime_types
    ++ spreadsheet_mime_types ++ presentation_mime_types ++ archive_mime_types
