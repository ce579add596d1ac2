-- ===== src/Upload/Processor.antt =====
-- src/modules/upload/domain/services/file-processor.service.ts. The image library is a parameter: it
-- runs a pipeline, the list of the operations that were asked of it, over the bytes of a file, and
-- reads the metadata of an image. A failure is the message of its error.
pub mod Formats
pub mod Laws
use project_saas_backend.Common.{
  ℕ, Text, codes, text_eq, to_lower, Option, none, some, List, [], ◌∷◌, ◌++◌, Bool, true, false,
  ◌||◌, not, ◌==◌, if◌then◌else◌, length,
}
use project_saas_backend.Common.Result.{Result, ok, err}
use project_saas_backend.Errors.{Thrown, native}
use project_saas_backend.Upload.Processor.Formats.{get_mime_type, extension_from_mime}

pub record ProcessingOptions : Type 0 where
  pub convert_to_format : Option Text
  pub max_width : Option ℕ
  pub max_height : Option ℕ
  pub quality : Option ℕ
  pub thumbnail : Bool
  pub auto_rotate : Option Bool
  pub strip_metadata : Option Bool

pub record ProcessingContext : Type 0 where
  pub fallback_mime_type : Text
  pub fallback_extension : Text

pub data Operation : Type 0 where
  rotate : Operation
  with_metadata : Operation
  -- without enlargement, fitted by covering
  resize : Option ℕ → Option ℕ → Operation
  webp : ℕ → Operation
  jpeg : ℕ → Operation
  png : Operation
  avif : ℕ → Operation

pub record ImageMetadata : Type 0 where
  pub width : Option ℕ
  pub height : Option ℕ
  pub colorspace : Option Text
  pub has_alpha : Option Bool

pub record Processed : Type 0 where
  pub buffer : List ℕ
  pub format : Text
  pub mime_type : Text
  pub size : ℕ
  pub metadata : ImageMetadata

-- An absent number and zero are falsy; so are an absent text and the empty one.
abbrev pub truthy_number : Option ℕ → Bool
truthy_number none = false
truthy_number (some n) = not (n == 0)

abbrev pub truthy_text : Option Text → Bool
truthy_text none = false
truthy_text (some []) = false
truthy_text (some (c ∷ s)) = true

unfoldable pub should_transform : ProcessingOptions → Bool
should_transform options =
    truthy_text options.convert_to_format
    || truthy_number options.max_width
    || truthy_number options.max_height
    || truthy_number options.quality
    || options.thumbnail

-- `options.convertToFormat || 'webp'`, in lower case
abbrev pub format_or_webp : Option Text → Text
unfolding codes
format_or_webp none = codes "webp"
format_or_webp (some []) = codes "webp"
format_or_webp (some (c ∷ s)) = c ∷ s

unfoldable pub target_format : ProcessingOptions → Text
unfolding to_lower codes
target_format options = to_lower (format_or_webp options.convert_to_format)

abbrev pub number_or : ℕ → Option ℕ → ℕ
number_or d none = d
number_or d (some n) = if n == 0 then d else n

abbrev pub not_false : Option Bool → Bool
not_false none = true
not_false (some x) = x

-- The encoder of a format; that of WebP where the format is not recognised.
unfoldable pub encoder : Text → ℕ → Operation
unfolding text_eq codes
encoder format quality =
    if text_eq format (codes "webp")
    then webp quality
    else if text_eq format (codes "jpeg") || text_eq format (codes "jpg")
    then jpeg quality
    else if text_eq format (codes "png")
    then png
    else if text_eq format (codes "avif")
    then avif quality
    else webp quality

abbrev pub when : Bool → Operation → List Operation → List Operation
when b o os = if b then o ∷ os else os

unfoldable pub pipeline : ProcessingOptions → List Operation
unfolding encoder target_format
pipeline options = when (not_false options.auto_rotate) rotate (
    when (not (not_false options.strip_metadata)) with_metadata (
      when (truthy_number options.max_width || truthy_number options.max_height)
        (resize options.max_width options.max_height)
        (encoder (target_format options) (number_or 80 options.quality) ∷ [])))

abbrev pub text_or : Text → Text → Text
text_or [] d = d
text_or (c ∷ s) d = c ∷ s

abbrev pub no_image : ImageMetadata
no_image = record { width = none; height = none; colorspace = none; has_alpha = none }

abbrev pub untouched : List ℕ → Option ProcessingContext → Processed
unfolding codes extension_from_mime
untouched buffer none = record {
  buffer = buffer;
  format = extension_from_mime none;
  mime_type = codes "application/octet-stream";
  size = length buffer;
  metadata = no_image;
}
untouched buffer (some context) = record {
  buffer = buffer;
  format =
      text_or context.fallback_extension (extension_from_mime (some context.fallback_mime_type));
  mime_type = text_or context.fallback_mime_type (codes "application/octet-stream");
  size = length buffer;
  metadata = no_image;
}

abbrev pub failed_to : Text → Text → Thrown
failed_to what message = native (what ++ message) (codes "Error: " ++ what ++ message)

module _ (sharp : List ℕ → List Operation → Result Text (List ℕ))
    (metadata_of : List ℕ → Result Text ImageMetadata) where
  abbrev pub labelled : Text → List ℕ → Result Text ImageMetadata → Result Thrown Processed
  unfolding get_mime_type codes
  labelled format buffer (err message) = err (failed_to (codes "Failed to process file: ") message)
  labelled format buffer (ok metadata) = ok (record {
    buffer = buffer;
    format = format;
    mime_type = get_mime_type format;
    size = length buffer;
    metadata = metadata;
  })

  abbrev pub transformed : Text → Result Text (List ℕ) → Result Thrown Processed
  unfolding get_mime_type codes
  transformed format (err message) = err (failed_to (codes "Failed to process file: ") message)
  transformed format (ok buffer) = labelled format buffer (metadata_of buffer)

  unfoldable pub process :
      List ℕ → ProcessingOptions → Option ProcessingContext → Result Thrown Processed
  unfolding should_transform pipeline target_format get_mime_type extension_from_mime codes
  process buffer options context =
      if not (should_transform options)
      then ok (untouched buffer context)
      else transformed (target_format options) (sharp buffer (pipeline options))

  -- An error gives no metadata.
  unfoldable pub extract_metadata : List ℕ → Option ImageMetadata
  extract_metadata buffer = elim (metadata_of buffer) [ ok m ↦ some m | err message ↦ none ]

  abbrev pub thumbnail_or : Result Text (List ℕ) → Result Thrown (List ℕ)
  unfolding codes
  thumbnail_or (ok b) = ok b
  thumbnail_or (err message) = err (failed_to (codes "Failed to generate thumbnail: ") message)

  unfoldable pub generate_thumbnail : List ℕ → ℕ → ℕ → Result Thrown (List ℕ)
  unfolding codes
  generate_thumbnail buffer width height =
      thumbnail_or (sharp buffer (resize (some width) (some height) ∷ webp 70 ∷ []))
