-- ===== src/Upload/ProcessorTests.antt =====
-- The witness of the theorem on processed files.
use project_saas_backend.Common.{
  ◌++◌, All, length, ℕ, Text, codes, lower, to_lower, text_eq, none, some, List, [], ◌∷◌, false,
  ◌≡◌, refl,
}
use project_saas_backend.Common.Result.{Result, ok}
use project_saas_backend.Upload.Processor.Formats.{get_mime_type}
use project_saas_backend.Upload.Processor.{
  ProcessingOptions, Operation, ImageMetadata, Processed, target_format, process, no_image,
}
use project_saas_backend.Upload.Processor.Laws.{Labels, encoded_type, process-Encoded}

abbrev shrink : List ℕ → List Operation → Result Text (List ℕ)
shrink buffer operations = ok (1 ∷ [])

abbrev unknown : List ℕ → Result Text ImageMetadata
unknown buffer = ok no_image

-- An animated image that is to stay one.
abbrev to_gif : ProcessingOptions
to_gif = record {
  convert_to_format = some (codes "GIF");
  max_width = none;
  max_height = none;
  quality = none;
  thumbnail = false;
  auto_rotate = none;
  strip_metadata = none;
}

abbrev labelled_gif : Processed
labelled_gif = record {
  buffer = 1 ∷ [];
  format = codes "gif";
  mime_type = codes "image/gif";
  size = 1;
  metadata = no_image;
}

process-Encoded_example :
    (before : List Operation) × (last : Operation) × (shrink
        (1 ∷ 2 ∷ 3 ∷ [])
        (before ++ (last ∷ []))
      ≡ ok labelled_gif.buffer)
    × All (λ o. encoded_type o ≡ []) before
    × Labels shrink unknown (target_format to_gif) labelled_gif.mime_type last
    × (labelled_gif.format ≡ target_format to_gif)
    × (labelled_gif.mime_type ≡ get_mime_type labelled_gif.format)
    × (labelled_gif.size ≡ length labelled_gif.buffer)
unfolding process target_format to_lower lower codes get_mime_type text_eq
process-Encoded_example =
    process-Encoded shrink unknown (1 ∷ 2 ∷ 3 ∷ []) to_gif none labelled_gif refl refl
