-- ===== src/Upload/Processor/Laws.antt =====
-- What a processed file is, and how it is labelled.
use mathlib.Core.Path.{subst}
use project_saas_backend.Common.{
  ℕ, Text, codes, text_eq, text_eq_iff, Option, List, [], ◌∷◌, Bool, true, false, ◌≡◌, refl, ap,
  ◌∙◌, any, All, ◌++◌, ◌||◌, not, length, Bool-cases, inl, inr, arith,
}
use project_saas_backend.Common.Result.{Result, ok, err}
use project_saas_backend.Upload.Processor.Formats.{get_mime_type}
use project_saas_backend.Upload.Processor.{
  ProcessingOptions, ProcessingContext, Operation, webp, jpeg, png, avif, rotate, with_metadata,
  resize, when, not_false, truthy_number, number_or, ImageMetadata, Processed, should_transform,
  target_format, encoder, pipeline, process, transformed, labelled, untouched,
}

-- The formats that have an encoder of their own.
abbrev pub encoded_formats : List Text
unfolding codes
encoded_formats = codes "webp" ∷ codes "jpeg" ∷ codes "jpg" ∷ codes "png" ∷ codes "avif" ∷ []

abbrev pub has_encoder : Text → Bool
unfolding text_eq
has_encoder format = any (text_eq format) encoded_formats

-- The MIME type of what an operation makes, where it encodes.
abbrev pub encoded_type : Operation → Text
unfolding codes
encoded_type (webp q) = codes "image/webp"
encoded_type (jpeg q) = codes "image/jpeg"
encoded_type png = codes "image/png"
encoded_type (avif q) = codes "image/avif"
encoded_type _ = []

encoder-type :
    (f : Text) (q : ℕ) → has_encoder f ≡ true → get_mime_type f ≡ encoded_type (encoder f q)
unfolding has_encoder encoder get_mime_type encoded_type
encoder-type f q h = elim (Bool-cases (text_eq f (codes "webp"))) [
  | inl e ↦ rw ((text_eq_iff f (codes "webp")).0 e) refl
  | inr a ↦ elim (Bool-cases (text_eq f (codes "jpeg"))) [
    | inl e ↦ rw ((text_eq_iff f (codes "jpeg")).0 e) refl
    | inr b ↦ elim (Bool-cases (text_eq f (codes "jpg"))) [
      | inl e ↦ rw ((text_eq_iff f (codes "jpg")).0 e) refl
      | inr c ↦ elim (Bool-cases (text_eq f (codes "png"))) [
        | inl e ↦ rw ((text_eq_iff f (codes "png")).0 e) refl
        | inr d ↦ elim (Bool-cases (text_eq f (codes "avif"))) [
          | inl e ↦ rw ((text_eq_iff f (codes "avif")).0 e) refl
          | inr e ↦ absurd (ground (arith))
        ]
      ]
    ]
  ]
]

encoder_other : (f : Text) (q : ℕ) → has_encoder f ≡ false → encoder f q ≡ webp q
unfolding has_encoder encoder
encoder_other f q h = ground (arith)

when_plain :
    (b : Bool) (o : Operation) (before : List Operation)
    → encoded_type o ≡ []
    → All (λ p. encoded_type p ≡ []) before
    → All (λ p. encoded_type p ≡ []) (when b o before)
when_plain true o before plain all = (plain, all)
when_plain false o before plain all = all

when-append :
    (b : Bool) (o : Operation) (before os : List Operation)
    → when b o (before ++ os) ≡ when b o before ++ os
when-append true o before os = refl
when-append false o before os = refl

-- The pipeline is operations that do not encode, and then the encoder of the target.
pipeline_last :
    (options : ProcessingOptions)
    → (before : List Operation) × All (λ o. encoded_type o ≡ []) before
      × (pipeline options
          ≡ before ++ (encoder (target_format options) (number_or 80 options.quality) ∷ []))
unfolding pipeline encoded_type
pipeline_last options =
    let last = encoder (target_format options) (number_or 80 options.quality) ∷ [] in
    let sized = truthy_number options.max_width || truthy_number options.max_height in
    let size = resize options.max_width options.max_height in
    let meta = not (not_false options.strip_metadata) in
    let turn = not_false options.auto_rotate in
    (
      when turn rotate (when meta with_metadata (when sized size [])),
      when_plain turn rotate _ refl
          (when_plain meta with_metadata _ refl (when_plain sized size [] refl tt)),
      ap (λ os. when turn rotate (when meta with_metadata os)) (when-append sized size [] last)
          ∙ ap (λ os. when turn rotate os)
              (when-append meta with_metadata (when sized size []) last)
          ∙ when-append turn rotate (when meta with_metadata (when sized size [])) last,
    )

module _ (sharp : List ℕ → List Operation → Result Text (List ℕ))
    (metadata_of : List ℕ → Result Text ImageMetadata) where
  -- The pipeline ran over the file and gave the bytes of the answer.
  abbrev pub Encoded : List ℕ → ProcessingOptions → Processed → Type 0
  Encoded buffer options r =
      (sharp buffer (pipeline options) ≡ ok r.buffer)
      × (r.size ≡ length r.buffer)
      × (r.format ≡ target_format options)
      × (r.mime_type ≡ get_mime_type r.format)

  labelled-Encoded :
      (buffer : List ℕ) (options : ProcessingOptions) (b : List ℕ) (o : Result Text ImageMetadata)
      (r : Processed)
      → sharp buffer (pipeline options) ≡ ok b
      → labelled sharp metadata_of (target_format options) b o ≡ ok r
      → Encoded buffer options r
  unfolding labelled
  labelled-Encoded buffer options b (err m) r ran h = absurd (cc (h))
  labelled-Encoded buffer options b (ok m) r ran h =
      let made : Processed = record {
        buffer = b;
        format = target_format options;
        mime_type = get_mime_type (target_format options);
        size = length b;
        metadata = m;
      } in
      let same : made ≡ r = cc (h) in subst (Encoded buffer options) same (ran, refl, refl, refl)

  transformed-Encoded :
      (buffer : List ℕ) (options : ProcessingOptions) (o : Result Text (List ℕ)) (r : Processed)
      → sharp buffer (pipeline options) ≡ o
      → transformed sharp metadata_of (target_format options) o ≡ ok r
      → Encoded buffer options r
  unfolding labelled transformed
  transformed-Encoded buffer options (err m) r ran h = absurd (cc (h))
  transformed-Encoded buffer options (ok b) r ran h =
      labelled-Encoded buffer options b (metadata_of b) r ran h

  -- What a last operation makes of an image that is labelled with this MIME type for this target.
  abbrev pub Labels : Text → Text → Operation → Type 0
  Labels target mime_type last =
      (has_encoder target ≡ true → mime_type ≡ encoded_type last)
      × (has_encoder target ≡ false → encoded_type last ≡ codes "image/webp")

  -- A file that is transformed is what the operations of the pipeline made of it, of which only the
  -- last one encodes; it is labelled with the target format and the MIME type of that format. For
  -- WebP, JPEG, PNG and AVIF this is the type of what the last operation makes. For any other target
  -- the last operation makes WebP, under the label of the target all the same.
  pub process-Encoded :
      (buffer : List ℕ) (options : ProcessingOptions) (context : Option ProcessingContext)
      (r : Processed)
      → should_transform options ≡ true
      → process sharp metadata_of buffer options context ≡ ok r
      → (before : List Operation) × (last : Operation) × (sharp buffer (before ++ (last ∷ []))
          ≡ ok r.buffer)
        × All (λ o. encoded_type o ≡ []) before
        × Labels (target_format options) r.mime_type last
        × (r.format ≡ target_format options)
        × (r.mime_type ≡ get_mime_type r.format)
        × (r.size ≡ length r.buffer)
  unfolding process codes
  process-Encoded buffer options context r wanted h =
      let ran : transformed sharp metadata_of (target_format options)
            (sharp buffer (pipeline options))
          ≡ ok r =
        rw wanted at h in
      let (made, size, format, mime) =
        transformed-Encoded buffer options (sharp buffer (pipeline options)) r refl ran in
      let (before, plain, e) = pipeline_last options in
      let last = encoder (target_format options) (number_or 80 options.quality) in
      (
        before,
        last,
        subst (λ os. sharp buffer os ≡ ok r.buffer) e made,
        plain,
        (
          λ own. mime ∙ ap get_mime_type format ∙ encoder-type (target_format options) _ own,
          λ foreign. ap encoded_type (encoder_other (target_format options) _ foreign),
        ),
        format,
        mime,
        size,
      )

  -- A file that is not to be transformed keeps its bytes.
  pub process-untouched :
      (buffer : List ℕ) (options : ProcessingOptions) (context : Option ProcessingContext)
      → should_transform options ≡ false
      → process sharp metadata_of buffer options context ≡ ok (untouched buffer context)
  unfolding process
  process-untouched buffer options context idle = rw idle refl
