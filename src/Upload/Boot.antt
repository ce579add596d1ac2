-- ===== src/Upload/Boot.antt =====
-- validateActiveProvider of infrastructure/config/upload-config.service.ts: the service refuses to
-- start without the keys of the active provider.
use project_saas_backend.Common.{
  ℕ, Text, codes, Option, none, some, List, [], ◌∷◌, ◌++◌, Bool, true, false, ◌≡◌, ◌↔◌, ◌⊎◌, refl,
  inl, inr,
}
use project_saas_backend.Upload.Config.{
  UploadProviderName, local, s3, cloudflare, cloudinary, imagekit, gcs, azure, unknown,
  UploadConfig, CloudinaryProviderConfig, NumericSettings, ParsedUrl, load_configuration,
  configuration_for, load_s3_config, load_cloudflare_config, load_cloudinary_config,
  load_imagekit_config, load_gcs_config, load_azure_config, parse_cloudinary_url, get, is_empty,
  provider_of, first_of,
}

-- `!cfg?.field`: an absent section has no field.
abbrev pub lacks {ℓ} : {A : Type ℓ} → Option A → (A → Text) → Bool
lacks none f = true
lacks (some c) f = is_empty (f c)

abbrev pub push_if : Bool → Text → List Text
push_if true name = name ∷ []
push_if false name = []

abbrev cloudinary_missing : Bool → Option CloudinaryProviderConfig → List Text
cloudinary_missing true c = []
cloudinary_missing false c =
    push_if (lacks c (λ x. x.cloud_name)) (codes "CLOUDINARY_CLOUD_NAME")
    ++ push_if (lacks c (λ x. x.api_key)) (codes "CLOUDINARY_API_KEY")
    ++ push_if (lacks c (λ x. x.api_secret)) (codes "CLOUDINARY_API_SECRET")

abbrev has_some : Option Text → Bool
has_some none = false
has_some (some []) = false
has_some (some (c ∷ s)) = true

abbrev has_url : Option CloudinaryProviderConfig → Bool
has_url none = false
has_url (some c) = has_some c.cloudinary_url

abbrev missing_for : UploadConfig → UploadProviderName → List Text
missing_for cfg local =
    push_if (is_empty cfg.local_signing_secret)
      (codes "UPLOAD_LOCAL_SIGNING_SECRET (or JWT_SECRET as fallback)")
missing_for cfg s3 =
    push_if (lacks cfg.s3_config (λ x. x.bucket)) (codes "AWS_S3_BUCKET")
    ++ push_if (lacks cfg.s3_config (λ x. x.access_key_id)) (codes "AWS_ACCESS_KEY_ID")
    ++ push_if (lacks cfg.s3_config (λ x. x.secret_access_key)) (codes "AWS_SECRET_ACCESS_KEY")
missing_for cfg cloudflare =
    push_if (lacks cfg.cloudflare_config (λ x. x.account_id)) (codes "CF_ACCOUNT_ID")
    ++ push_if (lacks cfg.cloudflare_config (λ x. x.access_key_id)) (codes "CF_ACCESS_KEY_ID")
    ++ push_if (lacks cfg.cloudflare_config (λ x. x.secret_access_key))
        (codes "CF_SECRET_ACCESS_KEY")
    ++ push_if (lacks cfg.cloudflare_config (λ x. x.bucket_name)) (codes "CF_BUCKET_NAME")
missing_for cfg cloudinary =
    cloudinary_missing (has_url cfg.cloudinary_config) cfg.cloudinary_config
missing_for cfg imagekit =
    push_if (lacks cfg.imagekit_config (λ x. x.public_key)) (codes "IMAGEKIT_PUBLIC_KEY")
    ++ push_if (lacks cfg.imagekit_config (λ x. x.private_key)) (codes "IMAGEKIT_PRIVATE_KEY")
    ++ push_if (lacks cfg.imagekit_config (λ x. x.url_endpoint)) (codes "IMAGEKIT_URL_ENDPOINT")
missing_for cfg gcs =
    push_if (lacks cfg.gcs_config (λ x. x.project_id)) (codes "GCP_PROJECT_ID")
    ++ push_if (lacks cfg.gcs_config (λ x. x.bucket)) (codes "GCP_BUCKET")
missing_for cfg azure =
    push_if (lacks cfg.azure_config (λ x. x.connection_string))
      (codes "AZURE_STORAGE_CONNECTION_STRING")
    ++ push_if (lacks cfg.azure_config (λ x. x.container_name)) (codes "AZURE_STORAGE_CONTAINER")
missing_for cfg (unknown s) = []

-- The names that `validateActiveProvider` reports; it throws when there are any.
unfoldable pub missing : UploadConfig → List Text
unfolding codes
missing cfg = missing_for cfg cfg.provider

abbrev Filled : Text → Type 0
Filled t = is_empty t ≡ false

push_one : (a : Bool) (x : Text) → (push_if a x ≡ []) ↔ (a ≡ false)
push_one true x = (λ h. absurd (cc (h)), λ h. absurd (cc (h)))
push_one false x = (λ h. refl, λ h. refl)

append_nil : (xs ys : List Text) → (xs ++ ys ≡ []) ↔ ((xs ≡ []) × (ys ≡ []))
append_nil [] ys = (λ h. (refl, h), λ h. h.1)
append_nil (x ∷ xs) ys = (λ h. absurd (cc (h)), λ h. absurd (cc (h.0)))

push_two :
    (a b : Bool) (x y : Text) → (push_if a x ++ push_if b y ≡ []) ↔ ((a ≡ false) × (b ≡ false))
push_two a b x y =
    let (f, g) = append_nil (push_if a x) (push_if b y) in
    let (fa, ga) = push_one a x in
    let (fb, gb) = push_one b y in (λ h. (fa (f h).0, fb (f h).1), λ h. g (ga h.0, gb h.1))

push_three :
    (a b c : Bool) (x y z : Text)
    → (push_if a x ++ push_if b y ++ push_if c z ≡ []) ↔ ((a ≡ false) × (b ≡ false) × (c ≡ false))
push_three a b c x y z =
    let (f, g) = append_nil (push_if a x ++ push_if b y) (push_if c z) in
    let (f', g') = push_two a b x y in
    let (fc, gc) = push_one c z in
    (λ h. ((f' (f h).0).0, (f' (f h).0).1, fc (f h).1), λ h. g (g' (h.0, h.1), gc h.2))

push_four :
    (a b c d : Bool) (x y z w : Text)
    → (push_if a x ++ push_if b y ++ push_if c z ++ push_if d w ≡ [])
      ↔ ((a ≡ false) × (b ≡ false) × (c ≡ false) × (d ≡ false))
push_four a b c d x y z w =
    let (f, g) = append_nil (push_if a x ++ push_if b y ++ push_if c z) (push_if d w) in
    let (f', g') = push_three a b c x y z in
    let (fd, gd) = push_one d w in
    (
      λ h. ((f' (f h).0).0, (f' (f h).0).1, (f' (f h).0).2, fd (f h).1),
      λ h. g (g' (h.0, h.1, h.2), gd h.3),
    )

truthy_cases : (t : Text) → (t ≡ []) ⊎ ((c : ℕ) × (s : Text) × (t ≡ (c ∷ s)))
truthy_cases [] = inl refl
truthy_cases (c ∷ s) = inr (c, s, refl)

module _ (env : Text → Option Text) (new_url : Text → Option ParsedUrl) where
  abbrev var : Text → Text
  var key = get env new_url key []

  -- What the environment must hold for each provider.
  abbrev pub Required : UploadProviderName → Type 0
  Required local =
      Filled (first_of (var (codes "UPLOAD_LOCAL_SIGNING_SECRET")) (var (codes "JWT_SECRET")))
  Required s3 =
      Filled (var (codes "AWS_S3_BUCKET"))
      × Filled (var (codes "AWS_ACCESS_KEY_ID"))
      × Filled (var (codes "AWS_SECRET_ACCESS_KEY"))
  Required cloudflare =
      Filled (var (codes "CF_ACCOUNT_ID"))
      × Filled (var (codes "CF_ACCESS_KEY_ID"))
      × Filled (var (codes "CF_SECRET_ACCESS_KEY"))
      × Filled (var (codes "CF_BUCKET_NAME"))
  Required cloudinary =
      Filled (var (codes "CLOUDINARY_URL"))
      ⊎ (Filled (var (codes "CLOUDINARY_CLOUD_NAME"))
          × Filled (var (codes "CLOUDINARY_API_KEY"))
          × Filled (var (codes "CLOUDINARY_API_SECRET")))
  Required imagekit =
      Filled (var (codes "IMAGEKIT_PUBLIC_KEY"))
      × Filled (var (codes "IMAGEKIT_PRIVATE_KEY"))
      × Filled (var (codes "IMAGEKIT_URL_ENDPOINT"))
  Required gcs = Filled (var (codes "GCP_PROJECT_ID")) × Filled (var (codes "GCP_BUCKET"))
  Required azure =
      Filled (var (codes "AZURE_STORAGE_CONNECTION_STRING"))
      × Filled (var (codes "AZURE_STORAGE_CONTAINER"))
  Required (unknown s) = Unit

  missing_for_iff :
      (n : NumericSettings) (p : UploadProviderName)
      → (missing_for (configuration_for env new_url p n) p ≡ []) ↔ Required p
  unfolding configuration_for load_s3_config load_cloudflare_config load_cloudinary_config
      load_imagekit_config load_gcs_config load_azure_config parse_cloudinary_url codes
  missing_for_iff n local = push_one _ _
  missing_for_iff n s3 = push_three _ _ _ _ _ _
  missing_for_iff n cloudflare = push_four _ _ _ _ _ _ _ _
  missing_for_iff n cloudinary = elim (truthy_cases (var (codes "CLOUDINARY_URL"))) [
    | inl none_set ↦
        let (f, g) =
          push_three (is_empty (var (codes "CLOUDINARY_CLOUD_NAME")))
            (is_empty (var (codes "CLOUDINARY_API_KEY")))
            (is_empty (var (codes "CLOUDINARY_API_SECRET"))) (codes "CLOUDINARY_CLOUD_NAME")
            (codes "CLOUDINARY_API_KEY") (codes "CLOUDINARY_API_SECRET") in
        rw none_set (λ h. inr (f h), λ r. elim r [ inl e ↦ absurd (cc (e)) | inr h ↦ g h ])
    | inr given ↦ let (c, s, e) = given in rw e (λ h. inl refl, λ r. refl)
  ]
  missing_for_iff n imagekit = push_three _ _ _ _ _ _
  missing_for_iff n gcs = push_two _ _ _ _
  missing_for_iff n azure = push_two _ _ _ _
  missing_for_iff n (unknown s) = (λ h. tt, λ h. refl)

  -- The configuration loaded from an environment passes the boot check exactly when the environment
  -- holds what its provider needs: for the local provider one of the two secrets; for S3, R2,
  -- ImageKit, GCS and Azure all their variables; for Cloudinary its URL or its three variables. An
  -- unknown provider passes.
  pub missing_iff :
      (n : NumericSettings)
      → (missing (load_configuration env new_url n) ≡ [])
        ↔ Required
            (provider_of env new_url (get env new_url (codes "UPLOAD_PROVIDER") (codes "local")))
  unfolding missing load_configuration
  missing_iff n =
      missing_for_iff n
        (provider_of env new_url (get env new_url (codes "UPLOAD_PROVIDER") (codes "local")))
