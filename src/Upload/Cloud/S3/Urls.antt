-- ===== src/Upload/Cloud/S3/Urls.antt =====
-- That the provider of S3 finds the object of a URL it has built.
use mathlib.Core.Path.{subst}
use project_saas_backend.Common.{
  ℕ, Text, codes, Option, none, some, List, [], ◌∷◌, ◌++◌, Bool, true, false, ◌&&◌, ◌||◌, not,
  arith, ◌==◌, ◌≡◌, refl, sym, ◌∙◌,
}
use project_saas_backend.Common.Result.{Result, ok, err}
use project_saas_backend.Errors.{Thrown}
use project_saas_backend.Upload.Config.{strip_leading}
use project_saas_backend.Upload.Config.Types.{S3ProviderConfig}
use project_saas_backend.Upload.LocalStorage.{split_segments}
use project_saas_backend.Upload.PresignedUrl.{is_alphanumeric}
use project_saas_backend.Upload.Cloud.Keys.{starts_with_slash}
use project_saas_backend.Upload.Cloud.S3.{
  Head, present, missing, ObjectStore, build_public_url, host_url, endpoint_url, url_to_key, delete,
  delete_found, deleted_or_not,
}
use project_saas_backend.Upload.Cloud.S3.Laws.{Reliable}

abbrev pub every : {A : Type 0} → (A → Bool) → List A → Bool
every f [] = true
every f (x ∷ xs) = f x && every f xs

-- The characters of a bucket and of a region: letters, digits, `-` and `.`.
abbrev pub is_host_char : ℕ → Bool
is_host_char c = is_alphanumeric c || c == 45 || c == 46

-- The characters of a key that a URL keeps as they are: these, `_` and `/`.
abbrev pub is_key_char : ℕ → Bool
is_key_char c = is_host_char c || c == 95 || c == 47

abbrev pub is_named : Text → Bool
is_named [] = true
is_named (c ∷ []) = not (c == 46)
is_named (c ∷ d ∷ []) = not (c == 46 && d == 46)
is_named (c ∷ d ∷ e ∷ s) = true

-- A key of such characters that starts with no slash and has no segment `.` or `..`.
unfoldable pub is_plain_key : Text → Bool
unfolding split_segments
is_plain_key key =
    every is_key_char key && not (starts_with_slash key) && every is_named (split_segments key)

-- What `new URL(url).pathname` is for a plain key on the virtual host of the configured bucket, where
-- that is the name of a host.
unfoldable pub HostPath : S3ProviderConfig → (Text → Option Text) → Type 0
unfolding is_plain_key split_segments codes
HostPath cfg pathname =
    (key : Text)
    → is_plain_key key ≡ true
    → pathname (
        codes "https://"
        ++ cfg.bucket
        ++ codes ".s3."
        ++ cfg.region
        ++ codes ".amazonaws.com/"
        ++ key)
      ≡ some (47 ∷ key)

no_slash :
    (a : Bool) (key : Text) (b : Bool)
    → (a && not (starts_with_slash key) && b) ≡ true
    → strip_leading key ≡ key
unfolding strip_leading
no_slash a [] b h = refl
no_slash a (c ∷ s) b h = ground arith

-- Without a public URL and an endpoint, the key of the URL of a plain key is that key.
url_to_key-host_url :
    (cfg : S3ProviderConfig) (pathname : Text → Option Text) (law : HostPath cfg pathname)
    (key : Text)
    → is_plain_key key ≡ true
    → cfg.force_path_style ≡ false
    → url_to_key cfg pathname (endpoint_url cfg none key) ≡ key
unfolding url_to_key endpoint_url is_plain_key HostPath
url_to_key-host_url cfg pathname law key hk style =
    rw (law key hk)
      (rw style (no_slash (every is_key_char key) key (every is_named (split_segments key)) hk))

build_public_url-plain :
    (cfg : S3ProviderConfig) (key : Text)
    → cfg.public_url ≡ none
    → cfg.endpoint ≡ none
    → build_public_url cfg key ≡ endpoint_url cfg none key
unfolding build_public_url host_url
build_public_url-plain cfg key no_url no_endpoint = rw no_url (rw no_endpoint refl)

module _ (cfg : S3ProviderConfig) (V : ObjectStore) (reliable : Reliable V)
    (pathname : Text → Option Text) (law : HostPath cfg pathname) where
  -- What a deletion answers and leaves, by what the object store answers to the request to delete this
  -- key: true, and the object is gone; or false, and it is as it was.
  abbrev pub Settled : Text → Head → Result Thrown (Unit {0}) × V.Bucket → Bool × V.Bucket → Type 0
  Settled key h (ok u, s) r = (r ≡ (true, s)) × (V.head_object key s ≡ missing)
  Settled key h (err e, s) r = (r ≡ (false, s)) × (V.head_object key s ≡ h)

  settled :
      (key : Text) (h : Head) (s : V.Bucket) (o : Result Thrown (Unit {0}) × V.Bucket)
      → V.head_object key s ≡ h
      → V.delete_object key s ≡ o
      → Settled key h o (deleted_or_not cfg V o)
  settled key h s (ok u, s') here e = (refl, reliable.gone key s s' e)
  settled key h s (err x, s') here e = (refl, reliable.not_gone key key s s' x e ∙ here)

  found-Settled :
      (key : Text) (size : ℕ) (mime : Option Text) (s : V.Bucket)
      → V.head_object key s ≡ present size mime
      → Settled key
          (present size mime)
          (V.delete_object key s)
          (delete_found cfg V key (V.head_object key s) s)
  found-Settled key size mime s here = rw here (settled key (present size mime) s _ here refl)

  deleted-Settled :
      (c : ℕ) (rest key : Text) (size : ℕ) (mime : Option Text) (s : V.Bucket)
      → url_to_key cfg pathname (c ∷ rest) ≡ key
      → V.head_object key s ≡ present size mime
      → Settled key (present size mime) (V.delete_object key s) (delete cfg V pathname (c ∷ rest) s)
  unfolding delete
  deleted-Settled c rest key size mime s found here = rw found (found-Settled key size mime s here)

  -- Where the virtual host of the bucket is a host that the parser of URLs takes, without a public URL,
  -- an endpoint and the style of paths, and for a plain key of an object that is there: a deletion by the URL that the provider has built for the key asks the object store to delete
  -- this key. When that succeeds the answer is true and the object is gone; when it fails the answer is
  -- false and the object is as it was.
  pub delete-build_public_url :
      (key : Text) (size : ℕ) (mime : Option Text) (s : V.Bucket)
      → cfg.public_url ≡ none
      → cfg.endpoint ≡ none
      → cfg.force_path_style ≡ false
      → is_plain_key key ≡ true
      → V.head_object key s ≡ present size mime
      → Settled key
          (present size mime)
          (V.delete_object key s)
          (delete cfg V pathname (build_public_url cfg key) s)
  unfolding endpoint_url codes
  delete-build_public_url key size mime s no_url no_endpoint style hk here =
      subst
        (λ u. Settled key (present size mime) (V.delete_object key s) (delete cfg V pathname u s))
        (sym (build_public_url-plain cfg key no_url no_endpoint))
        (deleted-Settled _ _ key size mime s (url_to_key-host_url cfg pathname law key hk style)
          here)
