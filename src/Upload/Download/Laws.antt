-- ===== src/Upload/Download/Laws.antt =====
-- Who is served which file by the signed GET.
use mathlib.Core.Path.{subst}
use project_saas_backend.Common.{
  ℕ, ◌*◌, ◌≤◌, ◌<◌, Text, Option, none, some, List, false, ◌≡◌, refl, ap, sym, ◌∙◌, length,
}
use project_saas_backend.Common.Result.{Result, ok, err}
use project_saas_backend.Errors.{Thrown}
use project_saas_backend.Upload.SignedUrl.{
  get, Expire, whole, SignInput, SignedUrl, is_empty, sign_url, Verdict, accepted,
  missing_parameters, invalid_expire, expired, invalid_signature, verify,
}
use project_saas_backend.Upload.Signing.{sign_url-verify}
use project_saas_backend.Upload.LocalStorage.{FilePath, resolve_managed_path}
use project_saas_backend.Upload.LocalStorage.Objects.{resolve_download_path, download_at, regular}
use project_saas_backend.Upload.FileSystem.{FileSystem, read}
use project_saas_backend.Upload.Download.{
  Download, download_grant, streamed, found, on_verdict, download,
}

answered : Download → Result Thrown Download
answered d = ok d

ok-inj : (d e : Download) → answered d ≡ answered e → d ≡ e
unfolding answered
ok-inj d e h = cc (h)

module _ (hmac : Text → Text → Text) (search_params : List (Text × Text) → Text) (secret : Text)
    (io_error : Text → Thrown) (dir_size : ℕ) (base : FilePath) (base_url : Option Text)
    (mime_lookup : Text → Option Text) where
  -- The signature was accepted for this key, and the body is the regular file that the key names.
  abbrev pub Served : ℕ → Text → Expire → Text → FileSystem → Download → Type 0
  Served now key expire signature fs d =
      (verify hmac search_params secret now (download_grant key expire signature) ≡ ok accepted)
      × ((p : FilePath) × (resolve_managed_path base key ≡ ok p)
          × (read p fs.files ≡ some d.body)
          × (d.content_length ≡ length d.body))

  -- What a URL for a download is signed for.
  abbrev pub download_input : Text → ℕ → SignInput
  download_input key seconds = record {
    method = get;
    key = key;
    expire_seconds = seconds;
    content_type = none;
    max_size_bytes = none;
    path_prefix = none;
  }

  found_file :
      (fs : FileSystem) (p : FilePath) (b : List ℕ)
      → read p fs.files ≡ some b
      → found hmac search_params secret io_error dir_size base base_url mime_lookup fs
          (some (p, length b))
        ≡ ok (
            streamed hmac search_params secret io_error dir_size base base_url mime_lookup p
              (length b)
              (some b))
  unfolding found
  found_file fs p b there =
      ap
        (λ c. ok (
          streamed hmac search_params secret io_error dir_size base base_url mime_lookup p
            (length b) c))
        there

  -- With a URL that was signed for the key of a regular file of the storage, and until it expires, the
  -- file is served: its bytes and their number.
  pub sign_url-download :
      (now later seconds : ℕ) (key : Text) (link : SignedUrl) (fs : FileSystem) (p : FilePath)
      (b : List ℕ)
      → sign_url hmac search_params secret now (download_input key seconds) ≡ ok link
      → is_empty key ≡ false
      → is_empty link.signature ≡ false
      → 0 < link.expire_at
      → later ≤ link.expire_at * 1000
      → resolve_managed_path base key ≡ ok p
      → read p fs.files ≡ some b
      → download hmac search_params secret io_error dir_size base base_url mime_lookup later key
          (whole link.expire_at)
          link.signature
          fs
        ≡ ok (
            streamed hmac search_params secret io_error dir_size base base_url mime_lookup p
              (length b)
              (some b))
  unfolding download resolve_download_path
  sign_url-download now later seconds key link fs p b sign keyed signature some_time early resolved
        there =
      let accepts =
        (sign_url-verify hmac search_params secret now (download_input key seconds) link sign later
            keyed signature some_time).0
          early in
      rw accepts (rw resolved (rw there (found_file fs p b there)))

  served_file :
      (p : FilePath) (fs : FileSystem) (d : Download) (o : Option (List ℕ))
      → read p fs.files ≡ o
      → found hmac search_params secret io_error dir_size base base_url mime_lookup fs
          (regular io_error dir_size base base_url p o)
        ≡ ok d
      → (read p fs.files ≡ some d.body) × (d.content_length ≡ length d.body)
  unfolding found answered
  served_file p fs d none there h = absurd (cc (h))
  served_file p fs d (some b) there h =
      let same : streamed hmac search_params secret io_error dir_size base base_url mime_lookup p
            (length b) (some b)
          ≡ d =
        ok-inj _ d (
          ap
            (λ c. ok (
              streamed hmac search_params secret io_error dir_size base base_url mime_lookup p
                (length b) c))
            (sym there)
          ∙ h) in
      subst (λ (x : Download). (read p fs.files ≡ some x.body) × (x.content_length ≡ length x.body))
        same (there, refl)

  served_path :
      (key : Text) (fs : FileSystem) (d : Download) (o : Result Thrown FilePath)
      → resolve_managed_path base key ≡ o
      → found hmac search_params secret io_error dir_size base base_url mime_lookup fs
          (download_at io_error dir_size base base_url o fs)
        ≡ ok d
      → (p : FilePath) × (resolve_managed_path base key ≡ ok p)
        × (read p fs.files ≡ some d.body)
        × (d.content_length ≡ length d.body)
  unfolding found download_at
  served_path key fs d (err e) resolved h = absurd (cc (h))
  served_path key fs d (ok p) resolved h =
      let (there, size) = served_file p fs d (read p fs.files) refl h in (p, resolved, there, size)

  verdict-Served :
      (now : ℕ) (key : Text) (expire : Expire) (signature : Text) (fs : FileSystem) (d : Download)
      (o : Result Thrown Verdict)
      → verify hmac search_params secret now (download_grant key expire signature) ≡ o
      → on_verdict hmac search_params secret io_error dir_size base base_url mime_lookup key fs o
        ≡ ok d
      → Served now key expire signature fs d
  unfolding on_verdict resolve_download_path
  verdict-Served now key expire signature fs d (err e) v h = absurd (cc (h))
  verdict-Served now key expire signature fs d (ok expired) v h = absurd (cc (h))
  verdict-Served now key expire signature fs d (ok missing_parameters) v h = absurd (cc (h))
  verdict-Served now key expire signature fs d (ok invalid_expire) v h = absurd (cc (h))
  verdict-Served now key expire signature fs d (ok invalid_signature) v h = absurd (cc (h))
  verdict-Served now key expire signature fs d (ok accepted) v h =
      (v, served_path key fs d (resolve_managed_path base key) refl h)

  -- What the signed GET serves is the regular file that the key names, and its signature was accepted
  -- for a GET of this very key and expiry.
  pub download-Served :
      (now : ℕ) (key : Text) (expire : Expire) (signature : Text) (fs : FileSystem) (d : Download)
      → download hmac search_params secret io_error dir_size base base_url mime_lookup now key
          expire signature fs
        ≡ ok d
      → Served now key expire signature fs d
  unfolding download
  download-Served now key expire signature fs d h =
      verdict-Served now key expire signature fs d
        (verify hmac search_params secret now (download_grant key expire signature)) refl h
