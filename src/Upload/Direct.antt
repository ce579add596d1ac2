-- ===== src/Upload/Direct.antt =====
-- The signed PUT of src/modules/upload/api/v1/controllers/local-direct.controller.ts: `upload`, and
-- `drainBody` over the chunks of the request stream. `max` is a whole number; other numbers in the
-- query are left aside, since no URL is signed for them.
use project_saas_backend.Common.{
  ℕ, ◌+◌, ◌*◌, Text, codes, text_eq, to_lower, Option, none, some, List, [], ◌∷◌, ◌++◌, Bool, true,
  false, ◌||◌, not, ltb, leb, ◌==◌, if◌then◌else◌, length,
}
use project_saas_backend.Common.Decimal.{decimal}
use project_saas_backend.Common.Trim.{trim}
use project_saas_backend.Common.Result.{Result, ok, err, Exec}
use project_saas_backend.Errors
use project_saas_backend.Errors.{Thrown, thrown_api, from_definition}
use project_saas_backend.Errors.Registry
use project_saas_backend.Upload.SignedUrl.{
  put, Expire, Grant, Verdict, accepted, missing_parameters, invalid_expire, expired,
  invalid_signature, verify,
}
use project_saas_backend.Upload.LocalStorage.{FilePath, StoredFile}
use project_saas_backend.Upload.LocalStorage.DirectWrite.{write_direct_upload}
use project_saas_backend.Upload.FileSystem.{FileSystem}

abbrev pub refused : Text → Thrown
refused reason = thrown_api (from_definition Registry.unauthorized (some reason) none)

abbrev too_large : ℕ → ℕ → Thrown
too_large size max = thrown_api (
    from_definition Registry.file_too_large
      (some (
        codes "Body is "
        ++ decimal size
        ++ codes " bytes; signed max is "
        ++ decimal max
        ++ codes "."))
      none)

abbrev over_hard_cap : Thrown
over_hard_cap = thrown_api (
    from_definition Registry.file_too_large
      (some (codes "Request body exceeded the absolute max (MAX_FILE_SIZE_MB × 2).")) none)

pub record Drained : Type 0 where
  pub buffered : List ℕ
  pub total : ℕ
  pub soft_overflow : Bool

-- `total > signedMax + SOFT_HEADROOM`
abbrev pub over : Option ℕ → ℕ → Bool
over none total = false
over (some max) total = ltb (max + 64 * 1024) total

-- The handler of `data`, past the hard cap's check.
abbrev pub take_chunk : Option ℕ → Drained → List ℕ → Drained
take_chunk max d chunk =
    let soft = d.soft_overflow || over max (d.total + length chunk) in
    record {
      buffered = if soft then [] else d.buffered ++ chunk;
      total = d.total + length chunk;
      soft_overflow = soft;
    }

abbrev signed_or_zero : Option ℕ → ℕ
signed_or_zero none = 0
signed_or_zero (some m) = m

unfoldable pub drain_from : ℕ → Option ℕ → Drained → List (List ℕ) → Result Thrown (List ℕ)
unfolding codes decimal
drain_from hard max d [] =
    if d.soft_overflow then err (too_large d.total (signed_or_zero max)) else ok d.buffered
drain_from hard max d (chunk ∷ chunks) =
    let rest = drain_from hard max (take_chunk max d chunk) chunks in
    if ltb hard (d.total + length chunk) then err over_hard_cap else rest

unfoldable pub drain_body : ℕ → Option ℕ → List (List ℕ) → Result Thrown (List ℕ)
unfolding drain_from
drain_body hard max chunks =
    drain_from hard max (record { buffered = []; total = 0; soft_overflow = false }) chunks

-- The body of a request: kept raw or parsed as a buffer, already consumed, or still a stream.
pub data Body : Type 0 where
  buffer : List ℕ → Body
  consumed : Body
  stream : List (List ℕ) → Body

pub record UploadQuery : Type 0 where
  pub key : Text
  pub expire : Expire
  pub signature : Text
  pub content_type : Option Text
  pub max : Option ℕ

-- The answer, without the endpoint of the next step, which is a constant.
pub record Uploaded : Type 0 where
  pub url : Text
  pub file_key : Text
  pub size : ℕ

abbrev pub read_body : ℕ → Option ℕ → Body → Result Thrown (List ℕ)
read_body hard max (buffer b) = ok b
read_body hard max consumed = ok []
read_body hard max (stream chunks) = drain_body hard max chunks

before_semicolon : Text → Text
before_semicolon [] = []
before_semicolon (c ∷ s) = if c == 59 then [] else c ∷ before_semicolon s

-- `split(';')[0].trim().toLowerCase()`
pub requested_type : Text → Text
unfolding trim before_semicolon to_lower
requested_type s = to_lower (trim (before_semicolon s))

abbrev pub type_matches : Option Text → Option Text → Bool
type_matches (some (c ∷ s)) (some (d ∷ t)) = text_eq (requested_type (d ∷ t)) (to_lower (c ∷ s))
type_matches _ _ = true

abbrev pub within : Option ℕ → ℕ → Bool
within none size = true
within (some max) size = leb size max

abbrev type_text : Option Text → Text
type_text none = []
type_text (some t) = t

abbrev type_mismatch : Option Text → Option Text → Thrown
type_mismatch given sent = thrown_api (
    from_definition Registry.bad_request
      (some (
        codes "Content-Type \""
        ++ requested_type (type_text sent)
        ++ codes "\" does not match signed \""
        ++ type_text given
        ++ codes "\"."))
      none)

abbrev no_body : Thrown
no_body = thrown_api (
    from_definition Registry.file_not_uploaded
      (some (
        codes
          "Request body was empty. Send Content-Type: image/jpeg (etc.) with the file bytes as the body — not multipart/form-data."))
      none)

abbrev pub gone : Thrown
gone = thrown_api (
    Errors.new "Signed URL has expired." 410 (record {
      code = some "ERR_PRESIGN_EXPIRED";
      name = some "PresignExpiredError";
      details = none;
      fields = none;
    }))

module _ (hmac : Text → Text → Text) (io_error : Text → Thrown) (base : FilePath)
    (base_url : Option Text) (hard : ℕ) (secret : Text) where
  abbrev pub answer :
      Text → Result Thrown StoredFile × FileSystem → Result Thrown Uploaded × FileSystem
  answer key (ok stored, fs) =
      (ok (record { url = stored.url; file_key = key; size = stored.size }), fs)
  answer key (err e, fs) = (err e, fs)

  abbrev pub checked : UploadQuery → Option Text → List ℕ → Exec Thrown FileSystem Uploaded
  checked q sent body fs =
      if not (within q.max (length body))
      then (err (too_large (length body) (signed_or_zero q.max)), fs)
      else if not (type_matches q.content_type sent)
      then (err (type_mismatch q.content_type sent), fs)
      else answer q.key (write_direct_upload io_error base base_url q.key body q.content_type fs)

  abbrev pub with_body :
      UploadQuery → Option Text → Result Thrown (List ℕ) → Exec Thrown FileSystem Uploaded
  with_body q sent (err e) fs = (err e, fs)
  with_body q sent (ok []) fs = (err no_body, fs)
  with_body q sent (ok (c ∷ body)) fs = checked q sent (c ∷ body) fs

  abbrev pub on_verdict :
      UploadQuery → Option Text → Body → Result Thrown Verdict → Exec Thrown FileSystem Uploaded
  on_verdict q sent body (err e) fs = (err e, fs)
  on_verdict q sent body (ok expired) fs = (err gone, fs)
  on_verdict q sent body (ok missing_parameters) fs =
      (err (refused (codes "missing parameters")), fs)
  on_verdict q sent body (ok invalid_expire) fs = (err (refused (codes "invalid expire")), fs)
  on_verdict q sent body (ok invalid_signature) fs = (err (refused (codes "invalid signature")), fs)
  on_verdict q sent body (ok accepted) fs = with_body q sent (read_body hard q.max body) fs

  abbrev pub grant : UploadQuery → Grant
  grant q = record {
    method = put;
    key = q.key;
    expire = q.expire;
    content_type = q.content_type;
    max_size = q.max;
    signature = q.signature;
  }

  unfoldable pub upload :
      (List (Text × Text) → Text)
      → ℕ
      → UploadQuery
      → Option Text
      → Body
      → Exec Thrown FileSystem Uploaded
  unfolding verify write_direct_upload drain_body codes decimal
  upload search_params now q sent body =
      on_verdict q sent body (verify hmac search_params secret now (grant q))
