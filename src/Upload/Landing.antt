-- ===== src/Upload/Landing.antt =====
-- What the signed PUT accepts, and where an accepted body lands.
use mathlib.Core.Path.{subst}
use project_saas_backend.Common.{
  append_assoc, append_nil, ℕ, ◌+◌, ◌*◌, ◌≤◌, ◌<◌, Text, Option, none, some, List, [], ◌∷◌, ◌++◌,
  true, false, ◌≡◌, ◌≢◌, ◌↔◌, ltb, if◌then◌else◌, length, length-append, refl, sym, ap, ◌∙◌, arith,
  Bool-cases, inl, inr,
}
use project_saas_backend.Common.Result.{Result, ok, err}
use project_saas_backend.Errors.{Thrown}
use project_saas_backend.Upload.SignedUrl.{
  put, Verdict, accepted, missing_parameters, invalid_expire, expired, invalid_signature, verify,
  is_empty, whole, SignInput, SignedUrl, sign_url,
}
use project_saas_backend.Upload.Signing.{sign_url-verify, grant_of}
use project_saas_backend.Upload.LocalStorage.{FilePath, StoredFile}
use project_saas_backend.Upload.LocalStorage.DirectWrite.{write_direct_upload}
use project_saas_backend.Upload.FileSystem.{FileSystem}
use project_saas_backend.Upload.Direct.{
  Drained, over, take_chunk, drain_from, drain_body, Body, buffer, UploadQuery, Uploaded, read_body,
  type_matches, within, checked, answer, with_body, on_verdict, grant, upload,
}

pub concat : List (List ℕ) → List ℕ
concat [] = []
concat (c ∷ cs) = c ++ concat cs

-- The state after these bytes.
abbrev state_of : Option ℕ → List ℕ → Drained
state_of max bytes = record {
  buffered = if over max (length bytes) then [] else bytes;
  total = length bytes;
  soft_overflow = over max (length bytes);
}

over_mono : (max : Option ℕ) (m n : ℕ) → m ≤ n → over max m ≡ true → over max n ≡ true
over_mono none m n h e = e
over_mono (some x) m n h e = ground arith

take_chunk_state :
    (max : Option ℕ) (bytes chunk : List ℕ)
    → take_chunk max (state_of max bytes) chunk ≡ state_of max (bytes ++ chunk)
take_chunk_state max bytes chunk =
    let len = length-append bytes chunk in
    elim (Bool-cases (over max (length bytes))) [
      | inl was ↦
          let still =
            over_mono max (length bytes) (length bytes + length chunk) (omega arith) was in
          rw (len, was, still) refl
      | inr fine ↦ rw (len, fine) refl
    ]

too_long :
    (hard : ℕ) (x y z b : List ℕ)
    → b ≡ x ++ (y ++ z)
    → length b ≤ hard
    → ltb hard (length x + length y) ≡ true
    → ⊥
too_long hard x y z b e h big =
    let len : length b ≡ length x + length (y ++ z) = ap length e ∙ length-append x (y ++ z) in
    let len' = length-append y z in absurd (ground (arith, len, len', h, big))

over_zero : (max : Option ℕ) → over max 0 ≡ false
over_zero none = refl
over_zero (some m) = ground arith

start :
    (max : Option ℕ)
    → over max 0 ≡ false
    → Path Drained (state_of max []) (record { buffered = []; total = 0; soft_overflow = false })
start max e = rw e refl

drain_from_iff :
    (hard : ℕ) (max : Option ℕ) (bytes : List ℕ) (chunks : List (List ℕ)) (b : List ℕ)
    → length bytes ≤ hard
    → (drain_from hard max (state_of max bytes) chunks ≡ ok b)
      ↔ ((b ≡ bytes ++ concat chunks) × (length b ≤ hard) × (over max (length b) ≡ false))
unfolding drain_from concat
drain_from_iff hard max bytes [] b h = elim (Bool-cases (over max (length bytes))) [
  | inl ov ↦
      rw ov (
        λ e. absurd (cc (e)),
        λ k. let same = k.0 ∙ append_nil bytes in absurd (cc (same, k.2, ov)),
      )
  | inr fine ↦ rw fine (
    λ e.
        let same : bytes ≡ b = cc (e) in
        (
          sym same ∙ sym (append_nil bytes),
          subst (λ x. length x ≤ hard) same h,
          subst (λ x. over max (length x) ≡ false) same fine,
        ),
    λ k. ap ok (sym (k.0 ∙ append_nil bytes)),
  )
]
drain_from_iff hard max bytes (c ∷ cs) b h =
    elim (Bool-cases (ltb hard (length bytes + length c))) [
      | inl big ↦
          rw big
            (λ e. absurd (cc (e)), λ k. absurd (too_long hard bytes c (concat cs) b k.0 k.1 big))
      | inr fits ↦
          let len = length-append bytes c in
          let small : length (bytes ++ c) ≤ hard = ground (arith, len, fits) in
          let (f, g) = drain_from_iff hard max (bytes ++ c) cs b small in
          let split = append_assoc bytes c (concat cs) in
          rw (fits, take_chunk_state max bytes c)
            (λ e. let (x, y, z) = f e in (x ∙ split, y, z), λ k. g (k.0 ∙ sym split, k.1, k.2))
    ]

-- The body is drained exactly when the stream has at most the hard cap's bytes and at most the signed
-- maximum and 64 KB; it is then the bytes of the chunks, in their order.
pub drain_body_iff :
    (hard : ℕ) (max : Option ℕ) (chunks : List (List ℕ)) (b : List ℕ)
    → (drain_body hard max chunks ≡ ok b)
      ↔ ((b ≡ concat chunks) × (length b ≤ hard) × (over max (length b) ≡ false))
unfolding drain_body
drain_body_iff hard max chunks b =
    let none_over : over max 0 ≡ false = over_zero max in
    subst
      (λ d.
        (drain_from hard max d chunks ≡ ok b)
        ↔ ((b ≡ concat chunks) × (length b ≤ hard) × (over max (length b) ≡ false)))
      (start max none_over) (drain_from_iff hard max [] chunks b (omega arith))

module _ (hmac : Text → Text → Text) (search_params : List (Text × Text) → Text)
    (io_error : Text → Thrown) (base : FilePath) (base_url : Option Text) (hard : ℕ)
    (secret : Text) where
  -- What an accepted upload has been through.
  pub record Checked (now : ℕ) (q : UploadQuery) (sent : Option Text) (body : Body)
      (files files' : FileSystem) (a : Uploaded) : Type 0 where
    pub bytes : List ℕ
    pub signature_ok :
        verify hmac search_params secret now (grant hmac io_error base base_url hard secret q)
        ≡ ok accepted
    pub is_body : read_body hard q.max body ≡ ok bytes
    pub some_bytes : bytes ≢ []
    pub in_size : within q.max (length bytes) ≡ true
    pub in_type : type_matches q.content_type sent ≡ true
    pub stored : StoredFile
    pub written :
        write_direct_upload io_error base base_url q.key bytes q.content_type files
        ≡ (ok stored, files')
    pub answer_size : a.size ≡ stored.size

  answer_stored :
      (key : Text) (files' : FileSystem) (a : Uploaded) (o : Result Thrown StoredFile × FileSystem)
      → answer hmac io_error base base_url hard secret key o ≡ (ok a, files')
      → (stored : StoredFile) × (o ≡ (ok stored, files')) × (a.size ≡ stored.size)
  answer_stored key files' a (ok stored, files) h = (stored, cc (h), ap (size_of stored) (sym h))
    where
      size_of : StoredFile → Result Thrown Uploaded × FileSystem → ℕ
      size_of stored (ok x, f) = x.size
      size_of stored (err e, f) = stored.size
  answer_stored key files' a (err e, files) h = absurd (cc (h))

  checked_lem :
      (now : ℕ) (q : UploadQuery) (sent : Option Text) (body : Body) (files files' : FileSystem)
      (a : Uploaded) (bytes : List ℕ)
      → verify hmac search_params secret now (grant hmac io_error base base_url hard secret q)
        ≡ ok accepted
      → read_body hard q.max body ≡ ok bytes
      → bytes ≢ []
      → checked hmac io_error base base_url hard secret q sent bytes files ≡ (ok a, files')
      → Checked now q sent body files files' a
  checked_lem now q sent body files files' a bytes v r some_bytes h =
      elim (Bool-cases (within q.max (length bytes))) [
        | inr large ↦ absurd (cc (h, large))
        | inl fits ↦ elim (Bool-cases (type_matches q.content_type sent)) [
          | inr other ↦ absurd (cc (h, fits, other))
          | inl matches ↦
              let (stored, w, size) =
                answer_stored q.key files' a
                  (write_direct_upload io_error base base_url q.key bytes q.content_type files)
                  (cc (h, fits, matches)) in
              record {
                bytes = bytes;
                signature_ok = v;
                is_body = r;
                some_bytes = some_bytes;
                in_size = fits;
                in_type = matches;
                stored = stored;
                written = w;
                answer_size = size;
              }
        ]
      ]

  with_body-Checked :
      (now : ℕ) (q : UploadQuery) (sent : Option Text) (body : Body) (files files' : FileSystem)
      (a : Uploaded) (o : Result Thrown (List ℕ))
      → verify hmac search_params secret now (grant hmac io_error base base_url hard secret q)
        ≡ ok accepted
      → read_body hard q.max body ≡ o
      → with_body hmac io_error base base_url hard secret q sent o files ≡ (ok a, files')
      → Checked now q sent body files files' a
  with_body-Checked now q sent body files files' a (err e) v r h = absurd (cc (h))
  with_body-Checked now q sent body files files' a (ok []) v r h = absurd (cc (h))
  with_body-Checked now q sent body files files' a (ok (c ∷ bytes)) v r h =
      checked_lem now q sent body files files' a (c ∷ bytes) v r (λ e. absurd (cc (e))) h

  verdict_Checked :
      (now : ℕ) (q : UploadQuery) (sent : Option Text) (body : Body) (files files' : FileSystem)
      (a : Uploaded) (o : Result Thrown Verdict)
      → verify hmac search_params secret now (grant hmac io_error base base_url hard secret q) ≡ o
      → on_verdict hmac io_error base base_url hard secret q sent body o files ≡ (ok a, files')
      → Checked now q sent body files files' a
  verdict_Checked now q sent body files files' a (err e) v h = absurd (cc (h))
  verdict_Checked now q sent body files files' a (ok expired) v h = absurd (cc (h))
  verdict_Checked now q sent body files files' a (ok missing_parameters) v h = absurd (cc (h))
  verdict_Checked now q sent body files files' a (ok invalid_expire) v h = absurd (cc (h))
  verdict_Checked now q sent body files files' a (ok invalid_signature) v h = absurd (cc (h))
  verdict_Checked now q sent body files files' a (ok accepted) v h =
      with_body-Checked now q sent body files files' a (read_body hard q.max body) v refl h

  -- A signed PUT that succeeds carried an accepted signature for its own key, expiry, content type and
  -- maximal size; its body was not empty and within the signed size, its content type was the signed
  -- one where both are given, the body's bytes were written by the storage, and the answer has the
  -- stored size.
  pub upload-Checked :
      (now : ℕ) (q : UploadQuery) (sent : Option Text) (body : Body) (files files' : FileSystem)
      (a : Uploaded)
      → upload hmac io_error base base_url hard secret search_params now q sent body files
        ≡ (ok a, files')
      → Checked now q sent body files files' a
  unfolding upload
  upload-Checked now q sent body files files' a h =
      verdict_Checked now q sent body files files' a
        (verify hmac search_params secret now (grant hmac io_error base base_url hard secret q))
        refl h

module _ (hmac : Text → Text → Text) (search_params : List (Text × Text) → Text)
    (io_error : Text → Thrown) (dir : Text) (parent_dir : FilePath) (base_url : Option Text)
    (hard : ℕ) (secret : Text) where
  -- The query of a URL that was signed for this input.
  abbrev pub query_of : SignInput → SignedUrl → UploadQuery
  query_of input u = record {
    key = input.key;
    expire = whole u.expire_at;
    signature = u.signature;
    content_type = input.content_type;
    max = input.max_size_bytes;
  }

  -- What the storage stores is what the signed PUT answers.
  pub signed_upload_writes :
      (now later : ℕ) (input : SignInput) (u : SignedUrl) (sent : Option Text) (c : ℕ)
      (bytes : List ℕ) (fs fs' : FileSystem) (stored : StoredFile)
      → sign_url hmac search_params secret now input ≡ ok u
      → input.method ≡ put
      → is_empty input.key ≡ false
      → is_empty u.signature ≡ false
      → 0 < u.expire_at
      → later ≤ u.expire_at * 1000
      → within input.max_size_bytes (length (c ∷ bytes)) ≡ true
      → type_matches input.content_type sent ≡ true
      → write_direct_upload io_error
          (dir ∷ parent_dir)
          base_url
          input.key
          (c ∷ bytes)
          input.content_type
          fs
        ≡ (ok stored, fs')
      → upload hmac io_error
          (dir ∷ parent_dir)
          base_url
          hard
          secret
          search_params
          later
          (query_of input u)
          sent
          (buffer (c ∷ bytes))
          fs
        ≡ (ok (record { url = stored.url; file_key = input.key; size = stored.size }), fs')
  unfolding upload
  signed_upload_writes now later input u sent c bytes fs fs' stored sign is_put keyed signature
        some_time early fits matches w =
      let accepts =
        (sign_url-verify hmac search_params secret now input u sign later keyed signature
            some_time).0
          early in
      let accepts' =
        subst
          (λ m.
            verify hmac search_params secret later
              (record (grant_of hmac search_params input u) { method = m })
            ≡ ok accepted)
          is_put accepts in
      rw (accepts', fits, matches, w) refl
