-- ===== src/Upload/Acceptance.antt =====
-- Which files the validator accepts, and what is known of the bytes of an accepted file; the rules
-- of the shipped registry.
use mathlib.Core.Path.{subst}
use project_saas_backend.Common.{
  ℕ, ◌*◌, ◌≤◌, Text, codes, text_eq, text_eq_iff, text_eq_refl, All, Option, none, some, List, [],
  ◌∷◌, ◌++◌, Bool, true, false, ◌≡◌, ◌↔◌, ◌⊎◌, refl, sym, ap, ◌∙◌, arith, inl, inr, not, ◌&&◌, ◌||◌,
  ltb, if◌then◌else◌, length, take, Bool-cases,
}
use project_saas_backend.Common.Result.{Result, ok, err}
use project_saas_backend.Errors.{Thrown}
use project_saas_backend.Upload.Registry.{
  FileTypeConfig, FileTypeRegistry, load_file_type_registry, entry, get_file_type_config,
  get_max_file_size, register_file_type, is_allowed_mime_type, should_encrypt, known, cap_or, mb,
  media, office, kyc, Processing,
}
use project_saas_backend.Upload.Validator
use project_saas_backend.Upload.Validator.{
  MulterFile, ValidationError, validate, validate_mime_type, validate_size, validate_content,
  content_ok, has_signature, Format, format_of, jpeg, png, when_not, ok_or_false, error,
}

allowed_true :
    (o : Result Thrown Bool) (reg : FileTypeRegistry) → (ok_or_false reg 0 o ≡ true) ↔ (o ≡ ok true)
allowed_true (ok true) reg = (λ h. refl, λ h. refl)
allowed_true (ok false) reg = (λ h. absurd (cc (h)), λ h. absurd (cc (h)))
allowed_true (err e) reg = (λ h. absurd (cc (h)), λ h. absurd (cc (h)))

no_errors :
    (reg : FileTypeRegistry) (a b c : Bool) (e f g : ValidationError)
    → (when_not reg 0 a e ++ when_not reg 0 b f ++ when_not reg 0 c g ≡ [])
      ↔ ((a ≡ true) × (b ≡ true) × (c ≡ true))
no_errors reg true true true e f g = (λ h. (refl, refl, refl), λ h. refl)
no_errors reg false b c e f g = (λ h. absurd (cc (h)), λ h. absurd (cc (h.0)))
no_errors reg true false c e f g = (λ h. absurd (cc (h)), λ h. absurd (cc (h.1)))
no_errors reg true true false e f g = (λ h. absurd (cc (h)), λ h. absurd (cc (h.2)))

-- The content is what the MIME type says: bytes that cannot be read are not looked at, others are
-- four at least and have the signature of the type, where the validator knows one.
abbrev pub Genuine : Text → Option (List ℕ) → Type 0
Genuine mime none = Unit
Genuine mime (some bytes) =
    (4 ≤ length bytes) × (has_signature (format_of mime) (take 16 bytes) ≡ true)

content_iff :
    (reg : FileTypeRegistry) (max_file_size : ℕ) (content : Option (List ℕ)) (mime : Text)
    → (content_ok reg max_file_size content mime ≡ true) ↔ Genuine mime content
unfolding validate_content
content_iff reg max_file_size none mime = (λ h. tt, λ h. refl)
content_iff reg max_file_size (some bytes) mime = elim (Bool-cases (ltb (length bytes) 4)) [
  | inl short ↦
      (λ h. absurd (cc (h, short)), λ h. let low = h.0 in absurd (ground (arith, short, low)))
  | inr long ↦ (λ h. (ground (arith, long), cc (h, long)), λ h. cc (h.1, long))
]

module _ (reg : FileTypeRegistry) (max_file_size : ℕ) where
  -- A file has no validation error exactly when its type is known and allows its MIME type, its size
  -- is at most the cap of its type, and its bytes, where they can be read, are four at least and have
  -- the signature of the MIME type, where the validator knows one.
  pub validate_accepts :
      (file : MulterFile) (t : Text)
      → (validate reg max_file_size file t ≡ []) ↔ (
          (is_allowed_mime_type reg t file.mimetype ≡ ok true)
          × (file.size ≤ get_max_file_size reg max_file_size (some t))
          × Genuine file.mimetype file.content)
  unfolding validate validate_mime_type validate_size
  validate_accepts file t =
      let (f, g) =
        no_errors reg (validate_mime_type reg max_file_size file.mimetype t)
          (validate_size reg max_file_size file.size (some t))
          (content_ok reg max_file_size file.content file.mimetype) _ _ _ in
      let (mf, mg) = allowed_true (is_allowed_mime_type reg t file.mimetype) reg in
      let (cf, cg) = content_iff reg max_file_size file.content file.mimetype in
      (
        λ h. let (a, b, c) = f h in (mf a, ground (arith, b), cf c),
        λ h. g (mg h.0, ground (arith, h.1), cg h.2),
      )

entry-register :
    (reg : FileTypeRegistry) (t u : Text) (c : FileTypeConfig)
    → (entry (register_file_type t c reg) t ≡ some c)
      × (text_eq t u ≡ false → entry (register_file_type t c reg) u ≡ entry reg u)
unfolding entry register_file_type
entry-register [] t u c = (rw (text_eq_refl t) refl, λ other. rw other refl)
entry-register ((v, d) ∷ reg) t u c =
    let (ih, ih') = entry-register reg t u c in
    elim (Bool-cases (text_eq v t)) [
      | inl same ↦ (
        rw same (rw same refl),
        λ other.
            rw same
              (rw (subst (λ w. text_eq w u ≡ false) (sym ((text_eq_iff v t).0 same)) other) refl),
      )
      | inr differ ↦ (
        rw differ (rw differ ih),
        λ other. rw differ (ap (λ o. if text_eq v u then some d else o) (ih' other)),
      )
    ]

-- Registering a file type is seen for that type and changes no other.
pub register_file_type-get :
    (reg : FileTypeRegistry) (t u : Text) (c : FileTypeConfig)
    → (get_file_type_config (register_file_type t c reg) t ≡ ok c)
      × (text_eq t u ≡ false
          → get_file_type_config (register_file_type t c reg) u ≡ get_file_type_config reg u)
unfolding get_file_type_config
register_file_type-get reg t u c =
    let (mine, rest) = entry-register reg t u c in
    (ap (known t) mine, λ other. ap (known u) (rest other))

-- What the entries of the shipped registry have in common.
record Private (c : FileTypeConfig) : Type 0 where
  secret : c.encrypted ≡ not c.is_public
  cap : ℕ
  capped : c.max_file_size_bytes ≡ some cap
  some_cap : 1 ≤ cap
  bounded : cap ≤ 500 * 1024 * 1024

entry-All :
    (P : FileTypeConfig → Type 0) (reg : FileTypeRegistry) (t : Text) (c : FileTypeConfig)
    → All (λ (p : Text × FileTypeConfig). P p.1) reg
    → entry reg t ≡ some c
    → P c
unfolding entry
entry-All P [] t c all found = absurd (cc (found))
entry-All P ((u, d) ∷ reg) t c all found = elim (Bool-cases (text_eq u t)) [
  | inl same ↦ subst P (cc (found, same)) all.0
  | inr other ↦ entry-All P reg t c all.1 (cc (found, other))
]

media-Private :
    (types : List Text) (n : ℕ) (p : Option Processing) (ttl : ℕ)
    → 1 ≤ n
    → n ≤ 500
    → Private (media types n p ttl)
media-Private types n p ttl low high = record {
  secret = refl;
  cap = n * mb;
  capped = refl;
  some_cap = omega (arith, low);
  bounded = omega (arith, high);
}

office-Private : (types : List Text) (n days : ℕ) → 1 ≤ n → n ≤ 500 → Private (office types n days)
office-Private types n days low high = record {
  secret = refl;
  cap = n * mb;
  capped = refl;
  some_cap = omega (arith, low);
  bounded = omega (arith, high);
}

kyc-Private : Private kyc
kyc-Private = record {
  secret = refl;
  cap = 5 * mb;
  capped = refl;
  some_cap = omega arith;
  bounded = omega arith;
}

shipped_Private : All (λ (p : Text × FileTypeConfig). Private p.1) load_file_type_registry
unfolding load_file_type_registry
shipped_Private = (
  media-Private _ 5 _ _ (omega arith) (omega arith),
  (
    media-Private _ 25 _ _ (omega arith) (omega arith),
    (
      media-Private _ 500 _ _ (omega arith) (omega arith),
      (
        media-Private _ 50 _ _ (omega arith) (omega arith),
        (
          office-Private _ 25 _ (omega arith) (omega arith),
          (
            office-Private _ 25 _ (omega arith) (omega arith),
            (
              office-Private _ 50 _ (omega arith) (omega arith),
              (
                office-Private _ 100 _ (omega arith) (omega arith),
                (kyc-Private, (kyc-Private, (kyc-Private, tt))),
              ),
            ),
          ),
        ),
      ),
    ),
  ),
)

known-some :
    (t : Text) (o : Option FileTypeConfig) (c : FileTypeConfig) → known t o ≡ ok c → o ≡ some c
known-some t none c h = absurd (cc (h))
known-some t (some d) c h = cc

cap_is : (size n : ℕ) → 1 ≤ n → cap_or size (some n) ≡ n
cap_is size n h = ground arith

cap_found :
    (reg : FileTypeRegistry) (t : Text) (c : FileTypeConfig) (n : ℕ)
    → entry reg t ≡ some c
    → c.max_file_size_bytes ≡ some n
    → 1 ≤ n
    → get_max_file_size reg 0 (some t) ≤ n
unfolding get_max_file_size
cap_found reg [] c n found capped low = omega (arith, low)
cap_found reg (x ∷ t) c n found capped low =
    rw found (rw capped (let e = cap_is 0 n low in omega (arith, e)))

and_true : (b : Bool) → (b && true) ≡ b
and_true true = refl
and_true false = refl

and_false : (b : Bool) → (b && false) ≡ false
and_false true = refl
and_false false = refl

-- In the shipped registry a type is encrypted exactly when it is not public, its cap is set and at
-- most 500 MB, and with encryption on its files are encrypted exactly when they are not public.
pub registry_private :
    (t : Text) (c : FileTypeConfig)
    → get_file_type_config load_file_type_registry t ≡ ok c
    → (c.encrypted ≡ not c.is_public)
      × (get_max_file_size load_file_type_registry 0 (some t) ≤ 500 * 1024 * 1024)
      × (should_encrypt load_file_type_registry true t ≡ ok (not c.is_public))
      × (should_encrypt load_file_type_registry false t ≡ ok false)
unfolding should_encrypt
registry_private t c h =
    let found = known-some t (entry load_file_type_registry t) c h in
    let p = entry-All Private load_file_type_registry t c shipped_Private found in
    let cap = cap_found load_file_type_registry t c p.cap found p.capped p.some_cap in
    let bound = p.bounded in
    (
      p.secret,
      omega (arith, cap, bound),
      rw h (ap ok (and_true c.encrypted ∙ p.secret)),
      rw h (ap ok (and_false c.encrypted)),
    )

signature_by :
    (bytes : List ℕ) (mime literal : Text) (f : Format)
    → text_eq literal mime ≡ true
    → format_of literal ≡ f
    → has_signature (format_of mime) (take 16 bytes) ≡ true
    → has_signature f (take 16 bytes) ≡ true
signature_by bytes mime literal f e typed h =
    subst (λ g. has_signature g (take 16 bytes) ≡ true)
      (ap format_of (sym ((text_eq_iff literal mime).0 e)) ∙ typed) h

jpeg_type : format_of (codes "image/jpeg") ≡ jpeg
unfolding format_of
jpeg_type = refl

png_type : format_of (codes "image/png") ≡ png
unfolding format_of
png_type = refl

webp_type : format_of (codes "image/webp") ≡ Validator.webp
unfolding format_of
webp_type = refl

third :
    (a b c : Bool)
    → Path (Result Thrown Bool) (ok (a || (b || (c || false)))) (ok true)
    → a ≡ false
    → b ≡ false
    → c ≡ true
third true b c h ha hb = absurd (cc (ha))
third false true c h ha hb = absurd (cc (hb))
third false false true h ha hb = refl
third false false false h ha hb = absurd (cc (h))

-- The bytes of an accepted avatar, where they can be read, start with the signature of JPEG, PNG or
-- WebP.
pub avatar_signature :
    (max_file_size : ℕ) (file : MulterFile) (bytes : List ℕ)
    → validate load_file_type_registry max_file_size file (codes "avatar") ≡ []
    → file.content ≡ some bytes
    → (has_signature jpeg (take 16 bytes) ≡ true)
      ⊎ ((has_signature png (take 16 bytes) ≡ true)
          ⊎ (has_signature Validator.webp (take 16 bytes) ≡ true))
unfolding is_allowed_mime_type load_file_type_registry get_file_type_config entry text_eq codes
avatar_signature max_file_size file bytes accepted read =
    let (allowed, small, content) =
      (validate_accepts load_file_type_registry max_file_size file (codes "avatar")).0 accepted in
    let ok_content = (subst (Genuine file.mimetype) read content).1 in
    elim (Bool-cases (text_eq (codes "image/jpeg") file.mimetype)) [
      | inl e ↦
          inl (signature_by bytes file.mimetype (codes "image/jpeg") jpeg e jpeg_type ok_content)
      | inr not_jpeg ↦ elim (Bool-cases (text_eq (codes "image/png") file.mimetype)) [
        | inl e ↦
            inr
              (inl (signature_by bytes file.mimetype (codes "image/png") png e png_type ok_content))
        | inr not_png ↦
            let e =
              third _ _ (text_eq (codes "image/webp") file.mimetype) allowed not_jpeg not_png in
            inr (
              inr (
                signature_by bytes file.mimetype (codes "image/webp") Validator.webp e webp_type
                  ok_content))
      ]
    ]
