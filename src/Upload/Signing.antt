-- ===== src/Upload/Signing.antt =====
-- What a signed URL grants: its own parameters until it expires, and nothing else, as long as no line
-- feed is in the key or the content type.
use mathlib.Core.Path.{ap₂}
use project_saas_backend.Common.{
  append_assoc, ℕ, ◌*◌, ◌≤◌, ◌<◌, Text, codes, text_eq, text_eq_iff, text_eq_refl, Option, none,
  some, List, [], ◌∷◌, ◌++◌, Bool, true, false, ◌≡◌, refl, sym, ap, ◌∙◌, arith, inl, inr, ◌||◌, ltb,
  ◌==◌, ==_iff, get_or, length, any, Bool-cases,
}
use project_saas_backend.Common.Decimal.{decimal, decimal-inj, decimal_one_line, decimal_some}
use project_saas_backend.Common.Result.{Result, ok, err}
use project_saas_backend.Errors.{Thrown}
use project_saas_backend.Upload.SignedUrl.{
  Method, put, get, delete, post, method_text, Expire, nan, infinite, negative, whole, SignInput,
  SignedUrl, Grant, max_text, canonical, is_empty, accepted, expired, compute_signature, sign_url,
  compare_signatures, check_expire, verify, expire_at,
}

abbrev pub OneLine : Text → Type 0
OneLine s = any (λ c. c == 10) s ≡ false

or_false : (a b : Bool) → (a || b) ≡ false → (a ≡ false) × (b ≡ false)
or_false true b h = absurd (cc (h))
or_false false b h = (refl, h)

-- Texts that are each followed by a line feed are told apart.
lines-inj :
    (a b s t : Text) → OneLine a → OneLine b → (a ++ 10 ∷ s) ≡ (b ++ 10 ∷ t) → (a ≡ b) × (s ≡ t)
lines-inj [] [] s t ha hb e = (refl, cc (e))
lines-inj [] (d ∷ b) s t ha hb e = absurd (ground (arith, e, hb))
lines-inj (c ∷ a) [] s t ha hb e = absurd (ground (arith, e, ha))
lines-inj (c ∷ a) (d ∷ b) s t ha hb e =
    let (c_line, a_line) = or_false (c == 10) (any (λ x. x == 10) a) ha in
    let (d_line, b_line) = or_false (d == 10) (any (λ x. x == 10) b) hb in
    let heads : c ≡ d = cc (e) in
    let tails : (a ++ 10 ∷ s) ≡ (b ++ 10 ∷ t) = cc (e) in
    let (same, rest) = lines-inj a b s t a_line b_line tails in
    (ap₂ (λ x l. x ∷ l) heads same, rest)

method-OneLine : (m : Method) → OneLine (method_text m)
unfolding method_text codes
method-OneLine put = refl
method-OneLine get = refl
method-OneLine delete = refl
method-OneLine post = refl

texts_apart : {A : Type 0} (a b : Text) → text_eq a b ≡ false → a ≡ b → A
texts_apart a b differ e = absurd (cc (((text_eq_iff a b).1 e), differ))

method_text-inj : (m n : Method) → method_text m ≡ method_text n → m ≡ n
unfolding method_text codes text_eq
method_text-inj put put e = refl
method_text-inj put get e = texts_apart (method_text put) (method_text get) refl e
method_text-inj put delete e = texts_apart (method_text put) (method_text delete) refl e
method_text-inj get put e = texts_apart (method_text get) (method_text put) refl e
method_text-inj get get e = refl
method_text-inj get delete e = texts_apart (method_text get) (method_text delete) refl e
method_text-inj delete put e = texts_apart (method_text delete) (method_text put) refl e
method_text-inj delete get e = texts_apart (method_text delete) (method_text get) refl e
method_text-inj delete delete e = refl
method_text-inj put post e = texts_apart (method_text put) (method_text post) refl e
method_text-inj post put e = texts_apart (method_text post) (method_text put) refl e
method_text-inj get post e = texts_apart (method_text get) (method_text post) refl e
method_text-inj post get e = texts_apart (method_text post) (method_text get) refl e
method_text-inj delete post e = texts_apart (method_text delete) (method_text post) refl e
method_text-inj post delete e = texts_apart (method_text post) (method_text delete) refl e
method_text-inj post post e = refl

max_text-inj : (m n : Option ℕ) → max_text m ≡ max_text n → m ≡ n
max_text-inj none none e = refl
max_text-inj none (some n) e = absurd (decimal_some n (sym e))
max_text-inj (some m) none e = absurd (decimal_some m e)
max_text-inj (some m) (some n) e = ap some (decimal-inj m n e)

-- The signed text determines its fields, an absent content type counting as an empty one.
canonical-inj :
    (m m' : Method) (k k' : Text) (e e' : ℕ) (c c' : Option Text) (x x' : Option ℕ)
    → OneLine k
    → OneLine k'
    → OneLine (get_or c [])
    → OneLine (get_or c' [])
    → canonical m k e c x ≡ canonical m' k' e' c' x'
    → (m ≡ m') × (k ≡ k') × (e ≡ e') × (get_or c [] ≡ get_or c' []) × (x ≡ x')
unfolding canonical
canonical-inj m m' k k' e e' c c' x x' hk hk' hc hc' h =
    let (hm, h₁) =
      lines-inj (method_text m) (method_text m') _ _ (method-OneLine m) (method-OneLine m') h in
    let (hk₂, h₂) = lines-inj k k' _ _ hk hk' h₁ in
    let (he, h₃) =
      lines-inj (decimal e) (decimal e') _ _ (decimal_one_line e) (decimal_one_line e') h₂ in
    let (hct, h₄) = lines-inj (get_or c []) (get_or c' []) _ _ hc hc' h₃ in
    (method_text-inj m m' hm, hk₂, decimal-inj e e' he, hct, max_text-inj x x' h₄)

two_readings :
    (m : Method) (k : Text) (e f : ℕ) (c : Option Text) (x : Option ℕ)
    → canonical m k e (some (decimal f ++ 10 ∷ get_or c [])) x
      ≡ canonical m (k ++ 10 ∷ decimal e) f c x
unfolding canonical
two_readings m k e f c x =
    let ct = get_or c [] in
    let tail = 10 ∷ ct ++ 10 ∷ max_text x in
    ap (λ t. method_text m ++ 10 ∷ t)
      (ap (λ t. k ++ 10 ∷ (decimal e ++ 10 ∷ t))
          (append_assoc (decimal f) (10 ∷ ct) (10 ∷ max_text x))
        ∙ sym (append_assoc k (10 ∷ decimal e) (10 ∷ decimal f ++ tail)))

module _ (hmac : Text → Text → Text) (search_params : List (Text × Text) → Text) where
  compare_same : (t : Text) → compare_signatures hmac search_params t (ok t) ≡ ok accepted
  compare_same t = let e = (==_iff (length t) (length t)).1 refl in rw (e, text_eq_refl t) refl

  compare_accepted :
      (given expected : Text)
      → compare_signatures hmac search_params given (ok expected) ≡ ok accepted
      → expected ≡ given
  compare_accepted given expected h = elim (Bool-cases (length expected == length given)) [
    | inr differ ↦ absurd (cc (h, differ))
    | inl long ↦ elim (Bool-cases (text_eq expected given)) [
      | inl same ↦ (text_eq_iff expected given).0 same
      | inr differ ↦ absurd (cc (h, long, differ))
    ]
  ]

  signature_ok :
      (s : Text) (m : Method) (k : Text) (e : ℕ) (c : Option Text) (x : Option ℕ)
      → is_empty s ≡ false
      → compute_signature hmac search_params s m k e c x ≡ ok (hmac s (canonical m k e c x))
  signature_ok [] m k e c x h = absurd (cc (h))
  signature_ok (b ∷ s) m k e c x h = refl

  -- A URL is signed only with a secret; its signature is that of the signed text.
  sign_url_is :
      (s : Text) (now : ℕ) (input : SignInput) (u : SignedUrl)
      → sign_url hmac search_params s now input ≡ ok u
      → (is_empty s ≡ false)
        × (u.expire_at ≡ expire_at hmac search_params now input.expire_seconds)
        × (u.signature
            ≡ hmac s (
                canonical input.method input.key
                  (expire_at hmac search_params now input.expire_seconds)
                  input.content_type
                  input.max_size_bytes))
  unfolding sign_url
  sign_url_is [] now input u h = absurd (cc (h))
  sign_url_is (b ∷ s) now input u h =
      (refl, ap (read_expire u) (sym h), ap (read_signature u) (sym h))
    where
      read_expire : SignedUrl → Result Thrown SignedUrl → ℕ
      read_expire v (ok w) = w.expire_at
      read_expire v (err e) = v.expire_at

      read_signature : SignedUrl → Result Thrown SignedUrl → Text
      read_signature v (ok w) = w.signature
      read_signature v (err e) = v.signature

  check_accepts :
      (s : Text) (later : ℕ) (g : Grant) (e : Expire)
      → check_expire hmac search_params s later g e ≡ ok accepted
      → (n : ℕ) × (e ≡ whole n)
        × (later ≤ n * 1000)
        × (compare_signatures hmac search_params g.signature
              (compute_signature hmac search_params s g.method g.key n g.content_type g.max_size)
            ≡ ok accepted)
  check_accepts s later g nan h = absurd (cc (h))
  check_accepts s later g infinite h = absurd (cc (h))
  check_accepts s later g negative h = absurd (cc (h))
  check_accepts s later g (whole n) h = elim (Bool-cases (n == 0)) [
    | inl zero_time ↦ absurd (cc (h, zero_time))
    | inr some_time ↦ elim (Bool-cases (ltb (n * 1000) later)) [
      | inl over ↦ absurd (cc (h, some_time, over))
      | inr in_time ↦ (n, refl, ground (arith, in_time), cc (h, some_time, in_time))
    ]
  ]

  verify_accepts :
      (s : Text) (later : ℕ) (g : Grant)
      → verify hmac search_params s later g ≡ ok accepted
      → (n : ℕ) × (g.expire ≡ whole n)
        × (later ≤ n * 1000)
        × (compare_signatures hmac search_params g.signature
              (compute_signature hmac search_params s g.method g.key n g.content_type g.max_size)
            ≡ ok accepted)
  unfolding verify
  verify_accepts s later g h = elim (Bool-cases (is_empty g.key || is_empty g.signature)) [
    | inl lacking ↦ absurd (cc (h, lacking))
    | inr present ↦ check_accepts s later g g.expire (cc (h, present))
  ]

  -- What the holder of a signed URL sends back.
  abbrev pub grant_of : SignInput → SignedUrl → Grant
  grant_of input u = record {
    method = input.method;
    key = input.key;
    expire = whole u.expire_at;
    content_type = input.content_type;
    max_size = input.max_size_bytes;
    signature = u.signature;
  }

  module _ (s : Text) (now : ℕ) (input : SignInput) (u : SignedUrl)
      (sign : sign_url hmac search_params s now input ≡ ok u) where
    -- The parameters of a signed URL with a key and a signature are accepted until the second at
    -- which it expires, and answered with "expired" after it.
    pub sign_url-verify :
        (later : ℕ)
        → is_empty input.key ≡ false
        → is_empty u.signature ≡ false
        → 0 < u.expire_at
        → (later ≤ u.expire_at * 1000
            → verify hmac search_params s later (grant_of input u) ≡ ok accepted)
          × (u.expire_at * 1000 < later
              → verify hmac search_params s later (grant_of input u) ≡ ok expired)
    unfolding verify
    sign_url-verify later keyed some_signature some_time =
        let (configured, at, is) = sign_url_is s now input u sign in
        let not_zero : (u.expire_at == 0) ≡ false = ground (arith, some_time) in
        (
          (λ early.
              let in_time : ltb (u.expire_at * 1000) later ≡ false = ground (arith, early) in
              rw (keyed, some_signature, not_zero, in_time)
                (ap (compare_signatures hmac search_params u.signature) (
                    signature_ok s input.method input.key u.expire_at input.content_type
                      input.max_size_bytes configured
                    ∙ ap ok (
                        ap
                          (λ e. hmac s (
                            canonical input.method input.key e input.content_type
                              input.max_size_bytes))
                          at
                        ∙ sym is))
                  ∙ compare_same u.signature)),
          λ late.
              let over : ltb (u.expire_at * 1000) later ≡ true = ground (arith, late) in
              rw (keyed, some_signature, not_zero, over) refl,
        )

    -- With an HMAC that tells texts apart, a request that carries the signature of a signed URL is
    -- accepted only with the URL's own method, key, expiry, content type (an absent one counting as
    -- empty) and maximal size, and only before the expiry, when no line feed is in the keys and the
    -- content types.
    pub verify_grants :
        (later : ℕ) (g : Grant)
        → ((x y : Text) → hmac s x ≡ hmac s y → x ≡ y)
        → OneLine input.key
        → OneLine g.key
        → OneLine (get_or input.content_type [])
        → OneLine (get_or g.content_type [])
        → g.signature ≡ u.signature
        → verify hmac search_params s later g ≡ ok accepted
        → (g.method ≡ input.method)
          × (g.key ≡ input.key)
          × (g.expire ≡ whole u.expire_at)
          × (get_or g.content_type [] ≡ get_or input.content_type [])
          × (g.max_size ≡ input.max_size_bytes)
          × (later ≤ u.expire_at * 1000)
    verify_grants later g inj hk hk' hc hc' carries accepts =
        let (n, whole_n, early, compared) = verify_accepts s later g accepts in
        let (configured, at, is) = sign_url_is s now input u sign in
        let same_text =
          inj (canonical g.method g.key n g.content_type g.max_size)
            (canonical input.method input.key
              (expire_at hmac search_params now input.expire_seconds) input.content_type
              input.max_size_bytes)
            (compare_accepted g.signature
                (hmac s (canonical g.method g.key n g.content_type g.max_size))
                (ap (compare_signatures hmac search_params g.signature)
                    (sym (signature_ok s g.method g.key n g.content_type g.max_size configured))
                  ∙ compared)
              ∙ carries
              ∙ is) in
        let (m, k, e, c, x) =
          canonical-inj g.method input.method g.key input.key n
            (expire_at hmac search_params now input.expire_seconds) g.content_type
            input.content_type g.max_size input.max_size_bytes hk' hk hc' hc same_text in
        let end : n ≡ u.expire_at = e ∙ sym at in
        (m, k, whole_n ∙ ap whole end, c, x, omega (arith, early, end))

    -- With a line feed in the signed key the signature covers other parameters too: where the key is
    -- another key, a line feed and a number, the same signature is accepted for the other key, with
    -- that number as its expiry, whenever the URL itself expires.
    pub line_feed_forges :
        (k : Text) (e later : ℕ)
        → input.key ≡ (k ++ 10 ∷ decimal e)
        → is_empty k ≡ false
        → is_empty u.signature ≡ false
        → 0 < e
        → later ≤ e * 1000
        → verify hmac search_params s later (record {
          method = input.method;
          key = k;
          expire = whole e;
          content_type = some (decimal u.expire_at ++ 10 ∷ get_or input.content_type []);
          max_size = input.max_size_bytes;
          signature = u.signature;
        })
          ≡ ok accepted
    unfolding verify
    line_feed_forges k e later key_is keyed some_signature some_time early =
        let (configured, at, is) = sign_url_is s now input u sign in
        let not_zero : (e == 0) ≡ false = ground (arith, some_time) in
        let in_time : ltb (e * 1000) later ≡ false = ground (arith, early) in
        let c = some (decimal u.expire_at ++ 10 ∷ get_or input.content_type []) in
        let text : canonical input.method k e c input.max_size_bytes
            ≡ canonical input.method input.key
                (expire_at hmac search_params now input.expire_seconds) input.content_type
                input.max_size_bytes =
          two_readings input.method k e u.expire_at input.content_type input.max_size_bytes
          ∙ ap₂ (λ x y. canonical input.method x y input.content_type input.max_size_bytes)
              (sym key_is) at in
        rw (keyed, some_signature, not_zero, in_time)
          (ap (compare_signatures hmac search_params u.signature) (
              signature_ok s input.method k e c input.max_size_bytes configured
              ∙ ap ok (ap (hmac s) text ∙ sym is))
            ∙ compare_same u.signature)
