-- ===== src/Common/Trim.antt =====
-- `String.prototype.trim`: the white space and the line ends of JavaScript.
use project_saas_backend.Common.{
  ℕ, Text, [], ◌∷◌, ◌++◌, Bool, true, false, ◌||◌, ◌&&◌, ◌==◌, ◌≡◌, leb, if◌then◌else◌, All, refl,
  ap, ◌∙◌, Bool-cases, inl, inr,
}

-- Tab to carriage return, space, no-break space, the spaces of Unicode, the line and the paragraph
-- separator, and the byte order mark.
unfoldable pub is_space : ℕ → Bool
is_space c =
    c == 32
    || leb 9 c && leb c 13
    || c == 160
    || c == 5760
    || leb 8192 c && leb c 8202
    || c == 8232
    || c == 8233
    || c == 8239
    || c == 8287
    || c == 12288
    || c == 65279

trim_start : Text → Text
unfolding is_space
trim_start [] = []
trim_start (c ∷ s) = let rest = trim_start s in if is_space c then rest else c ∷ s

keep_space : ℕ → Text → Text
unfolding is_space
keep_space c [] = if is_space c then [] else c ∷ []
keep_space c (d ∷ s) = c ∷ d ∷ s

trim_end : Text → Text
unfolding keep_space
trim_end [] = []
trim_end (c ∷ s) = keep_space c (trim_end s)

unfoldable pub trim : Text → Text
unfolding trim_start trim_end
trim s = trim_end (trim_start s)

abbrev pub starts_blank : Text → Bool
starts_blank [] = false
starts_blank (c ∷ s) = is_space c

abbrev pub ends_blank : Text → Bool
ends_blank [] = false
ends_blank (c ∷ []) = is_space c
ends_blank (c ∷ d ∷ s) = ends_blank (d ∷ s)

abbrev pub Blank : Text → Type 0
Blank s = All (λ c. is_space c ≡ true) s

-- The text without the white space at both of its ends.
pub record Trimmed (s t : Text) : Type 0 where
  pub before : Text
  pub after : Text
  pub parts : s ≡ before ++ (t ++ after)
  pub blank_before : Blank before
  pub blank_after : Blank after
  pub no_start : starts_blank t ≡ false
  pub no_end : ends_blank t ≡ false

start_trimmed :
    (s : Text)
    → (before : Text) × (s ≡ before ++ trim_start s)
      × Blank before
      × (starts_blank (trim_start s) ≡ false)
unfolding trim_start
start_trimmed [] = ([], refl, tt, refl)
start_trimmed (c ∷ s) = elim (Bool-cases (is_space c)) [
  | inl blank ↦
      let (b, e, all, clean) = start_trimmed s in
      (c ∷ b, rw blank (ap (λ t. c ∷ t) e), (blank, all), rw blank clean)
  | inr solid ↦ ([], rw solid refl, tt, rw solid solid)
]

kept :
    (c : ℕ) (s t a : Text)
    → s ≡ t ++ a
    → Blank a
    → ends_blank t ≡ false
    → (after : Text) × (c ∷ s ≡ keep_space c t ++ after)
      × Blank after
      × (ends_blank (keep_space c t) ≡ false)
      × (starts_blank (c ∷ s) ≡ false → starts_blank (keep_space c t) ≡ false)
unfolding keep_space
kept c s [] a e all clean = elim (Bool-cases (is_space c)) [
  | inl blank ↦
      (c ∷ a, rw blank (ap (λ r. c ∷ r) e), (blank, all), rw blank refl, λ h. rw blank refl)
  | inr solid ↦ (a, rw solid (ap (λ r. c ∷ r) e), all, rw solid solid, λ h. rw solid solid)
]
kept c s (d ∷ t) a e all clean = (a, ap (λ r. c ∷ r) e, all, clean, λ h. h)

end_trimmed :
    (s : Text)
    → (after : Text) × (s ≡ trim_end s ++ after)
      × Blank after
      × (ends_blank (trim_end s) ≡ false)
      × (starts_blank s ≡ false → starts_blank (trim_end s) ≡ false)
unfolding trim_end
end_trimmed [] = ([], refl, tt, refl, λ h. h)
end_trimmed (c ∷ s) =
    let (a, e, all, clean, first) = end_trimmed s in kept c s (trim_end s) a e all clean

-- Trimming takes off the white space at both ends, all of it and nothing else.
pub trim-Trimmed : (s : Text) → Trimmed s (trim s)
unfolding trim
trim-Trimmed s =
    let (b, e, blank, clean) = start_trimmed s in
    let (a, f, blank', clean', first) = end_trimmed (trim_start s) in
    record {
      before = b;
      after = a;
      parts = e ∙ ap (λ t. b ++ t) f;
      blank_before = blank;
      blank_after = blank';
      no_start = first clean;
      no_end = clean';
    }
