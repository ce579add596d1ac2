-- ===== src/Common/Decimal.antt =====
-- JavaScript's `String(n)` of a non-negative integer: its decimal digits.
use Prim.Native.Nat.{ℕ, zero, suc, ◌+◌, ◌-◌, ◌*◌, ◌/◌, ◌%◌, ◌≤◌, ◌<◌}
use mathlib.Core.Logic.{◌≢◌, inl, inr}
use mathlib.Core.Bool.{false}
use Prim.Native.String
use Prim.Native.String.{String}
use mathlib.Core.Path.{◌≡◌, refl, ap, sym, ◌∙◌}
use mathlib.Core.List.{List, [], ◌∷◌, ◌++◌, map}
use native.Mathlib.Omega.{arith}
use project_saas_backend.Common.Tests.{ltb, ◌==◌, if◌then◌else◌, Bool-cases}
use project_saas_backend.Common.Lists.{any}
use project_saas_backend.Common.Texts.{Text}

-- The fuel bounds the number of digits.
digits : ℕ → ℕ → List ℕ
digits zero n = []
digits (suc f) n = let rest = digits f (n / 10) in if ltb n 10 then n ∷ [] else rest ++ n % 10 ∷ []

-- `n + 1` rounds are enough: each divides by ten.
unfoldable pub decimal : ℕ → Text
unfolding digits
decimal n = map (λ d. d + 48) (digits (suc n) n)

digit_string : ℕ → String
digit_string d =
    if d == 0
    then "0"
    else if d == 1
    then "1"
    else if d == 2
    then "2"
    else if d == 3
    then "3"
    else if d == 4
    then "4"
    else if d == 5
    then "5"
    else if d == 6
    then "6"
    else if d == 7
    then "7"
    else if d == 8
    then "8"
    else "9"

join_digits : List ℕ → String
join_digits [] = ""
join_digits (d ∷ ds) = String.◌++◌ (digit_string d) (join_digits ds)

-- The same as a native text, for names that the program builds from a number.
unfoldable pub decimal_string : ℕ → String
unfolding digits digit_string join_digits
decimal_string n = join_digits (digits (suc n) n)

decimal_runs : decimal_string 40312 ≡ "40312"
unfolding decimal_string
decimal_runs = refl

-- The number that the digits write, and that all of them are below ten.
value_from : ℕ → List ℕ → ℕ
value_from acc [] = acc
value_from acc (d ∷ ds) = value_from (acc * 10 + d) ds

value_from-append :
    (acc : ℕ) (ds : List ℕ) (d : ℕ) → value_from acc (ds ++ d ∷ []) ≡ value_from acc ds * 10 + d
unfolding value_from
value_from-append acc [] d = refl
value_from-append acc (e ∷ ds) d = value_from-append (acc * 10 + e) ds d

value_from-digits : (f n : ℕ) → n < f → value_from 0 (digits f n) ≡ n
unfolding value_from digits
value_from-digits zero n h = absurd (omega (arith, h))
value_from-digits (suc f) n h = elim (Bool-cases (ltb n 10)) [
  | inl small ↦ rw small (omega arith)
  | inr large ↦
      let ten : 10 ≤ n = ground (arith, large) in
      let ih = value_from-digits f (n / 10) (omega (arith, h, ten)) in
      rw large (value_from-append 0 (digits f (n / 10)) (n % 10) ∙ rw ih (omega arith))
]

-- A number is read back from its text: subtracting the code of 0 from each character.
read_back : Text → ℕ
unfolding value_from
read_back s = value_from 0 (map (λ c. c - 48) s)

map_back : (ds : List ℕ) → map (λ c. c - 48) (map (λ d. d + 48) ds) ≡ ds
map_back [] = refl
map_back (d ∷ ds) = let e : d + 48 - 48 ≡ d = omega arith in rw (e, map_back ds) refl

read_back-decimal : (n : ℕ) → read_back (decimal n) ≡ n
unfolding read_back decimal
read_back-decimal n =
    ap (value_from 0) (map_back (digits (suc n) n)) ∙ value_from-digits (suc n) n (omega arith)

-- Different numbers have different texts.
pub decimal-inj : (m n : ℕ) → decimal m ≡ decimal n → m ≡ n
decimal-inj m n h = sym (read_back-decimal m) ∙ ap read_back h ∙ read_back-decimal n

-- No character of a number's text is the line feed, and the text is not empty.
no_line_feed : (ds : List ℕ) → any (λ c. c == 10) (map (λ d. d + 48) ds) ≡ false
no_line_feed [] = refl
no_line_feed (d ∷ ds) = ground (arith, no_line_feed ds)

pub decimal_one_line : (n : ℕ) → any (λ c. c == 10) (decimal n) ≡ false
unfolding decimal
decimal_one_line n = no_line_feed (digits (suc n) n)

append_one : (ds : List ℕ) (d : ℕ) → ds ++ d ∷ [] ≢ []
append_one [] d h = absurd (cc (h))
append_one (e ∷ ds) d h = absurd (cc (h))

digits_some : (f n : ℕ) → digits (suc f) n ≢ []
unfolding digits
digits_some f n h = elim (Bool-cases (ltb n 10)) [
  | inl small ↦ absurd (cc (h, small))
  | inr large ↦ append_one (digits f (n / 10)) (n % 10) (cc (h, large))
]

map_some : (ds : List ℕ) → ds ≢ [] → map (λ d. d + 48) ds ≢ []
map_some [] ne h = ne refl
map_some (d ∷ ds) ne h = absurd (cc (h))

pub decimal_some : (n : ℕ) → decimal n ≢ []
unfolding decimal
decimal_some n = map_some (digits (suc n) n) (digits_some n n)
