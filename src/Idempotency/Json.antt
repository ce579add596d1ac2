-- ===== src/Idempotency/Json.antt =====
-- `stableStringify` of src/core/interceptors/idempotency.interceptor.ts, over parsed JSON bodies.
-- Numbers are the non-negative integers; texts are quoted and escaped as `JSON.stringify` does.
pub mod Canonical
use project_saas_backend.Common.{
  ℕ, Text, codes, ◌+◌, ◌/◌, ◌%◌, List, [], ◌∷◌, ◌++◌, Bool, true, false, ltb, ◌==◌, if◌then◌else◌,
  ◌||◌,
}
use project_saas_backend.Common.Decimal.{decimal}

mutual
  pub data Value : Type 0 where
    null : Value
    bool : Bool → Value
    num : ℕ → Value
    str : Text → Value
    arr : Items → Value
    obj : Fields → Value

  pub data Items : Type 0 where
    nil : Items
    cons : Value → Items → Items

  -- An object's properties, in the order in which it holds them.
  pub data Fields : Type 0 where
    end : Fields
    field : Text → Value → Fields → Fields

hex_digit : ℕ → ℕ
hex_digit d = if ltb d 10 then d + 48 else d + 87

-- One code unit inside a quoted text.
escape : ℕ → Text
unfolding hex_digit
escape c =
    if c == 34
    then 92 ∷ 34 ∷ []
    else if c == 92
    then 92 ∷ 92 ∷ []
    else if c == 8
    then 92 ∷ b'b' ∷ []
    else if c == 9
    then 92 ∷ b't' ∷ []
    else if c == 10
    then 92 ∷ b'n' ∷ []
    else if c == 12
    then 92 ∷ b'f' ∷ []
    else if c == 13
    then 92 ∷ b'r' ∷ []
    else if ltb c 32
    then 92 ∷ b'u' ∷ 48 ∷ 48 ∷ hex_digit (c / 16) ∷ hex_digit (c % 16) ∷ []
    else c ∷ []

escape_all : Text → Text
unfolding escape
escape_all [] = []
escape_all (c ∷ s) = escape c ++ escape_all s

-- `JSON.stringify` of a text
pub quote : Text → Text
unfolding escape_all
quote s = 34 ∷ escape_all s ++ 34 ∷ []

-- Texts are ordered by code units, as `Array.prototype.sort` does: is `s` before `t`?
unfoldable pub text_lt : Text → Text → Bool
text_lt s [] = false
text_lt [] (b ∷ t) = true
text_lt (a ∷ s) (b ∷ t) = if a == b then text_lt s t else ltb a b

-- A key and the text of its value.
abbrev pub Entry : Type 0
Entry = Text × Text

-- Insertion in the order of the keys.
unfoldable pub insert_sorted : Entry → List Entry → List Entry
unfolding text_lt
insert_sorted e [] = e ∷ []
insert_sorted e (f ∷ l) = if text_lt f.0 e.0 then f ∷ insert_sorted e l else e ∷ f ∷ l

unfoldable pub sort_entries : List Entry → List Entry
unfolding insert_sorted
sort_entries [] = []
sort_entries (e ∷ l) = insert_sorted e (sort_entries l)

print_entry : Entry → Text
unfolding quote
print_entry e = quote e.0 ++ 58 ∷ e.1

join_entries : List Entry → Text
unfolding print_entry
join_entries [] = []
join_entries (e ∷ []) = print_entry e
join_entries (e ∷ f ∷ l) = print_entry e ++ 44 ∷ join_entries (f ∷ l)

abbrev braced : List Entry → Text
braced l = 123 ∷ join_entries (sort_entries l) ++ 125 ∷ []

abbrev show_bool : Bool → Text
show_bool true = codes "true"
show_bool false = codes "false"

-- The values are printed before their keys are sorted: the same text, since printing a value does
-- not depend on where it stands.
unfoldable mutual
  unfolding quote sort_entries join_entries codes decimal

  pub stable_stringify : Value → Text
  stable_stringify null = codes "null"
  stable_stringify (bool b) = show_bool b
  stable_stringify (num n) = decimal n
  stable_stringify (str s) = quote s
  stable_stringify (arr xs) = 91 ∷ stringify_items xs ++ 93 ∷ []
  stable_stringify (obj fs) = braced (entries fs)

  pub stringify_items : Items → Text
  stringify_items nil = []
  stringify_items (cons x nil) = stable_stringify x
  stringify_items (cons x (cons y ys)) = stable_stringify x ++ 44 ∷ stringify_items (cons y ys)

  pub entries : Fields → List Entry
  entries end = []
  entries (field k v fs) = (k, stable_stringify v) ∷ entries fs
