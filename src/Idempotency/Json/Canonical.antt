-- ===== src/Idempotency/Json/Canonical.antt =====
-- The text of a JSON value does not depend on the order of the properties of its objects.
use mathlib.Core.Path.{ap₂}
use project_saas_backend.Common.{
  Text, text_eq, List, [], ◌∷◌, ◌++◌, true, false, ◌≡◌, refl, ap, ◌∙◌, arith,
}
use project_saas_backend.Idempotency.Json.{
  Value, arr, obj, Items, nil, cons, Fields, end, field, text_lt, Entry, insert_sorted,
  sort_entries, join_entries, stable_stringify, stringify_items, entries,
}

lt_asym : (s t : Text) → text_lt s t ≡ true → text_lt t s ≡ false
unfolding text_lt
lt_asym [] [] h = cc
lt_asym [] (b ∷ t) h = refl
lt_asym (a ∷ s) [] h = cc
lt_asym (a ∷ s) (b ∷ t) h = ground (arith, lt_asym s t)

lt_total : (s t : Text) → text_eq s t ≡ false → text_lt s t ≡ false → text_lt t s ≡ true
unfolding text_lt text_eq
lt_total [] [] ne h = cc
lt_total [] (b ∷ t) ne h = cc
lt_total (a ∷ s) [] ne h = refl
lt_total (a ∷ s) (b ∷ t) ne h = ground (arith, lt_total s t)

-- f ≤ g < e
lt_of_le_of_lt : (f g e : Text) → text_lt g f ≡ false → text_lt g e ≡ true → text_lt f e ≡ true
unfolding text_lt
lt_of_le_of_lt f g [] h k = cc
lt_of_le_of_lt [] g (c ∷ e) h k = refl
lt_of_le_of_lt (a ∷ f) [] (c ∷ e) h k = cc
lt_of_le_of_lt (a ∷ f) (b ∷ g) (c ∷ e) h k = ground (arith, lt_of_le_of_lt f g e)

insert_comm :
    (e f : Entry) (l : List Entry)
    → text_eq e.0 f.0 ≡ false
    → text_eq f.0 e.0 ≡ false
    → insert_sorted e (insert_sorted f l) ≡ insert_sorted f (insert_sorted e l)
unfolding insert_sorted
insert_comm e f [] ne ne' =
    ground (arith, lt_asym f.0 e.0, lt_asym e.0 f.0, lt_total f.0 e.0, lt_total e.0 f.0)
insert_comm e f (g ∷ l) ne ne' = ground (
  arith,
  insert_comm e f l ne ne',
  lt_asym f.0 e.0,
  lt_asym e.0 f.0,
  lt_total f.0 e.0,
  lt_total e.0 f.0,
  lt_of_le_of_lt f.0 g.0 e.0,
  lt_of_le_of_lt e.0 g.0 f.0,
)

-- Two values that differ at most in the order of the properties of their objects, at any depth.
mutual
  pub data Same : Value → Value → Type 0 where
    same : (v : Value) → Same v v
    items : {xs ys : Items} → SameItems xs ys → Same (arr xs) (arr ys)
    fields : {fs gs : Fields} → SameFields fs gs → Same (obj fs) (obj gs)

  pub data SameItems : Items → Items → Type 0 where
    none_left : SameItems nil nil
    one_more :
        {x y : Value} {xs ys : Items}
        → Same x y
        → SameItems xs ys
        → SameItems (cons x xs) (cons y ys)

  pub data SameFields : Fields → Fields → Type 0 where
    done : SameFields end end
    keep :
        {k : Text} {v w : Value} {fs gs : Fields}
        → Same v w
        → SameFields fs gs
        → SameFields (field k v fs) (field k w gs)
    swap :
        {k j : Text} {v w : Value} {fs : Fields}
        → text_eq k j ≡ false
        → text_eq j k ≡ false
        → SameFields (field k v (field j w fs)) (field j w (field k v fs))
    trans : {fs gs hs : Fields} → SameFields fs gs → SameFields gs hs → SameFields fs hs

stringify_items-cons :
    (x y : Value) (xs ys : Items)
    → stable_stringify x ≡ stable_stringify y
    → stringify_items xs ≡ stringify_items ys
    → SameItems xs ys
    → stringify_items (cons x xs) ≡ stringify_items (cons y ys)
unfolding stable_stringify
stringify_items-cons x y xs ys hx hxs none_left = hx
stringify_items-cons x y xs ys hx hxs (one_more a b) = cc

mutual
  unfolding stable_stringify sort_entries insert_sorted

  Same-stringify : {v w : Value} → Same v w → stable_stringify v ≡ stable_stringify w
  Same-stringify (same v) = refl
  Same-stringify (items h) = ap (λ s. 91 ∷ s ++ 93 ∷ []) (SameItems-stringify h)
  Same-stringify (fields h) = ap (λ l. 123 ∷ join_entries l ++ 125 ∷ []) (SameFields-sort h)

  SameItems-stringify : {xs ys : Items} → SameItems xs ys → stringify_items xs ≡ stringify_items ys
  SameItems-stringify none_left = refl
  SameItems-stringify (one_more {x = x} {y = y} {xs = xs} {ys = ys} a b) =
      stringify_items-cons x y xs ys (Same-stringify a) (SameItems-stringify b) b

  SameFields-sort :
      {fs gs : Fields} → SameFields fs gs → sort_entries (entries fs) ≡ sort_entries (entries gs)
  SameFields-sort done = refl
  SameFields-sort (keep {k = k} a b) =
      ap₂ (λ t l. insert_sorted (k, t) l) (Same-stringify a) (SameFields-sort b)
  SameFields-sort (swap {k = k} {j = j} {v = v} {w = w} {fs = fs} ne ne') =
      insert_comm (k, stable_stringify v) (j, stable_stringify w) (sort_entries (entries fs)) ne ne'
  SameFields-sort (trans a b) = SameFields-sort a ∙ SameFields-sort b

-- The text does not depend on the order of the properties of objects, at any depth.
pub stable_stringify-Same : (v w : Value) → Same v w → stable_stringify v ≡ stable_stringify w
stable_stringify-Same v w h = Same-stringify h
