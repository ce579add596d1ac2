-- ===== src/Upload/Cloud/Memory.antt =====
-- An object store that holds, for each key, what a HEAD request answers; its listing has three pages.
use project_saas_backend.Common.{
  Text, text_eq, text_eq_iff, text_eq_refl, Option, none, some, [], ◌∷◌, ◌≡◌, ◌≢◌, refl, ap, sym,
  ◌∙◌, if◌then◌else◌, Bool-cases, inl, inr,
}
use project_saas_backend.Common.Result.{Result, ok, err}
use project_saas_backend.Errors.{Thrown}
use project_saas_backend.Upload.Cloud.S3.{Head, present, missing, ObjectStore}
use project_saas_backend.Upload.Cloud.S3.Laws.{Reliable}

abbrev pub Heads : Type 0
Heads = Text → Head

unfoldable pub put : Text → Head → Heads → Heads
unfolding text_eq
put k h s l = if text_eq l k then h else s l

-- The pages after the tokens `1` and `11`.
unfoldable pub next_page : Option Text → Option Text
next_page none = some (49 ∷ [])
next_page (some (c ∷ [])) = some (49 ∷ 49 ∷ [])
next_page (some _) = none

abbrev pub memory : ObjectStore
memory = record {
  Bucket = Heads;
  put_object = λ key bytes mime meta s. (ok tt, put key (present 1 (some mime)) s);
  head_object = λ key s. s key;
  copy_object = λ from to s. (ok tt, put to (s from) s);
  delete_object = λ key s. (ok tt, put key missing s);
  list_objects = λ prefix token s. ok (record { contents = []; next = next_page token });
  delete_objects = λ keys s. (ok tt, s);
}

pub put_self : (k : Text) (h : Head) (s : Heads) → put k h s k ≡ h
unfolding put
put_self k h s = rw (text_eq_refl k) refl

pub put_other : (k l : Text) (h : Head) (s : Heads) → l ≢ k → put k h s l ≡ s l
unfolding put
put_other k l h s other = elim (Bool-cases (text_eq l k)) [
  | inl e ↦ absurd (other ((text_eq_iff l k).0 e))
  | inr e ↦ rw e refl
]

abbrev succeeded : Result Thrown (Unit {0})
succeeded = ok tt

ok_not_err : (x : Thrown) → succeeded ≢ err x
ok_not_err x e = cc (e)

abbrev fst_of : Result Thrown (Unit {0}) × Heads → Result Thrown (Unit {0})
fst_of p = p.0

pub memory-Reliable : Reliable memory
unfolding put
memory-Reliable = record {
  copied = λ from to s s' e.
      ap (λ (p : Result Thrown (Unit {0}) × Heads). p.1 to) (sym e) ∙ put_self to (s from) s;
  copied_other = λ from to k s s' e other.
      ap (λ (p : Result Thrown (Unit {0}) × Heads). p.1 k) (sym e)
      ∙ put_other to k (s from) s other;
  not_copied = λ from to k s s' x e. absurd (ok_not_err x (ap fst_of e));
  gone = λ k s s' e.
      ap (λ (p : Result Thrown (Unit {0}) × Heads). p.1 k) (sym e) ∙ put_self k missing s;
  gone_other = λ k l s s' e other.
      ap (λ (p : Result Thrown (Unit {0}) × Heads). p.1 l) (sym e) ∙ put_other k l missing s other;
  not_gone = λ k l s s' x e. absurd (ok_not_err x (ap fst_of e));
}
