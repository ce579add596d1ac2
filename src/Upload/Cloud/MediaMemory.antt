-- ===== src/Upload/Cloud/MediaMemory.antt =====
-- A media library that holds one file in each folder, whatever its name; the folder is the file's id.
use project_saas_backend.Common.{
  ℕ, Text, text_eq, text_eq_iff, text_eq_refl, Option, none, some, List, [], ◌∷◌, ◌≡◌, ◌≢◌, refl,
  ap, sym, ◌∙◌, Bool, Bool-cases, inl, inr, if◌then◌else◌, get_or,
}
use project_saas_backend.Common.Result.{Result, ok, err}
use project_saas_backend.Errors.{Thrown}
use project_saas_backend.Upload.Cloud.ImageKit.{MediaFile, MediaLibrary}
use project_saas_backend.Upload.Cloud.ImageKit.Laws.{Reliable}

abbrev pub Folders : Type 0
Folders = Text → Option (List ℕ)

unfoldable pub put_file : Text → Option (List ℕ) → Folders → Folders
unfolding text_eq
put_file folder bytes s other = if text_eq other folder then bytes else s other

abbrev pub file_at : Text → MediaFile
file_at folder = record {
  file_id = folder;
  name = [];
  file_path = folder;
  url = folder;
  size = 0;
  file_type = none;
  created_at = none;
  is_private_file = Bool.false;
  tags = none;
  custom_metadata = [];
}

abbrev pub files_of : Text → Option (List ℕ) → List MediaFile
files_of folder none = []
files_of folder (some bytes) = file_at folder ∷ []

abbrev pub media_memory : MediaLibrary
media_memory = record {
  Library = Folders;
  upload = λ u s. (ok (file_at u.folder), put_file u.folder (some u.file) s);
  list_files = λ q s. ok (files_of q.path (s q.path));
  delete_file = λ id s. (ok tt, put_file id none s);
  fetch_buffer = λ url s. ok (get_or (s url) []);
}

abbrev with_id : Text → Option (List ℕ) → Option (Text × List ℕ)
with_id folder none = none
with_id folder (some bytes) = some (folder, bytes)

id_of :
    (folder other : Text) (bytes : Option (List ℕ)) (b : List ℕ)
    → with_id folder bytes ≡ some (other, b)
    → folder ≡ other
id_of folder other none b e = absurd (cc (e))
id_of folder other (some bytes) b e = cc (e)

put_file_other :
    (folder other : Text) (bytes : Option (List ℕ)) (s : Folders)
    → other ≢ folder
    → put_file folder bytes s other ≡ s other
unfolding put_file
put_file_other folder other bytes s differ = elim (Bool-cases (text_eq other folder)) [
  | inl e ↦ absurd (differ ((text_eq_iff other folder).0 e))
  | inr e ↦ rw e refl
]

put_file_self :
    (folder : Text) (bytes : Option (List ℕ)) (s : Folders) → put_file folder bytes s folder ≡ bytes
unfolding put_file
put_file_self folder bytes s = rw (text_eq_refl folder) refl

abbrev uploaded_file : Text → Result Thrown MediaFile
uploaded_file folder = ok (file_at folder)

file_not_err : (folder : Text) (x : Thrown) → uploaded_file folder ≢ err x
file_not_err folder x e = cc (e)

ids : (folder : Text) (f : MediaFile) → uploaded_file folder ≡ ok f → folder ≡ f.file_id
ids folder f e = ap (λ (g : MediaFile). g.file_id) (the_file e)
  where
    the_file : uploaded_file folder ≡ ok f → file_at folder ≡ f
    the_file e = cc (e)

first_id :
    (folder : Text) (bytes : Option (List ℕ)) (g : MediaFile) (gs : List MediaFile)
    → files_of folder bytes ≡ g ∷ gs
    → folder ≡ g.file_id
first_id folder none g gs e = absurd (cc (e))
first_id folder (some b) g gs e = ap (λ (h : MediaFile). h.file_id) (the_file e)
  where
    the_file : file_at folder ∷ [] ≡ g ∷ gs → file_at folder ≡ g
    the_file e = cc (e)

abbrev answer_of : List MediaFile → Result Thrown (List MediaFile)
answer_of l = ok l

listed_files :
    (l : List MediaFile) (g : MediaFile) (gs : List MediaFile)
    → answer_of l ≡ ok (g ∷ gs)
    → l ≡ g ∷ gs
listed_files l g gs e = cc (e)

abbrev Answer : Type 0
Answer = Result Thrown MediaFile × Folders

pub media_memory-Reliable : Reliable media_memory
media_memory-Reliable = record {
  content = λ folder name s. with_id folder (s folder);
  uploaded = λ u f s s' e.
      ap (λ (p : Answer). with_id u.folder (p.1 u.folder)) (sym e)
      ∙ ap (with_id u.folder) (put_file_self u.folder (some u.file) s)
      ∙ ap (λ i. some (i, u.file)) (ids u.folder f (ap (λ (p : Answer). p.0) e));
  not_uploaded =
      λ u x folder name s s' e. absurd (file_not_err u.folder x (ap (λ (p : Answer). p.0) e));
  fresh = λ q u f g gs s s' listed e differ same. differ (
      ids u.folder f (ap (λ (p : Answer). p.0) e)
      ∙ same
      ∙ sym (
          first_id q.path (s q.path) g gs (listed_files (files_of q.path (s q.path)) g gs listed)));
  kept = λ id other folder name bytes s e differ.
      ap (with_id folder) (
        put_file_other id folder none s
          (λ same. differ (sym (id_of folder other (s folder) bytes e) ∙ same)))
      ∙ e;
}
