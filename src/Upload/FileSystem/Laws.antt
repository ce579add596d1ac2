-- ===== src/Upload/FileSystem/Laws.antt =====
-- Reading a file after the files of the local storage changed.
use project_saas_backend.Common.{
  ℕ, ◌<◌, length, any, Text, text_eq, text_eq_iff, text_eq_refl, none, List, [], ◌∷◌, true, false,
  ◌≡◌, refl, if◌then◌else◌, Bool, ap, ◌∙◌, arith, Bool-cases, inl, inr, ◌↔◌,
}
use project_saas_backend.Upload.LocalStorage.{FilePath, Files}
use project_saas_backend.Common.Result.{Result, ok}
use project_saas_backend.Errors.{Thrown}
use project_saas_backend.Upload.FileSystem.{
  FileSystem, path_eq, read, without, make_dirs, ensure_dir, with_dirs, exists,
}

pub path_eq_refl : (p : FilePath) → path_eq p p ≡ true
unfolding path_eq
path_eq_refl [] = refl
path_eq_refl (s ∷ p) = ground (arith, text_eq_refl s, path_eq_refl p)

eq_of_path_eq : (p q : FilePath) → path_eq p q ≡ true → p ≡ q
unfolding path_eq
eq_of_path_eq [] [] h = refl
eq_of_path_eq [] (t ∷ q) h = cc
eq_of_path_eq (s ∷ p) [] h = cc
eq_of_path_eq (s ∷ p) (t ∷ q) h = elim (Bool-cases (text_eq s t)) [
  | inl e ↦
      let tail : path_eq p q ≡ true = ground (arith) in
      cc ((text_eq_iff s t).0 e, eq_of_path_eq p q tail)
  | inr e ↦ absurd (ground (arith))
]

pub path_eq_iff : (p q : FilePath) → (path_eq p q ≡ true) ↔ (p ≡ q)
path_eq_iff p q = (eq_of_path_eq p q, λ e. rw e (path_eq_refl q))

pub path_eq_sym : (p q : FilePath) → path_eq p q ≡ false → path_eq q p ≡ false
path_eq_sym p q h = elim (Bool-cases (path_eq q p)) [
  | inl e ↦
      let same : p ≡ q = cc ((path_eq_iff q p).0 e) in absurd (cc (h, (path_eq_iff p q).1 same))
  | inr e ↦ e
]

pub read-without_self : (p : FilePath) (fs : Files) → read p (without p fs) ≡ none
unfolding read without
read-without_self p [] = refl
read-without_self p ((q, b) ∷ fs) = elim (Bool-cases (path_eq p q)) [
  | inl e ↦ rw e (read-without_self p fs)
  | inr e ↦ rw (e, e) (read-without_self p fs)
]

-- Without a file, every other one is as before.
pub read-without :
    (p q : FilePath) (fs : Files) → path_eq q p ≡ false → read q (without p fs) ≡ read q fs
unfolding read without
read-without p q [] h = refl
read-without p q ((r, b) ∷ fs) h = elim (Bool-cases (path_eq p r)) [
  | inl e ↦
      let other : path_eq q r ≡ false = rw (← (path_eq_iff p r).0 e) h in
      rw (e, other) (read-without p q fs h)
  | inr e ↦ rw e (kept (read-without p q fs h))
]
  where
    kept : read q (without p fs) ≡ read q fs → read q ((r, b) ∷ without p fs) ≡ read q ((r, b) ∷ fs)
    kept ih = rw ih refl

pub path_eq_lengths : (p q : FilePath) → length p < length q → path_eq q p ≡ false
unfolding path_eq
path_eq_lengths [] [] h = absurd (omega (arith, h))
path_eq_lengths [] (t ∷ q) h = refl
path_eq_lengths (s ∷ p) [] h = absurd (omega (arith, h))
path_eq_lengths (s ∷ p) (t ∷ q) h = rw (path_eq_lengths p q (omega (arith, h))) (ground arith)

-- No file is in the way of the directories down to this one.
abbrev pub Clear : Files → FilePath → Type 0
Clear files [] = Unit
Clear files (s ∷ p) = (read (s ∷ p) files ≡ none) × Clear files p

-- A file below the directory is not in its way.
pub Clear-deeper :
    (files : Files) (p q : FilePath) (b : List ℕ)
    → Clear files p
    → length p < length q
    → Clear ((q, b) ∷ files) p
unfolding read
Clear-deeper files [] q b clear h = tt
Clear-deeper files (s ∷ p) q b clear h = (
  rw (path_eq_sym q (s ∷ p) (path_eq_lengths (s ∷ p) q h)) clear.0,
  Clear-deeper files p q b clear.1 (omega (arith, h)),
)

-- The directory is there, and no directory below it is new.
abbrev pub Made : FilePath → List FilePath → List FilePath → Type 0
Made p dirs ds =
    (0 < length p → any (path_eq p) ds ≡ true)
    × ((q : FilePath) → length p < length q → any (path_eq q) ds ≡ any (path_eq q) dirs)

-- The path is neither this one nor above it.
abbrev pub Off : FilePath → FilePath → Type 0
Off q [] = Unit
Off q (s ∷ p) = (path_eq q (s ∷ p) ≡ false) × Off q p

pub Off-longer : (q p : FilePath) → length p < length q → Off q p
Off-longer q [] h = tt
Off-longer q (s ∷ p) h = (path_eq_lengths (s ∷ p) q h, Off-longer q p (omega (arith, h)))

-- Without a file that lies below the directory.
pub Clear-without :
    (files : Files) (p q : FilePath)
    → Clear files p
    → length p < length q
    → Clear (without q files) p
Clear-without files [] q clear h = tt
Clear-without files (s ∷ p) q clear h = (
  read-without q (s ∷ p) files (path_eq_sym q (s ∷ p) (path_eq_lengths (s ∷ p) q h)) ∙ clear.0,
  Clear-without files p q clear.1 (omega (arith, h)),
)

module _ (io_error : Text → Thrown) where
  -- What `mkdir` leaves when no file is in the way: only the directory and those above it are new.
  pub make_dirs-Clear :
      (files : Files) (p : FilePath) (dirs : List FilePath)
      → Clear files p
      → (ds : List FilePath) × (make_dirs io_error files p dirs ≡ ok ds)
        × Made p dirs ds
        × ((q : FilePath) → Off q p → any (path_eq q) ds ≡ any (path_eq q) dirs)
  unfolding make_dirs
  make_dirs-Clear files [] dirs clear =
      (dirs, refl, (λ h. absurd (omega (arith, h)), λ q h. refl), λ q h. refl)
  make_dirs-Clear files (s ∷ p) dirs clear = elim (Bool-cases (any (path_eq (s ∷ p)) dirs)) [
    | inl there ↦ (dirs, rw there refl, (λ h. there, λ q h. refl), λ q h. refl)
    | inr absent ↦
        let (ds, e, made, frame) = make_dirs-Clear files p dirs clear.1 in
        (
          (s ∷ p) ∷ ds,
          rw absent (rw clear.0 (rw e refl)),
          (
            λ h. rw (path_eq_refl (s ∷ p)) refl,
            λ q h. rw (path_eq_lengths (s ∷ p) q h) (made.1 q (omega (arith, h))),
          ),
          λ q off. rw off.0 (frame q off.1),
        )
  ]

  -- What `ensureDir` leaves when no file is in the way.
  pub ensure_dir-Clear :
      (s : Text) (p : FilePath) (fs : FileSystem)
      → Clear fs.files (s ∷ p)
      → (ds : List FilePath) × (ensure_dir io_error (s ∷ p) fs
          ≡ (ok tt, record { files = fs.files; dirs = ds }))
        × Made (s ∷ p) fs.dirs ds
  unfolding ensure_dir
  ensure_dir-Clear s p fs clear = elim (Bool-cases (any (path_eq (s ∷ p)) fs.dirs)) [
    | inl there ↦ (fs.dirs, rw clear.0 (rw there refl), (λ h. there, λ q h. refl))
    | inr absent ↦
        let (ds, e, made, _) = make_dirs-Clear fs.files (s ∷ p) fs.dirs clear in
        (ds, missing clear.0 absent ∙ ap (with_dirs io_error fs) e, made)
  ]
    where
      tested :
          (found : Bool) (then_ else_ : Result Thrown (Unit {0}) × FileSystem)
          → found ≡ false
          → (if found then then_ else else_) ≡ else_
      tested found then_ else_ e = rw e refl

      missing :
          read (s ∷ p) fs.files ≡ none
          → any (path_eq (s ∷ p)) fs.dirs ≡ false
          → ensure_dir io_error (s ∷ p) fs
            ≡ with_dirs io_error fs (make_dirs io_error fs.files (s ∷ p) fs.dirs)
      missing e d = tested (exists fs (s ∷ p)) _ _ (rw (e, d) refl)
