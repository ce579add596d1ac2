-- ===== src/Upload/Containment.antt =====
-- Where a direct upload lands in the local storage.
use project_saas_backend.Common.{
  any, none, some, append_assoc, append_nil, ℕ, Text, codes, lower, to_lower, starts_with, text_eq,
  Option, List, [], ◌∷◌, ◌++◌, true, false, ◌≡◌, ◌||◌, length, refl, sym, ap, ◌∙◌, arith,
  Bool-cases, inl, inr, All,
}
use project_saas_backend.Common.Result.{ok}
use project_saas_backend.Errors.{Thrown}
use project_saas_backend.Upload.LocalStorage.{
  FilePath, split_segments, enter, walk, resolve, joined, absolute, normalized,
  resolve_managed_path, assert_writable_key, StoredFile,
}
use project_saas_backend.Upload.LocalStorage.DirectWrite.{
  make_directory, stored_as, write_direct_upload,
}
use project_saas_backend.Upload.FileSystem.{
  FileSystem, path_eq, read, without, write_file, make_dirs, with_dirs,
}
use project_saas_backend.Upload.FileSystem.Laws.{
  Clear, Off, make_dirs-Clear, path_eq_refl, read-without,
}

-- The segment does not go up.
abbrev pub Down : Text → Type 0
Down s = text_eq s (codes "..") ≡ false

walk-Down : (ss : List Text) (p : FilePath) → All Down ss → (l : FilePath) × (walk p ss ≡ l ++ p)
unfolding walk enter
walk-Down [] p down = ([], refl)
walk-Down (s ∷ ss) p down = elim (Bool-cases (text_eq s [] || text_eq s (codes "."))) [
  | inl stays ↦ let (l, e) = walk-Down ss p down.1 in (l, rw stays e)
  | inr moves ↦
      let (l, e) = walk-Down ss (s ∷ p) down.1 in
      (l ++ (s ∷ []), rw (moves, down.0) (e ∙ sym (append_assoc l (s ∷ []) p)))
]

-- What is walked from the root is walked from any path.
walk-append : (ss : List Text) (l p : FilePath) → All Down ss → walk (l ++ p) ss ≡ walk l ss ++ p
unfolding walk enter
walk-append [] l p down = refl
walk-append (s ∷ ss) l p down = elim (Bool-cases (text_eq s [] || text_eq s (codes "."))) [
  | inl stays ↦ rw stays (walk-append ss l p down.1)
  | inr moves ↦ rw (moves, down.0) (walk-append ss (s ∷ l) p down.1)
]

walk_from : (ss : List Text) (p : FilePath) → All Down ss → walk p ss ≡ walk [] ss ++ p
walk_from ss p down = walk-append ss [] p down

-- The text of a longer path starts with that of the shorter one.
joined-append : (l p : FilePath) → (t : Text) × (joined (l ++ p) ≡ joined p ++ t)
unfolding joined
joined-append [] p = ([], sym (append_nil (joined p)))
joined-append (s ∷ l) p =
    let (t, e) = joined-append l p in
    (t ++ 47 ∷ s, ap (λ x. x ++ 47 ∷ s) e ∙ append_assoc (joined p) t (47 ∷ s))

starts_with-append : (a b : Text) → starts_with (a ++ b) a ≡ true
unfolding starts_with
starts_with-append [] b = refl
starts_with-append (x ∷ a) b = ground (arith, starts_with-append a b)

module _ (b : Text) (base : FilePath) where
  absolute-append : (l : FilePath) → absolute (l ++ (b ∷ base)) ≡ joined (l ++ (b ∷ base))
  unfolding absolute
  absolute-append [] = refl
  absolute-append (s ∷ l) = refl

  inside : (l : FilePath) → starts_with (absolute (l ++ (b ∷ base))) (absolute (b ∷ base)) ≡ true
  unfolding absolute
  inside l =
      let (t, e) = joined-append l (b ∷ base) in
      rw (absolute-append l) (rw e (starts_with-append (joined (b ∷ base)) t))

  pub writable :
      (key r : Text)
      → normalized key ≡ (codes "uploads/temp/" ++ r)
      → assert_writable_key key ≡ ok tt
  unfolding assert_writable_key to_lower lower
  writable key r named = rw named refl

  pub resolve_temp :
      (key r : Text) (l : FilePath)
      → normalized key ≡ (codes "uploads/temp/" ++ r)
      → walk (codes "temp" ∷ b ∷ base) (split_segments r) ≡ (l ++ (codes "temp" ∷ b ∷ base))
      → resolve_managed_path (b ∷ base) key ≡ ok (l ++ (codes "temp" ∷ b ∷ base))
  unfolding resolve_managed_path resolve split_segments walk enter
  resolve_temp key r l named e =
      let deep : l ++ (codes "temp" ∷ b ∷ base) ≡ (l ++ (codes "temp" ∷ [])) ++ (b ∷ base) =
        sym (append_assoc l (codes "temp" ∷ []) (b ∷ base)) in
      let kept : starts_with (absolute (l ++ (codes "temp" ∷ b ∷ base))) (absolute (b ∷ base))
          ≡ true =
        rw deep (inside (l ++ (codes "temp" ∷ []))) in
      rw named (rw e (rw kept refl))

  resolve_escape :
      (key r : Text) (l : FilePath)
      → normalized key ≡ (codes "uploads/temp/../" ++ r)
      → walk (b ∷ base) (split_segments r) ≡ (l ++ (b ∷ base))
      → resolve_managed_path (b ∷ base) key ≡ ok (l ++ (b ∷ base))
  unfolding resolve_managed_path resolve split_segments walk enter
  resolve_escape key r l named e = rw named (rw e (rw (inside l) refl))

  -- What a write of these bytes at the path leaves: they can be read there, and every other path reads
  -- as before.
  pub record Landed (p : FilePath) (bytes : List ℕ) (fs fs' : FileSystem) : Type 0 where
    pub there : read p fs'.files ≡ some bytes
    pub others : (q : FilePath) → path_eq q p ≡ false → read q fs'.files ≡ read q fs.files

  module _ (io_error : Text → Thrown) (base_url : Option Text) where
    making :
        (t : Text) (p : FilePath) (fs : FileSystem)
        → read (t ∷ p) fs.files ≡ none
        → make_directory io_error (t ∷ p) fs
          ≡ with_dirs io_error fs (make_dirs io_error fs.files (t ∷ p) fs.dirs)
    unfolding make_directory
    making t p fs none_there = rw none_there refl

    -- Of a key that is writable and resolves, the bytes are written at the resolved path, where no file
    -- is in the way of its directory and no directory bears its name.
    pub lands :
        (key : Text) (buffer : List ℕ) (mime : Option Text) (fs : FileSystem) (s t : Text)
        (p : FilePath)
        → assert_writable_key key ≡ ok tt
        → resolve_managed_path (b ∷ base) key ≡ ok (s ∷ t ∷ p)
        → Clear fs.files (t ∷ p)
        → any (path_eq (s ∷ t ∷ p)) fs.dirs ≡ false
        → (ds : List FilePath) × (write_direct_upload io_error
              (b ∷ base)
              base_url
              key
              buffer
              mime
              fs
            ≡ (
              ok (stored_as io_error (b ∷ base) base_url key buffer mime (s ∷ t ∷ p)),
              record { files = (s ∷ t ∷ p, buffer) ∷ without (s ∷ t ∷ p) fs.files; dirs = ds },
            ))
          × ((q : FilePath) → Off q (t ∷ p) → any (path_eq q) ds ≡ any (path_eq q) fs.dirs)
    unfolding write_direct_upload write_file
    lands key buffer mime fs s t p checks resolved clear free =
        let (ds, e, made, frame) = make_dirs-Clear io_error fs.files (t ∷ p) fs.dirs clear in
        let above = made.0 (omega arith) in
        let fresh = made.1 (s ∷ t ∷ p) (omega arith) ∙ free in
        let makes = making t p fs clear.0 ∙ ap (with_dirs io_error fs) e in
        (ds, rw (checks, resolved) (rw makes (rw fresh (rw above refl))), frame)

    landed :
        (p : FilePath) (buffer : List ℕ) (fs : FileSystem) (ds : List FilePath)
        → Landed p buffer fs (record { files = (p, buffer) ∷ without p fs.files; dirs = ds })
    unfolding read
    landed p buffer fs ds = record {
      there = rw (path_eq_refl p) refl;
      others = λ q e. rw e (read-without p q fs.files e);
    }

    -- A path below the root and its directory.
    lands_below :
        (key : Text) (buffer : List ℕ) (mime : Option Text) (fs : FileSystem) (s r : Text)
        (l p : FilePath)
        → assert_writable_key key ≡ ok tt
        → resolve_managed_path (b ∷ base) key ≡ ok (s ∷ (l ++ (r ∷ p)))
        → Clear fs.files (l ++ (r ∷ p))
        → any (path_eq (s ∷ (l ++ (r ∷ p)))) fs.dirs ≡ false
        → (stored : StoredFile) × (fs' : FileSystem) × (write_direct_upload io_error
              (b ∷ base)
              base_url
              key
              buffer
              mime
              fs
            ≡ (ok stored, fs'))
          × Landed (s ∷ (l ++ (r ∷ p))) buffer fs fs'
          × (stored.size ≡ length buffer)
    unfolding stored_as
    lands_below key buffer mime fs s r [] p checks resolved clear free =
        let (ds, e, _) = lands key buffer mime fs s r p checks resolved clear free in
        (_, _, e, landed (s ∷ r ∷ p) buffer fs ds, refl)
    lands_below key buffer mime fs s r (x ∷ l) p checks resolved clear free =
        let (ds, e, _) = lands key buffer mime fs s x (l ++ (r ∷ p)) checks resolved clear free in
        (_, _, e, landed (s ∷ x ∷ (l ++ (r ∷ p))) buffer fs ds, refl)

    -- A key that names a file under uploads/temp/, in this letter case and without a segment that goes
    -- up, is accepted where no file is in the way of the file's directory and no directory bears its
    -- name: its bytes land under the directory temp of the storage, and every other path reads as before.
    pub write_direct_upload-temp :
        (key r : Text) (buffer : List ℕ) (mime : Option Text) (fs : FileSystem) (s : Text)
        (l : FilePath)
        → normalized key ≡ (codes "uploads/temp/" ++ r)
        → All Down (split_segments r)
        → walk [] (split_segments r) ≡ (s ∷ l)
        → Clear fs.files (l ++ (codes "temp" ∷ b ∷ base))
        → any (path_eq (s ∷ (l ++ (codes "temp" ∷ b ∷ base)))) fs.dirs ≡ false
        → (stored : StoredFile) × (fs' : FileSystem) × (write_direct_upload io_error
              (b ∷ base)
              base_url
              key
              buffer
              mime
              fs
            ≡ (ok stored, fs'))
          × Landed (s ∷ (l ++ (codes "temp" ∷ b ∷ base))) buffer fs fs'
          × (stored.size ≡ length buffer)
    write_direct_upload-temp key r buffer mime fs s l named down walked clear free =
        let e =
          walk_from (split_segments r) (codes "temp" ∷ b ∷ base) down
          ∙ ap (λ q. q ++ (codes "temp" ∷ b ∷ base)) walked in
        lands_below key buffer mime fs s (codes "temp") l (b ∷ base) (writable key r named)
          (resolve_temp key r (s ∷ l) named e) clear free

    -- The check of the key does not look at its segments: bytes for uploads/temp/../r, where r names a
    -- file and no segment of r goes up, are accepted and land under the storage itself, beside the
    -- directory temp, where no file is in the way of the file's directory and no directory bears its
    -- name.
    pub write_direct_upload-escapes :
        (key r : Text) (buffer : List ℕ) (mime : Option Text) (fs : FileSystem) (s : Text)
        (l : FilePath)
        → normalized key ≡ (codes "uploads/temp/../" ++ r)
        → All Down (split_segments r)
        → walk [] (split_segments r) ≡ (s ∷ l)
        → Clear fs.files (l ++ (b ∷ base))
        → any (path_eq (s ∷ (l ++ (b ∷ base)))) fs.dirs ≡ false
        → (stored : StoredFile) × (fs' : FileSystem) × (write_direct_upload io_error
              (b ∷ base)
              base_url
              key
              buffer
              mime
              fs
            ≡ (ok stored, fs'))
          × Landed (s ∷ (l ++ (b ∷ base))) buffer fs fs'
          × (stored.size ≡ length buffer)
    unfolding codes
    write_direct_upload-escapes key r buffer mime fs s l named down walked clear free =
        let e = walk_from (split_segments r) (b ∷ base) down ∙ ap (λ q. q ++ (b ∷ base)) walked in
        lands_below key buffer mime fs s b l base (writable key (codes "../" ++ r) named)
          (resolve_escape key r (s ∷ l) named e) clear free

  -- The path is compared with the storage's as a text: a key that goes up to a sibling whose name
  -- begins with the storage's own name is resolved, outside the storage.
  pub resolve_managed_path-sibling :
      (key suffix : Text)
      → normalized key ≡ (codes "../" ++ b ++ suffix)
      → split_segments (b ++ suffix) ≡ ((b ++ suffix) ∷ [])
      → enter base (b ++ suffix) ≡ ((b ++ suffix) ∷ base)
      → starts_with (codes "../" ++ b ++ suffix) (codes "uploads/") ≡ false
      → resolve_managed_path (b ∷ base) key ≡ ok ((b ++ suffix) ∷ base)
  unfolding resolve_managed_path resolve split_segments walk absolute joined
  resolve_managed_path-sibling key suffix named one_segment enters other =
      let kept : starts_with (joined base ++ 47 ∷ (b ++ suffix)) (joined base ++ 47 ∷ b) ≡ true =
        rw (sym (append_assoc (joined base) (47 ∷ b) suffix))
          (starts_with-append (joined base ++ 47 ∷ b) suffix) in
      rw named (rw one_segment (rw enters (rw kept refl)))
