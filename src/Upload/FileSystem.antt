-- ===== src/Upload/FileSystem.antt =====
-- Node's `fs` as src/modules/upload/infrastructure/providers/local-storage.provider.ts uses it:
-- regular files with their bytes and directories, on a POSIX system. An operation that fails throws
-- the native error of its code, a parameter.
pub mod Laws
use project_saas_backend.Common.{
  ℕ, Text, codes, text_eq, Option, none, some, List, [], ◌∷◌, map, Bool, true, false, ◌&&◌, ◌||◌,
  not, if◌then◌else◌, is_some, any, filter, length,
}
use project_saas_backend.Common.Result.{Result, ok, err, Exec}
use project_saas_backend.Errors.{Thrown}
use project_saas_backend.Upload.LocalStorage.{FilePath, Files, parent}

pub record FileSystem : Type 0 where
  pub files : Files
  pub dirs : List FilePath

unfoldable pub path_eq : FilePath → FilePath → Bool
unfolding text_eq
path_eq [] [] = true
path_eq (s ∷ p) (t ∷ q) = text_eq s t && path_eq p q
path_eq _ _ = false

unfoldable pub read : FilePath → Files → Option (List ℕ)
unfolding path_eq
read p [] = none
read p ((q, b) ∷ fs) = let rest = read p fs in if path_eq p q then some b else rest

unfoldable pub without : FilePath → Files → Files
unfolding path_eq
without p [] = []
without p ((q, b) ∷ fs) = let rest = without p fs in if path_eq p q then rest else (q, b) ∷ rest

abbrev pub is_file : FileSystem → FilePath → Bool
is_file fs p = is_some (read p fs.files)

abbrev pub is_dir : FileSystem → FilePath → Bool
is_dir fs p = any (path_eq p) fs.dirs

-- `fs.existsSync`
abbrev pub exists : FileSystem → FilePath → Bool
exists fs p = is_file fs p || is_dir fs p

-- `p` is an entry of the directory `dir`.
unfoldable pub is_entry : FilePath → FilePath → Bool
unfolding path_eq
is_entry dir [] = false
is_entry dir (s ∷ p) = path_eq dir p

-- `fs.readdirSync(dir).length === 0`
unfoldable pub is_empty_dir : FileSystem → FilePath → Bool
unfolding is_entry
is_empty_dir fs dir = not (any (λ f. is_entry dir f.0) fs.files) && not (any (is_entry dir) fs.dirs)

-- `fs.rmdirSync` of an empty directory
abbrev pub remove_dir : FileSystem → FilePath → FileSystem
remove_dir fs p = record fs { dirs = filter (λ q. not (path_eq p q)) fs.dirs }

abbrev pub remove_file : FileSystem → FilePath → FileSystem
remove_file fs p = record fs { files = without p fs.files }

abbrev pub put_file : FileSystem → FilePath → List ℕ → FileSystem
put_file fs p b = record fs { files = (p, b) ∷ without p fs.files }

-- `q` is `p` or lies below it.
unfoldable pub is_under : FilePath → FilePath → Bool
unfolding path_eq
is_under p [] = path_eq p []
is_under p (s ∷ q) = path_eq p (s ∷ q) || is_under p q

-- A path below `old`, moved below `new`.
unfoldable pub rebase : FilePath → FilePath → FilePath → FilePath
unfolding path_eq
rebase old new [] = if path_eq old [] then new else []
rebase old new (s ∷ p) =
    let below = s ∷ rebase old new p in if path_eq old (s ∷ p) then new else below

module _ (io_error : Text → Thrown) where
  -- `fs.mkdirSync(dir, { recursive: true })`
  unfoldable pub make_dirs : Files → FilePath → List FilePath → Result Thrown (List FilePath)
  unfolding codes read path_eq
  make_dirs files [] dirs = ok dirs
  make_dirs files (s ∷ p) dirs =
      let above = make_dirs files p dirs in
      if any (path_eq (s ∷ p)) dirs
      then ok dirs
      else if is_some (read (s ∷ p) files)
      then err (io_error (codes "ENOTDIR"))
      else made (s ∷ p) above
    where
      made : FilePath → Result Thrown (List FilePath) → Result Thrown (List FilePath)
      made p (err e) = err e
      made p (ok ds) = ok (p ∷ ds)

  abbrev pub with_dirs :
      FileSystem → Result Thrown (List FilePath) → Result Thrown (Unit {0}) × FileSystem
  with_dirs fs (err e) = (err e, fs)
  with_dirs fs (ok ds) = (ok tt, record fs { dirs = ds })

  -- `ensureDir`
  unfoldable pub ensure_dir : FilePath → Exec Thrown FileSystem (Unit {0})
  unfolding make_dirs read path_eq
  ensure_dir dir fs =
      if exists fs dir then (ok tt, fs) else with_dirs fs (make_dirs fs.files dir fs.dirs)

  -- `fs.writeFileSync`
  unfoldable pub write_file : FilePath → List ℕ → Exec Thrown FileSystem (Unit {0})
  unfolding codes read path_eq without
  write_file p b fs =
      if is_dir fs p
      then (err (io_error (codes "EISDIR")), fs)
      else if not (is_dir fs (parent p))
      then (err (io_error (codes "ENOENT")), fs)
      else (ok tt, put_file fs p b)

  -- `fs.promises.unlink`
  unfoldable pub unlink : FilePath → Exec Thrown FileSystem (Unit {0})
  unfolding codes read path_eq without
  unlink p fs =
      if is_file fs p
      then (ok tt, remove_file fs p)
      else (err (io_error (if is_dir fs p then codes "EISDIR" else codes "ENOENT")), fs)

  abbrev rename_dir : FilePath → FilePath → Exec Thrown FileSystem (Unit {0})
  rename_dir old new fs =
      if is_under old new
      then (err (io_error (codes "EINVAL")), fs)
      else if is_file fs new
      then (err (io_error (codes "ENOTDIR")), fs)
      else if is_dir fs new && not (is_empty_dir fs new)
      then (err (io_error (codes "ENOTEMPTY")), fs)
      else (
        ok tt,
        record {
          files = map (λ f. (rebase old new f.0, f.1)) fs.files;
          dirs = map (rebase old new) (filter (λ q. not (path_eq new q)) fs.dirs);
        },
      )

  abbrev pub rename_file : FilePath → FilePath → List ℕ → Exec Thrown FileSystem (Unit {0})
  rename_file old new b fs =
      if is_dir fs new
      then (err (io_error (codes "EISDIR")), fs)
      else (ok tt, put_file (remove_file fs old) new b)

  abbrev pub rename_found :
      Option (List ℕ) → FilePath → FilePath → Exec Thrown FileSystem (Unit {0})
  rename_found (some b) old new fs = rename_file old new b fs
  rename_found none old new fs =
      if is_dir fs old then rename_dir old new fs else (err (io_error (codes "ENOENT")), fs)

  -- `fs.renameSync`
  unfoldable pub rename : FilePath → FilePath → Exec Thrown FileSystem (Unit {0})
  unfolding codes read path_eq without is_under rebase is_empty_dir
  rename old new fs =
      if path_eq old new && exists fs old
      then (ok tt, fs)
      else if not (is_dir fs (parent new))
      then (err (io_error (codes "ENOENT")), fs)
      else rename_found (read old fs.files) old new fs
