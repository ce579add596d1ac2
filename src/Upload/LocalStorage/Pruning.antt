-- ===== src/Upload/LocalStorage/Pruning.antt =====
-- What the walk over the empty parents of src/modules/upload/infrastructure/providers/
-- local-storage.provider.ts leaves.
use mathlib.Core.Path.{subst}
use project_saas_backend.Common.{
  starts_with, List, [], ◌∷◌, true, false, ◌≡◌, refl, ◌∙◌, not, ◌||◌, any, filter, arith,
  Bool-cases, inl, inr, ◌⊎◌, sym,
}
use project_saas_backend.Upload.LocalStorage.{FilePath, absolute}
use project_saas_backend.Upload.FileSystem.{
  FileSystem, path_eq, is_dir, is_empty_dir, is_entry, remove_dir,
}
use project_saas_backend.Upload.FileSystem.Laws.{path_eq_iff, path_eq_sym}
use project_saas_backend.Upload.LocalStorage.Objects.{prune_empty_parents}

pub prune_empty_parents-files :
    (temp p : FilePath) (fs : FileSystem) → (prune_empty_parents temp p fs).files ≡ fs.files
unfolding prune_empty_parents
prune_empty_parents-files temp [] fs = refl
prune_empty_parents-files temp (s ∷ p) fs =
    ground (arith, prune_empty_parents-files temp p (remove_dir fs (s ∷ p)))

any-filter :
    (p q : FilePath) (dirs : List FilePath)
    → path_eq p q ≡ false
    → any (path_eq q) (filter (λ r. not (path_eq p r)) dirs) ≡ any (path_eq q) dirs
unfolding filter
any-filter p q [] h = refl
any-filter p q (r ∷ dirs) h = elim (Bool-cases (path_eq p r)) [
  | inl e ↦
      let other : path_eq q r ≡ false = rw (← (path_eq_iff p r).0 e) (path_eq_sym p q h) in
      rw e (rw other (any-filter p q dirs h))
  | inr e ↦ rw e (rw (any-filter p q dirs h) refl)
]

-- Not a directory that the walk removes: outside temp, temp itself, or with a file in it.
abbrev pub Protected : FilePath → FileSystem → FilePath → Type 0
Protected temp fs q =
    (starts_with (absolute q) (absolute temp) ≡ false)
    ⊎ (path_eq q temp ≡ true)
    ⊎ (any (λ f. is_entry q f.0) fs.files ≡ true)

-- The loop's tests let no protected directory be removed.
removed_other :
    (temp p : FilePath) (fs : FileSystem) (q : FilePath)
    → (not (starts_with (absolute p) (absolute temp)) || path_eq p temp) ≡ false
    → is_empty_dir fs p ≡ true
    → Protected temp fs q
    → path_eq p q ≡ false
unfolding is_empty_dir
removed_other temp p fs q inside empty kept = elim (Bool-cases (path_eq p q)) [
  | inr e ↦ e
  | inl e ↦ absurd (refuted (subst (Protected temp fs) (sym ((path_eq_iff p q).0 e)) kept))
]
  where
    refuted : ¬ Protected temp fs p
    refuted k = ground (arith)

-- After a commit the walk over the empty parents leaves, as they were, every directory whose text does
-- not begin with that of temp, temp itself, and every directory that holds a file.
pub prune_empty_parents-Protected :
    (temp p : FilePath) (fs : FileSystem) (q : FilePath)
    → Protected temp fs q
    → is_dir (prune_empty_parents temp p fs) q ≡ is_dir fs q
unfolding prune_empty_parents
prune_empty_parents-Protected temp [] fs q kept = refl
prune_empty_parents-Protected temp (s ∷ p) fs q kept =
    elim (Bool-cases
      (not (starts_with (absolute (s ∷ p)) (absolute temp)) || path_eq (s ∷ p) temp)) [
        | inl outside ↦ rw outside refl
        | inr inside ↦ elim (Bool-cases (is_dir fs (s ∷ p))) [
          | inr absent ↦ rw inside (rw absent refl)
          | inl there ↦ elim (Bool-cases (is_empty_dir fs (s ∷ p))) [
            | inr holds ↦ rw inside (rw there (rw holds refl))
            | inl empty ↦
                let ih = prune_empty_parents-Protected temp p (remove_dir fs (s ∷ p)) q kept in
                let same =
                  any-filter (s ∷ p) q fs.dirs
                    (removed_other temp (s ∷ p) fs q inside empty kept) in
                rw inside (rw there (rw empty (ih ∙ same)))
          ]
        ]
      ]
