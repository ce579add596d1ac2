-- ===== src/Upload/Cloud/S3/Upkeep.antt =====
-- cleanupTemp and completePresignedUpload of src/modules/upload/infrastructure/providers/
-- s3-storage.provider.ts.
use project_saas_backend.Common.{
  ℕ, ◌+◌, ◌-◌, ◌*◌, Text, codes, Option, none, some, List, [], ◌∷◌, ◌++◌, map, Bool, true, false,
  ◌&&◌, not, filter, ltb, if◌then◌else◌, length,
}
use project_saas_backend.Common.Decimal.{decimal}
use project_saas_backend.Common.Result.{Result, ok, err}
use project_saas_backend.Errors.{Thrown, thrown_api, from_definition}
use project_saas_backend.Errors.Registry
use project_saas_backend.Upload.Config.Types.{S3ProviderConfig}
use project_saas_backend.Upload.PresignedUrl.{PresignedCompleteInput, PresignedCompleteResult}
use project_saas_backend.Upload.Cloud.Keys.{far_from, or_zero}
use project_saas_backend.Upload.Cloud.S3.{
  Head, present, missing, broken, Listed, Listing, ObjectStore, build_public_url,
}

module _ (cfg : S3ProviderConfig) (V : ObjectStore) where
  open V use {Bucket, head_object, list_objects, delete_objects}

  abbrev pub is_stale : ℕ → Listed → Bool
  is_stale cutoff o = elim (o.last_modified) [
    | none ↦ false
    | some t ↦ ltb t cutoff && not (is_nil o.key)
  ]
    where
      is_nil : Text → Bool
      is_nil [] = true
      is_nil (c ∷ s) = false

  abbrev pub stale_keys : ℕ → List Listed → List Text
  stale_keys cutoff contents = map (λ (o : Listed). o.key) (filter (is_stale cutoff) contents)

  abbrev pub delete_stale : List Text → Bucket → Result Thrown (Unit {0}) × Bucket
  delete_stale [] s = (ok tt, s)
  delete_stale (k ∷ ks) s = delete_objects (k ∷ ks) s

  -- One round of the `do` loop; `rest` is the next one. The `catch` answers what was deleted before.
  abbrev pub after_page :
      ℕ
      → List Text
      → Option Text
      → Result Thrown (Unit {0}) × Bucket
      → (Text → ℕ → Bucket → Option ℕ × Bucket)
      → Option ℕ × Bucket
  after_page deleted keys next (err e, s) rest = (some deleted, s)
  after_page deleted keys none (ok _, s) rest = (some (deleted + length keys), s)
  after_page deleted keys (some []) (ok _, s) rest = (some (deleted + length keys), s)
  after_page deleted keys (some (c ∷ t)) (ok _, s) rest = rest (c ∷ t) (deleted + length keys) s

  unfoldable pub on_page :
      ℕ
      → ℕ
      → Result Thrown Listing
      → Bucket
      → (Text → ℕ → Bucket → Option ℕ × Bucket)
      → Option ℕ × Bucket
  unfolding filter
  on_page cutoff deleted (err e) s rest = (some deleted, s)
  on_page cutoff deleted (ok page) s rest =
      let keys = stale_keys cutoff page.contents in
      after_page deleted keys page.next (delete_stale keys s) rest

  -- `none`: the fuel, a bound on the pages, ran out.
  unfoldable pub cleanup_pages : ℕ → ℕ → Option Text → ℕ → Bucket → Option ℕ × Bucket
  unfolding on_page filter
  cleanup_pages ℕ.zero cutoff token deleted s = (none, s)
  cleanup_pages (ℕ.suc fuel) cutoff token deleted s =
      on_page cutoff deleted (list_objects (cfg.temp_prefix ++ 47 ∷ []) token s) s
        (λ t d s'. cleanup_pages fuel cutoff (some t) d s')

  unfoldable pub cleanup_temp : ℕ → ℕ → ℕ → Bucket → Option ℕ × Bucket
  unfolding cleanup_pages
  cleanup_temp fuel now older_than_hours s =
      cleanup_pages fuel (now - older_than_hours * 3600 * 1000) none 0 s

  abbrev pub completed : PresignedCompleteInput → Head → Result Thrown PresignedCompleteResult
  unfolding build_public_url codes decimal
  completed input (broken e) = err e
  completed input missing = err (
      thrown_api (
        from_definition Registry.file_not_found
          (some
            (codes "Direct upload not found in storage for key " ++ input.file_key ++ codes "."))
          none))
  completed input (present size mime) =
      if far_from 1024 input.expected_size size
      then err (
          thrown_api (
            from_definition Registry.bad_request
              (some (
                codes "Size mismatch: expected "
                ++ decimal (or_zero input.expected_size)
                ++ codes ", found "
                ++ decimal size
                ++ codes "."))
              none))
      else ok (record {
        size = size;
        content_type = mime;
        url = build_public_url cfg input.file_key;
        file_key = input.file_key;
      })

  unfoldable pub complete_presigned_upload :
      PresignedCompleteInput → Bucket → Result Thrown PresignedCompleteResult
  unfolding build_public_url codes decimal
  complete_presigned_upload input s = completed input (head_object input.file_key s)
