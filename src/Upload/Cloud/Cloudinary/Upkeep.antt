-- ===== src/Upload/Cloud/Cloudinary/Upkeep.antt =====
-- head, cleanupTemp and completePresignedUpload of src/modules/upload/infrastructure/providers/
-- cloudinary-storage.provider.ts.
use project_saas_backend.Common.{
  ℕ, ◌+◌, ◌-◌, ◌*◌, Text, codes, Option, none, some, List, [], ◌∷◌, ◌++◌, Bool, ltb, if◌then◌else◌,
  filter,
}
use project_saas_backend.Common.Decimal.{decimal}
use project_saas_backend.Common.Result.{Result, ok, err}
use project_saas_backend.Errors.{Thrown, thrown_api, from_definition}
use project_saas_backend.Errors.Registry
use project_saas_backend.Upload.Config.Types.{CloudinaryProviderConfig}
use project_saas_backend.Upload.PresignedUrl.{PresignedCompleteInput, PresignedCompleteResult}
use project_saas_backend.Upload.Cloud.Keys.{far_from, or_zero}
use project_saas_backend.Upload.Cloud.Cloudinary.{
  Resource, Failure, not_found, failure, ResourcePage, MediaStore, mime_from_format,
}

-- What a head answers: the resource's size and type, that there is none, or another failure.
pub data ResourceHead : Type 0 where
  present : ℕ → Text → ResourceHead
  missing : ResourceHead
  broken : Thrown → ResourceHead

abbrev pub head_of : Result Failure Resource → ResourceHead
unfolding mime_from_format
head_of (ok r) = present r.bytes (mime_from_format r.format r.resource_type)
head_of (err not_found) = missing
head_of (err (failure e)) = broken e

module _ (cfg : CloudinaryProviderConfig) (V : MediaStore) where
  open V use {Store, destroy, list_resources, resource, public_url}

  unfoldable pub head : Text → Store → ResourceHead
  unfolding mime_from_format
  head file_key s = head_of (resource file_key s)

  abbrev pub is_old : ℕ → Resource → Bool
  is_old cutoff r = ltb r.created_at cutoff

  -- `for (const r of stale)`: a deletion that throws ends the cleanup with what was deleted before.
  abbrev pub after_destroy :
      ℕ → Result Thrown Text × Store → (ℕ → Store → Result ℕ ℕ × Store) → Result ℕ ℕ × Store
  after_destroy deleted (ok _, s) rest = rest (deleted + 1) s
  after_destroy deleted (err e, s) rest = (err deleted, s)

  abbrev pub destroy_all : List Resource → ℕ → Store → Result ℕ ℕ × Store
  destroy_all [] deleted s = (ok deleted, s)
  destroy_all (r ∷ rs) deleted s =
      after_destroy deleted (destroy r.public_id s) (λ d s'. destroy_all rs d s')

  abbrev pub after_page :
      Option Text → Result ℕ ℕ × Store → (Text → ℕ → Store → Option ℕ × Store) → Option ℕ × Store
  after_page cursor (err deleted, s) rest = (some deleted, s)
  after_page none (ok deleted, s) rest = (some deleted, s)
  after_page (some []) (ok deleted, s) rest = (some deleted, s)
  after_page (some (c ∷ t)) (ok deleted, s) rest = rest (c ∷ t) deleted s

  abbrev pub on_page :
      ℕ
      → ℕ
      → Result Thrown ResourcePage
      → Store
      → (Text → ℕ → Store → Option ℕ × Store)
      → Option ℕ × Store
  unfolding filter
  on_page cutoff deleted (err e) s rest = (some deleted, s)
  on_page cutoff deleted (ok page) s rest =
      after_page page.next_cursor (destroy_all (filter (is_old cutoff) page.resources) deleted s)
        rest

  -- `none`: the fuel, a bound on the pages, ran out.
  unfoldable pub cleanup_pages : ℕ → ℕ → Option Text → ℕ → Store → Option ℕ × Store
  unfolding filter codes
  cleanup_pages ℕ.zero cutoff cursor deleted s = (none, s)
  cleanup_pages (ℕ.suc fuel) cutoff cursor deleted s =
      on_page cutoff deleted (list_resources (cfg.folder ++ codes "/temp/") cursor s) s
        (λ t d s'. cleanup_pages fuel cutoff (some t) d s')

  unfoldable pub cleanup_temp : ℕ → ℕ → ℕ → Store → Option ℕ × Store
  unfolding cleanup_pages
  cleanup_temp fuel now older_than_hours s =
      cleanup_pages fuel (now - older_than_hours * 3600 * 1000) none 0 s

  abbrev pub completed :
      PresignedCompleteInput → ResourceHead → Result Thrown PresignedCompleteResult
  unfolding codes decimal
  completed input (broken e) = err e
  completed input missing = err (
      thrown_api (
        from_definition Registry.file_not_found
          (some (codes "Cloudinary resource " ++ input.file_key ++ codes " not found.")) none))
  completed input (present size mime) =
      if far_from 4096 input.expected_size size
      then err (
          thrown_api (
            from_definition Registry.bad_request
              (some (
                codes "Size mismatch: expected "
                ++ decimal (or_zero input.expected_size)
                ++ codes ", got "
                ++ decimal size
                ++ codes "."))
              none))
      else ok (record {
        size = size;
        content_type = some mime;
        url = public_url input.file_key cfg.secure;
        file_key = input.file_key;
      })

  unfoldable pub complete_presigned_upload :
      PresignedCompleteInput → Store → Result Thrown PresignedCompleteResult
  unfolding head codes decimal
  complete_presigned_upload input s = completed input (head input.file_key s)
