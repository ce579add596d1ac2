-- ===== src/Upload/Cloud/S3/Laws.antt =====
-- What the provider of S3 keeps and moves.
use project_saas_backend.Common.{ℕ, Text, Option, ◌≡◌, ◌≢◌, refl, sym, ◌∙◌}
use project_saas_backend.Common.Result.{Result, ok, err, continue, pure}
use project_saas_backend.Errors.{Thrown}
use project_saas_backend.Upload.Config.Types.{S3ProviderConfig}
use project_saas_backend.Upload.LocalStorage.{StoredFile}
use project_saas_backend.Upload.LocalStorage.Objects.{safe_segment}
use project_saas_backend.Upload.Cloud.Keys.{extract_filename}
use project_saas_backend.Upload.Cloud.S3.{
  Head, present, missing, ObjectStore, build_permanent_key, temp_key, promote, commit_to_permanent,
}

-- What the provider relies on of the object store. A copy that succeeds gives the target what the
-- source has and a deletion that succeeds leaves nothing, both leave the other objects alone; a failed
-- one changes nothing.
pub record Reliable (V : ObjectStore) : Type 0 where
  pub copied :
      (from to : Text) (s s' : V.Bucket)
      → V.copy_object from to s ≡ (ok tt, s')
      → V.head_object to s' ≡ V.head_object from s
  pub copied_other :
      (from to k : Text) (s s' : V.Bucket)
      → V.copy_object from to s ≡ (ok tt, s')
      → k ≢ to
      → V.head_object k s' ≡ V.head_object k s
  pub not_copied :
      (from to k : Text) (s s' : V.Bucket) (e : Thrown)
      → V.copy_object from to s ≡ (err e, s')
      → V.head_object k s' ≡ V.head_object k s
  pub gone :
      (k : Text) (s s' : V.Bucket)
      → V.delete_object k s ≡ (ok tt, s')
      → V.head_object k s' ≡ missing
  pub gone_other :
      (k l : Text) (s s' : V.Bucket)
      → V.delete_object k s ≡ (ok tt, s')
      → l ≢ k
      → V.head_object l s' ≡ V.head_object l s
  pub not_gone :
      (k l : Text) (s s' : V.Bucket) (e : Thrown)
      → V.delete_object k s ≡ (err e, s')
      → V.head_object l s' ≡ V.head_object l s

module _ (cfg : S3ProviderConfig) (V : ObjectStore) (reliable : Reliable V) where
  -- After a move: the target has what the temp object had, which is gone; or an error is thrown, and
  -- the temp object is still there.
  abbrev pub Moved : Text → Text → Head → Result Thrown StoredFile × V.Bucket → Type 0
  Moved from to h (ok r, s) = (V.head_object to s ≡ h) × (V.head_object from s ≡ missing)
  Moved from to h (err e, s) = V.head_object from s ≡ h

  after_delete :
      (from to : Text) (h : Head) (stored : StoredFile) (s : V.Bucket)
      (o : Result Thrown (Unit {0}) × V.Bucket)
      → to ≢ from
      → V.head_object to s ≡ h
      → V.head_object from s ≡ h
      → V.delete_object from s ≡ o
      → Moved from to h (continue (λ _. pure stored) o)
  after_delete from to h stored s (ok u, s') other there here e =
      (reliable.gone_other from to s s' e other ∙ there, reliable.gone from s s' e)
  after_delete from to h stored s (err x, s') other there here e =
      reliable.not_gone from from s s' x e ∙ here

  after_copy :
      (from to : Text) (h : Head) (stored : StoredFile) (s : V.Bucket)
      (o : Result Thrown (Unit {0}) × V.Bucket)
      → to ≢ from
      → V.head_object from s ≡ h
      → V.copy_object from to s ≡ o
      → Moved from to h (continue (λ _ t. continue (λ _. pure stored) (V.delete_object from t)) o)
  after_copy from to h stored s (ok u, s') other here e =
      after_delete from to h stored s' (V.delete_object from s') other
        (reliable.copied from to s s' e ∙ here)
        (reliable.copied_other from to from s s' e (λ same. other (sym same)) ∙ here) refl
  after_copy from to h stored s (err x, s') other here e =
      reliable.not_copied from to from s s' x e ∙ here

  promoted :
      (from to filename : Text) (size : ℕ) (mime : Option Text) (s : V.Bucket)
      → to ≢ from
      → V.head_object from s ≡ present size mime
      → Moved from to (present size mime) (promote cfg V from to filename (V.head_object from s) s)
  unfolding promote
  promoted from to filename size mime s other here =
      rw here (after_copy from to (present size mime) _ s (V.copy_object from to s) other here refl)

  -- A commit of a temp object that exists, to another key, either puts what it is at the permanent key
  -- and leaves nothing at the temp one, or throws and leaves the temp object as it was: on no branch is
  -- the object lost.
  pub commit-Moved :
      (identifier upload_type : Text) (size : ℕ) (mime : Option Text) (s : V.Bucket)
      → let from = temp_key cfg V identifier (safe_segment upload_type) in
        let to = build_permanent_key cfg (safe_segment upload_type) (extract_filename identifier) in
        to ≢ from
        → V.head_object from s ≡ present size mime
        → Moved from to (present size mime) (commit_to_permanent cfg V identifier upload_type s)
  unfolding commit_to_permanent
  commit-Moved identifier upload_type size mime s other here =
      promoted _ _ (extract_filename identifier) size mime s other here
