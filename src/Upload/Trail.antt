-- ===== src/Upload/Trail.antt =====
-- What the audit trail shows after `processFile`.
use project_saas_backend.Common.{
  ℕ, Text, some, List, [], ◌∷◌, ◌++◌, Bool, true, ◌≡◌, ◌≢◌, refl, length,
}
use project_saas_backend.Common.Result.{Result, ok, err}
use project_saas_backend.Errors.{Thrown}
use project_saas_backend.Upload.Registry.{FileTypeRegistry}
use project_saas_backend.Upload.Validator.{ValidationError}
use project_saas_backend.Upload.LocalStorage.{StoredFile}
use project_saas_backend.Upload.Audit.{AuditLogEntry, success, failure, Audit, trail}
use project_saas_backend.Upload.Audit.Laws.{Sound, change-last, trail_once, trail_twice}
use project_saas_backend.Upload.Service.{
  UploadContext, UploadedFile, UploadResult, Clock, Services, World, new_entry, validation_failed,
  completed, failed, invalid_file, store, finish_upload, after_validation, errors_of, process_file,
}

module _ (V : Services) (reg : FileTypeRegistry) (max_file_size : ℕ) (enable_encryption : Bool)
    (c : Clock) (file : UploadedFile) (t : Text) (context : UploadContext) where
  -- What a call left, with auditing on.
  pub data Left (w : World V reg max_file_size enable_encryption true)
      : Result Thrown UploadResult × World V reg max_file_size enable_encryption true → Type 0 where
    stored :
        (r : UploadResult) (w' : World V reg max_file_size enable_encryption true)
        (e : AuditLogEntry)
        → errors_of V reg max_file_size enable_encryption true file t w.disk ≡ []
        → e.status ≡ success
        → trail w'.audit ≡ trail w.audit ++ some e ∷ []
        → Left w (ok r, w')
    broke :
        (x : Thrown) (w' : World V reg max_file_size enable_encryption true) (e : AuditLogEntry)
        → errors_of V reg max_file_size enable_encryption true file t w.disk ≡ []
        → e.status ≡ failure
        → e.error_message ≡ some (V.message_of x)
        → trail w'.audit ≡ trail w.audit ++ some e ∷ []
        → Left w (err x, w')
    invalid :
        (x : Thrown) (w' : World V reg max_file_size enable_encryption true) (e : AuditLogEntry)
        → errors_of V reg max_file_size enable_encryption true file t w.disk ≢ []
        → e.status ≡ failure
        → e.error_message ≡ some (V.message_of x)
        → trail w'.audit ≡ trail w.audit ++ some e ∷ some e ∷ []
        → Left w (err x, w')

  module _ (w : World V reg max_file_size enable_encryption true) (sound : Sound w.audit) where
    abbrev first : AuditLogEntry
    first = new_entry V reg max_file_size enable_encryption true c t context file

    abbrev opened : Audit
    opened = record (w.audit) { entries = w.audit.entries ++ first ∷ [] }

    finish_Left :
        (o : Result Thrown (StoredFile × Text × Bool) × V.Disk)
        → errors_of V reg max_file_size enable_encryption true file t w.disk ≡ []
        → Left w (
            finish_upload V reg max_file_size enable_encryption true c file
              (length w.audit.entries)
              opened
              o)
    finish_Left (ok (s, mime, encrypt), disk) valid =
        stored _ _ (completed V reg max_file_size enable_encryption true c s encrypt first) valid
          refl
          (rw
            (change-last w.audit.entries first
              (completed V reg max_file_size enable_encryption true c s encrypt))
            (trail_once w.audit _ sound))
    finish_Left (err x, disk) valid =
        broke x _ (failed V reg max_file_size enable_encryption true c x first) valid refl refl (
          rw
            (change-last w.audit.entries first
              (failed V reg max_file_size enable_encryption true c x))
            (trail_once w.audit _ sound))

    validation_Left :
        (errors : List ValidationError)
        → errors_of V reg max_file_size enable_encryption true file t w.disk ≡ errors
        → Left w (
            after_validation V reg max_file_size enable_encryption true c file t
              (length w.audit.entries)
              errors
              (record w { audit = opened }))
    validation_Left [] valid =
        finish_Left (store V reg max_file_size enable_encryption true file t w.disk) valid
    validation_Left (v ∷ vs) found =
        let x = invalid_file V reg max_file_size enable_encryption true (v ∷ vs) in
        let e = validation_failed V reg max_file_size enable_encryption true c (v ∷ vs) first in
        invalid x _ (failed V reg max_file_size enable_encryption true c x e)
          (λ none_found. absurd (cc (found, none_found))) refl refl
          (rw
            (
              change-last w.audit.entries first
                  (validation_failed V reg max_file_size enable_encryption true c (v ∷ vs)),
              change-last w.audit.entries e (failed V reg max_file_size enable_encryption true c x),
            )
            (trail_twice w.audit _ sound))

    -- With auditing on, every upload leaves the earlier trail as it was and adds to it: one successful
    -- entry where it succeeds; one failed entry with the message of the error where a step after the
    -- validation fails; and where the file is not valid the same failed entry twice, since the entry
    -- that was logged with the codes of the validation errors is changed before it is logged again.
    pub process_file-Left :
        Left w (process_file V reg max_file_size enable_encryption true c file t context w)
    unfolding process_file
    process_file-Left =
        validation_Left (errors_of V reg max_file_size enable_encryption true file t w.disk) refl
