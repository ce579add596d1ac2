-- ===== src/Upload/Service/Files/Laws.antt =====
-- What the audit log says of commits, removals and cleanups.
use project_saas_backend.Common.{
  ℕ, ◌-◌, Text, some, [], ◌∷◌, ◌++◌, true, ◌≡◌, refl, ◌⊎◌, inl, inr, length,
}
use project_saas_backend.Common.Result.{Result, ok, err}
use project_saas_backend.Errors.{Thrown}
use project_saas_backend.Upload.Registry.{FileTypeRegistry, get_file_type_config}
use project_saas_backend.Upload.LocalStorage.{StoredFile}
use project_saas_backend.Upload.Audit.{commit, success, failure, AuditLogEntry, Audit, trail}
use project_saas_backend.Upload.Audit.Laws.{Sound, change-last, trail_once}
use project_saas_backend.Upload.Service.{UploadContext}
use project_saas_backend.Upload.Service.Files.{
  StorageProvider, MoveFileResult, Files, opened, closed, create_audit_entry, no_overrides,
  committed, failed, cleaned, not_cleaned, end_commit, end_cleanup, commit_known, commit_file,
  cleanup_temp,
}

module _ (V : StorageProvider) (reg : FileTypeRegistry) where
  -- The entry that is opened, changed and logged is the last one of the trail.
  closed_once :
      (a : Audit) (e : AuditLogEntry) (f : AuditLogEntry → AuditLogEntry)
      → Sound a
      → trail (closed V reg true (length a.entries) f (opened V reg true e a))
        ≡ trail a ++ some (f e) ∷ []
  closed_once a e f sound = rw (change-last a.entries e f) (trail_once a (f e) sound)

  -- The entry says what was answered.
  abbrev pub CommitEntry : Result Thrown MoveFileResult → AuditLogEntry → Type 0
  CommitEntry (ok r) e = (e.status ≡ success) × (e.file_key ≡ some r.permanent_url)
  CommitEntry (err x) e = (e.status ≡ failure) × (e.error_message ≡ some (V.message_of x))

  end_commit-trail :
      (duration : ℕ) (a : Audit) (e : AuditLogEntry) (o : Result Thrown StoredFile × V.Storage)
      → Sound a
      → (e' : AuditLogEntry) × (trail
            (end_commit V reg true duration (length a.entries) (opened V reg true e a) o).1.audit
          ≡ trail a ++ some e' ∷ [])
        × CommitEntry
            (end_commit V reg true duration (length a.entries) (opened V reg true e a) o).0
            e'
        × (e'.operation ≡ e.operation)
        × (e'.user_id ≡ e.user_id)
        × (e'.file_name ≡ e.file_name)
  end_commit-trail duration a e (ok stored, storage) sound = (
    committed V reg true duration stored e,
    closed_once a e (committed V reg true duration stored) sound,
    (refl, refl),
    refl,
    refl,
    refl,
  )
  end_commit-trail duration a e (err x, storage) sound = (
    failed V reg true duration x e,
    closed_once a e (failed V reg true duration x) sound,
    (refl, refl),
    refl,
    refl,
    refl,
  )

  -- With auditing on, a commit adds one entry to the trail, for the user and the file it was asked
  -- for: a success with the permanent URL that is answered, or a failure with the message of the error
  -- that is thrown.
  pub commit_file-CommitEntry :
      (now finished : ℕ) (identifier t : Text) (context : UploadContext) (w : Files V reg true)
      → Sound w.audit
      → (e : AuditLogEntry) × (trail
            (commit_file V reg true now finished identifier t context w).1.audit
          ≡ trail w.audit ++ some e ∷ [])
        × CommitEntry (commit_file V reg true now finished identifier t context w).0 e
        × (e.operation ≡ commit)
        × (e.user_id ≡ context.user_id)
        × (e.file_name ≡ some identifier)
  unfolding commit_file create_audit_entry
  commit_file-CommitEntry now finished identifier t context w sound =
      end_commit-trail (finished - now) w.audit
        (create_audit_entry commit now (some t) context
          (record no_overrides { file_name = some identifier }))
        (commit_known V reg true identifier t (get_file_type_config reg t) w.storage) sound

  -- A type that is not registered is refused before the storage is touched.
  pub commit_file-unknown :
      (now finished : ℕ) (identifier t : Text) (context : UploadContext) (w : Files V reg true)
      (x : Thrown)
      → get_file_type_config reg t ≡ err x
      → ((commit_file V reg true now finished identifier t context w).0 ≡ err x)
        × ((commit_file V reg true now finished identifier t context w).1.storage ≡ w.storage)
  unfolding commit_file
  commit_file-unknown now finished identifier t context w x unknown =
      (rw unknown refl, rw unknown refl)

  -- The entry of a cleanup has the number that was answered.
  abbrev pub CleanupEntry : ℕ → ℕ → AuditLogEntry → Type 0
  CleanupEntry hours deleted e =
      ((e.status ≡ success)
        × (e.metadata ≡ some (record { older_than_hours = hours; deleted = some deleted })))
      ⊎ ((e.status ≡ failure) × (deleted ≡ 0))

  end_cleanup-trail :
      (hours : ℕ) (a : Audit) (e : AuditLogEntry) (o : Result Thrown ℕ × V.Storage)
      → Sound a
      → (e' : AuditLogEntry) × (trail
            (end_cleanup V reg true hours (length a.entries) (opened V reg true e a) o).1.audit
          ≡ trail a ++ some e' ∷ [])
        × CleanupEntry hours
            (end_cleanup V reg true hours (length a.entries) (opened V reg true e a) o).0
            e'
  end_cleanup-trail hours a e (ok n, storage) sound = (
    cleaned V reg true hours n e,
    closed_once a e (cleaned V reg true hours n) sound,
    inl (refl, refl),
  )
  end_cleanup-trail hours a e (err x, storage) sound = (
    not_cleaned V reg true x e,
    closed_once a e (not_cleaned V reg true x) sound,
    inr (refl, refl),
  )

  -- With auditing on, a cleanup adds one entry to the trail: a success with the number of files that
  -- is answered, or a failure, and then the answer is 0.
  pub cleanup_temp-CleanupEntry :
      (now hours : ℕ) (w : Files V reg true)
      → Sound w.audit
      → (e : AuditLogEntry) × (trail (cleanup_temp V reg true now hours w).1.audit
          ≡ trail w.audit ++ some e ∷ [])
        × CleanupEntry hours (cleanup_temp V reg true now hours w).0 e
  unfolding cleanup_temp create_audit_entry
  cleanup_temp-CleanupEntry now hours w sound =
      end_cleanup-trail hours w.audit _ (V.cleanup_temp_files hours w.storage) sound
