-- ===== src/Upload/Service/Files.antt =====
-- commitFile, removeFile and cleanupTemp of src/modules/upload/application/use-cases/
-- upload.service.ts, over the contract of a storage provider. The end of a call is read once.
pub mod Laws
use project_saas_backend.Common.{
  ℕ, ◌-◌, Text, Option, none, some, List, [], ◌∷◌, ◌++◌, Bool, true, false, if◌then◌else◌, length,
}
use project_saas_backend.Common.Result.{Result, ok, err}
use project_saas_backend.Errors.{Thrown}
use project_saas_backend.Upload.Registry.{FileTypeRegistry, FileTypeConfig, get_file_type_config}
use project_saas_backend.Upload.LocalStorage.{StoredFile}
use project_saas_backend.Upload.Audit.{
  FileOperationType, commit, delete, cleanup, AuditStatus, pending, success, failure, AuditLogEntry,
  Metadata, Audit, log, set,
}
use project_saas_backend.Upload.Service.{UploadContext}

-- IStorageProvider, as these calls use it, and `(error as Error).message`.
pub record StorageProvider : Type 1 where
  pub Storage : Type 0
  pub commit_to_permanent : Text → Text → Storage → Result Thrown StoredFile × Storage
  pub delete_file : Text → Storage → Result Thrown Bool × Storage
  pub cleanup_temp_files : ℕ → Storage → Result Thrown ℕ × Storage
  pub message_of : Thrown → Text

pub record MoveFileResult : Type 0 where
  pub permanent_url : Text
  pub server_file_name : Text

-- What `createAuditEntry` takes beside the context.
pub record Overrides : Type 0 where
  pub file_key : Option Text
  pub file_name : Option Text
  pub metadata : Option Metadata

abbrev pub no_overrides : Overrides
no_overrides = record { file_key = none; file_name = none; metadata = none }

unfoldable pub create_audit_entry :
    FileOperationType → ℕ → Option Text → UploadContext → Overrides → AuditLogEntry
create_audit_entry operation now upload_type context overrides = record {
  operation = operation;
  timestamp = now;
  user_id = context.user_id;
  request_id = context.request_id;
  file_key = overrides.file_key;
  upload_type = upload_type;
  file_name = overrides.file_name;
  file_size_bytes = none;
  mime_type = none;
  status = pending;
  error_message = none;
  encrypted = none;
  duration_ms = none;
  metadata = overrides.metadata;
}

module _ (V : StorageProvider) (reg : FileTypeRegistry) (enabled : Bool) where
  open V use {Storage, commit_to_permanent, delete_file, cleanup_temp_files, message_of}

  pub record Files : Type 0 where
    pub storage : Storage
    pub audit : Audit

  -- The entry is changed, and logged.
  abbrev pub closed : ℕ → (AuditLogEntry → AuditLogEntry) → Audit → Audit
  closed i f a = log enabled i (set i f a)

  abbrev pub failed : ℕ → Thrown → AuditLogEntry → AuditLogEntry
  failed duration error e = record e {
    status = failure;
    error_message = some (message_of error);
    duration_ms = some duration;
  }

  abbrev pub committed : ℕ → StoredFile → AuditLogEntry → AuditLogEntry
  committed duration stored e = record e {
    status = success;
    file_key = some stored.url;
    duration_ms = some duration;
  }

  abbrev pub commit_known :
      Text → Text → Result Thrown FileTypeConfig → Storage → Result Thrown StoredFile × Storage
  commit_known identifier t (err e) storage = (err e, storage)
  commit_known identifier t (ok _) storage = commit_to_permanent identifier t storage

  abbrev pub end_commit :
      ℕ → ℕ → Audit → Result Thrown StoredFile × Storage → Result Thrown MoveFileResult × Files
  end_commit duration i a (ok stored, storage) = (
    ok (record { permanent_url = stored.url; server_file_name = stored.filename }),
    record { storage = storage; audit = closed i (committed duration stored) a },
  )
  end_commit duration i a (err e, storage) =
      (err e, record { storage = storage; audit = closed i (failed duration e) a })

  abbrev pub opened : AuditLogEntry → Audit → Audit
  opened e a = record a { entries = a.entries ++ e ∷ [] }

  unfoldable pub commit_file :
      ℕ → ℕ → Text → Text → UploadContext → Files → Result Thrown MoveFileResult × Files
  unfolding get_file_type_config create_audit_entry
  commit_file now finished identifier t context w =
      end_commit (finished - now) (length w.audit.entries)
        (opened
          (create_audit_entry commit now (some t) context
            (record no_overrides { file_name = some identifier }))
          w.audit)
        (commit_known identifier t (get_file_type_config reg t) w.storage)

  abbrev pub removed : ℕ → Bool → AuditLogEntry → AuditLogEntry
  removed duration deleted e = record e {
    status = if deleted then success else failure;
    duration_ms = some duration;
  }

  abbrev pub end_remove : ℕ → ℕ → Audit → Result Thrown Bool × Storage → Result Thrown Bool × Files
  end_remove duration i a (ok deleted, storage) =
      (ok deleted, record { storage = storage; audit = closed i (removed duration deleted) a })
  end_remove duration i a (err e, storage) =
      (err e, record { storage = storage; audit = closed i (failed duration e) a })

  unfoldable pub remove_file : ℕ → ℕ → Text → UploadContext → Files → Result Thrown Bool × Files
  unfolding create_audit_entry
  remove_file now finished file_url context w =
      end_remove (finished - now) (length w.audit.entries)
        (opened
          (create_audit_entry delete now none context
            (record no_overrides { file_key = some file_url }))
          w.audit)
        (delete_file file_url w.storage)

  abbrev pub cleaned : ℕ → ℕ → AuditLogEntry → AuditLogEntry
  cleaned hours deleted e = record e {
    status = success;
    metadata = some (record { older_than_hours = hours; deleted = some deleted });
  }

  abbrev pub not_cleaned : Thrown → AuditLogEntry → AuditLogEntry
  not_cleaned error e = record e { status = failure; error_message = some (message_of error) }

  -- The `catch` answers 0.
  abbrev pub end_cleanup : ℕ → ℕ → Audit → Result Thrown ℕ × Storage → ℕ × Files
  end_cleanup hours i a (ok deleted, storage) =
      (deleted, record { storage = storage; audit = closed i (cleaned hours deleted) a })
  end_cleanup hours i a (err e, storage) =
      (0, record { storage = storage; audit = closed i (not_cleaned e) a })

  unfoldable pub cleanup_temp : ℕ → ℕ → Files → ℕ × Files
  unfolding create_audit_entry
  cleanup_temp now hours w =
      end_cleanup hours (length w.audit.entries)
        (opened
          (create_audit_entry cleanup now none (record { user_id = none; request_id = none })
            (record no_overrides {
              metadata = some (record { older_than_hours = hours; deleted = none });
            }))
          w.audit)
        (cleanup_temp_files hours w.storage)
