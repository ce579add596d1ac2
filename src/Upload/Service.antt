-- ===== src/Upload/Service.antt =====
-- processFile of src/modules/upload/application/use-cases/upload.service.ts. The disk, the file
-- processor, the encryption and the storage provider are an interface.
pub mod Files
use project_saas_backend.Common.{
  ℕ, suc, Text, codes, to_lower, Option, none, some, List, [], ◌∷◌, ◌++◌, map, Bool, true, false,
  ◌==◌, if◌then◌else◌, length, get_elem?,
}
use project_saas_backend.Common.Result.{Result, ok, err}
use project_saas_backend.Errors.{Thrown, thrown_api, from_definition}
use project_saas_backend.Errors.Registry
use project_saas_backend.Upload.Registry.{
  FileTypeRegistry, Processing, get_file_type_config, should_encrypt,
}
use project_saas_backend.Upload.Validator.{ValidationError, validate}
use project_saas_backend.Upload.LocalStorage.{StoredFile}
use project_saas_backend.Upload.Audit.{
  upload_start, upload_complete, upload_failed, pending, success, failure, AuditLogEntry, Audit,
  change, log, set,
}

pub record UploadContext : Type 0 where
  pub user_id : Option Text
  pub request_id : Option Text

-- A multer file on disk.
pub record UploadedFile : Type 0 where
  pub path : Text
  pub original_name : Text
  pub filename : Text
  pub mimetype : Text
  pub size : ℕ

pub record ProcessedFile : Type 0 where
  pub buffer : List ℕ
  pub format : Text
  pub mime_type : Text

pub record SaveFileInput : Type 0 where
  pub buffer : List ℕ
  pub filename : Text
  pub mime_type : Text
  pub size : ℕ
  pub is_encrypted : Bool
  pub upload_type : Text

pub record UploadResult : Type 0 where
  pub temp_url : Text
  pub server_file_name : Text
  pub original_file_name : Text
  pub mime_type : Text
  pub size : ℕ
  pub is_encrypted : Bool

-- The times that one call reads: its start, and the durations it writes.
pub record Clock : Type 0 where
  pub started_at : ℕ
  pub validated_ms : ℕ
  pub finished_ms : ℕ

pub record Services : Type 1 where
  pub Disk : Type 0
  -- `fs.readFile` and `fs.unlink`, whose error is ignored
  pub read_file : Disk → Text → Result Thrown (List ℕ)
  pub unlink : Disk → Text → Disk
  -- `fileProcessor.process(buffer, options, { fallbackMimeType, fallbackExtension })`
  pub process : List ℕ → Option Processing → Text → Text → Result Thrown ProcessedFile
  pub encrypt_buffer : List ℕ → Result Thrown (List ℕ)
  pub save_temp : SaveFileInput → Disk → Result Thrown StoredFile × Disk
  -- `(error as Error).message`
  pub message_of : Thrown → Text
  -- `path.extname` and `path.parse(name).name`
  pub extname : Text → Text
  pub stem : Text → Text

abbrev content_of : Result Thrown (List ℕ) → Option (List ℕ)
content_of (ok b) = some b
content_of (err e) = none

unfoldable pub join_with : Text → List Text → Text
join_with sep [] = []
join_with sep (t ∷ []) = t
join_with sep (t ∷ u ∷ ts) = t ++ sep ++ join_with sep (u ∷ ts)

-- `replace('.', '')`, the first dot
remove_dot : Text → Text
remove_dot [] = []
remove_dot (c ∷ s) = if c == 46 then s else c ∷ remove_dot s

abbrev or_bin : Text → Text
or_bin [] = codes "bin"
or_bin (c ∷ s) = c ∷ s

module _ (V : Services) (reg : FileTypeRegistry) (max_file_size : ℕ)
    (enable_encryption enabled : Bool) where
  open V use {
    Disk, read_file, unlink, process, encrypt_buffer, save_temp, message_of, extname, stem,
  }

  pub record World : Type 0 where
    pub disk : Disk
    pub audit : Audit

  pub build_server_file_name : Text → Text → Text
  unfolding remove_dot
  build_server_file_name server_name extension =
      stem server_name ++ 46 ∷ or_bin (to_lower (remove_dot extension))

  pub new_entry : Clock → Text → UploadContext → UploadedFile → AuditLogEntry
  new_entry c t context file = record {
    operation = upload_start;
    timestamp = c.started_at;
    user_id = context.user_id;
    request_id = context.request_id;
    file_key = none;
    upload_type = some t;
    file_name = some file.original_name;
    file_size_bytes = some file.size;
    mime_type = some file.mimetype;
    status = pending;
    error_message = none;
    encrypted = none;
    duration_ms = none;
    metadata = none;
  }

  abbrev pub validation_failed : Clock → List ValidationError → AuditLogEntry → AuditLogEntry
  validation_failed c errors e = record e {
    status = failure;
    error_message = some (join_with (codes ", ") (map (λ (v : ValidationError). v.code) errors));
    duration_ms = some c.validated_ms;
  }

  abbrev pub completed : Clock → StoredFile → Bool → AuditLogEntry → AuditLogEntry
  completed c stored encrypt e = record e {
    status = success;
    operation = upload_complete;
    file_key = some stored.url;
    encrypted = some encrypt;
    duration_ms = some c.finished_ms;
  }

  abbrev pub failed : Clock → Thrown → AuditLogEntry → AuditLogEntry
  failed c error e = record e {
    status = failure;
    operation = upload_failed;
    error_message = some (message_of error);
    duration_ms = some c.finished_ms;
  }

  pub invalid_file : List ValidationError → Thrown
  unfolding join_with
  invalid_file errors = thrown_api (
      from_definition Registry.invalid_file_type
        (some (join_with (codes "; ") (map (λ (v : ValidationError). v.message) errors))) none)

  abbrev encrypted_or : Bool → List ℕ → Result Thrown (List ℕ)
  encrypted_or true b = encrypt_buffer b
  encrypted_or false b = ok b

  abbrev bind_result :
      {A B : Type 0}
      → Result Thrown A
      → (A → Disk → Result Thrown B × Disk)
      → Disk
      → Result Thrown B × Disk
  bind_result (ok a) f d = f a d
  bind_result (err e) f d = (err e, d)

  -- The steps after the validation, up to the saving: the stored file, its MIME type, and whether it
  -- was encrypted.
  pub store : UploadedFile → Text → Disk → Result Thrown (StoredFile × Text × Bool) × Disk
  unfolding build_server_file_name
  store file t disk =
      bind_result (read_file disk file.path)
        (λ raw. bind_result (get_file_type_config reg t) (λ config.
          bind_result
            (process raw config.processing file.mimetype (remove_dot (extname file.original_name)))
            (λ processed. bind_result (should_encrypt reg enable_encryption t) (λ encrypt.
              bind_result (encrypted_or encrypt processed.buffer) (λ final d.
                saved processed encrypt (
                  save_temp
                    (record {
                      buffer = final;
                      filename = build_server_file_name file.filename processed.format;
                      mime_type = processed.mime_type;
                      size = length final;
                      is_encrypted = encrypt;
                      upload_type = t;
                    })
                    d))))))
        disk
    where
      saved :
          ProcessedFile
          → Bool
          → Result Thrown StoredFile × Disk
          → Result Thrown (StoredFile × Text × Bool) × Disk
      saved processed encrypt (ok stored, d) = (ok (stored, processed.mime_type, encrypt), d)
      saved processed encrypt (err e, d) = (err e, d)

  -- `safeRemoveRawFile`
  abbrev pub remove_raw : Text → Disk → Disk
  remove_raw [] disk = disk
  remove_raw (c ∷ s) disk = unlink disk (c ∷ s)

  -- The `catch` block.
  abbrev pub give_up : {A : Type 0} → Clock → Text → ℕ → Thrown → World → Result Thrown A × World
  give_up c path i error w = (
    err error,
    record {
      disk = remove_raw path w.disk;
      audit = log enabled i (set i (failed c error) w.audit);
    },
  )

  abbrev pub finish_upload :
      Clock
      → UploadedFile
      → ℕ
      → Audit
      → Result Thrown (StoredFile × Text × Bool) × Disk
      → Result Thrown UploadResult × World
  finish_upload c file i a (err e, disk) =
      give_up c file.path i e (record { disk = disk; audit = a })
  finish_upload c file i a (ok (stored, mime, encrypt), disk) = (
    ok (record {
      temp_url = stored.url;
      server_file_name = stored.filename;
      original_file_name = file.original_name;
      mime_type = mime;
      size = stored.size;
      is_encrypted = encrypt;
    }),
    record {
      disk = remove_raw file.path disk;
      audit = log enabled i (set i (completed c stored encrypt) a);
    },
  )

  abbrev pub after_validation :
      Clock
      → UploadedFile
      → Text
      → ℕ
      → List ValidationError
      → World
      → Result Thrown UploadResult × World
  after_validation c file t i [] w = finish_upload c file i w.audit (store file t w.disk)
  after_validation c file t i (e ∷ es) w =
      give_up c file.path i (invalid_file (e ∷ es))
        (record w { audit = log enabled i (set i (validation_failed c (e ∷ es)) w.audit) })

  abbrev pub errors_of : UploadedFile → Text → Disk → List ValidationError
  errors_of file t disk =
      validate reg max_file_size
        (record {
          mimetype = file.mimetype;
          size = file.size;
          content = content_of (read_file disk file.path);
        })
        t

  unfoldable pub process_file :
      Clock → UploadedFile → Text → UploadContext → World → Result Thrown UploadResult × World
  unfolding invalid_file store new_entry validate join_with
  process_file c file t context w =
      let i = length w.audit.entries in
      after_validation c file t i (errors_of file t w.disk) (record w {
        audit = record (w.audit) { entries = w.audit.entries ++ new_entry c t context file ∷ [] };
      })
