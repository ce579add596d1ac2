-- ===== src/Upload/ServiceTests.antt =====
-- The witnesses of the theorems on the audit trail of uploads.
use project_saas_backend.Common.{Text, codes, none, some, List, [], ◌∷◌, ◌++◌, ◌≡◌, true, false}
use project_saas_backend.Common.Result.{ok, err}
use project_saas_backend.Errors.{native}
use project_saas_backend.Upload.Audit.{commit, cleanup, AuditLogEntry, Audit, trail}
use project_saas_backend.Upload.Service.Files.{
  StorageProvider, Files, create_audit_entry, no_overrides, commit_file,
}
use project_saas_backend.Upload.Service.Files.Laws.{CommitEntry, commit_file-CommitEntry}
use project_saas_backend.Upload.Registry.{load_file_type_registry}
use project_saas_backend.Upload.Service.{
  UploadContext, UploadedFile, Clock, Services, World, process_file,
}
use project_saas_backend.Upload.Trail.{Left, process_file-Left}

-- The disk holds the raw files that were removed; the processor and the encryption change nothing.
abbrev toy_services : Services
toy_services = record {
  Disk = List Text;
  read_file = λ disk path. ok (60 ∷ 115 ∷ 118 ∷ 103 ∷ 62 ∷ []);
  unlink = λ disk path. path ∷ disk;
  process = λ bytes options mime extension.
      ok (record { buffer = bytes; format = extension; mime_type = mime });
  encrypt_buffer = λ bytes. ok bytes;
  save_temp = λ input disk. (
    ok (record {
      url = codes "/uploads/temp/";
      filename = input.filename;
      size = input.size;
      key = input.filename;
      mime_type = some input.mime_type;
    }),
    disk,
  );
  message_of = λ e. codes "failed";
  extname = λ name. codes ".svg";
  stem = λ name. name;
}

-- An SVG sent as a PNG avatar.
abbrev logo : UploadedFile
logo = record {
  path = codes "/tmp/1";
  original_name = codes "logo.svg";
  filename = codes "1";
  mimetype = codes "image/png";
  size = 5;
}

abbrev before : World toy_services load_file_type_registry 1000 true true
before = record { disk = []; audit = record { entries = []; logs = [] } }

abbrev clock : Clock
clock = record { started_at = 1; validated_ms = 2; finished_ms = 3 }

abbrev nobody : UploadContext
nobody = record { user_id = none; request_id = none }

process_file-Left_example :
    Left toy_services load_file_type_registry 1000 true clock logo (codes "avatar") nobody before (
      process_file toy_services load_file_type_registry 1000 true true clock logo
        (codes "avatar")
        nobody
        before)
process_file-Left_example =
    process_file-Left toy_services load_file_type_registry 1000 true clock logo (codes "avatar")
      nobody before tt

-- A storage without files.
abbrev no_storage : StorageProvider
no_storage = record {
  Storage = Unit;
  commit_to_permanent = λ identifier t s. (err (native (codes "gone") (codes "gone")), s);
  delete_file = λ url s. (ok false, s);
  cleanup_temp_files = λ hours s. (ok 3, s);
  message_of = λ e. codes "gone";
}

abbrev no_files : Files no_storage load_file_type_registry true
no_files = record { storage = tt; audit = record { entries = []; logs = [] } }

commit_file-CommitEntry_example :
    (e : AuditLogEntry) × (trail
        (commit_file no_storage load_file_type_registry true 1 2
          (codes "a.png")
          (codes "avatar")
          nobody
          no_files).1.audit
      ≡ trail no_files.audit ++ some e ∷ [])
    × CommitEntry no_storage load_file_type_registry
        (commit_file no_storage load_file_type_registry true 1 2
          (codes "a.png")
          (codes "avatar")
          nobody
          no_files).0
        e
    × (e.operation ≡ commit)
    × (e.user_id ≡ none)
    × (e.file_name ≡ some (codes "a.png"))
commit_file-CommitEntry_example =
    commit_file-CommitEntry no_storage load_file_type_registry 1 2 (codes "a.png") (codes "avatar")
      nobody no_files tt

abbrev by_user : Text → AuditLogEntry
by_user user_id =
    create_audit_entry cleanup 1 none (record { user_id = some user_id; request_id = none })
      no_overrides

abbrev three_entries : Audit
three_entries = record {
  entries = by_user (codes "a") ∷ by_user (codes "b") ∷ by_user (codes "a") ∷ [];
  logs = 0 ∷ 1 ∷ 2 ∷ [];
}
