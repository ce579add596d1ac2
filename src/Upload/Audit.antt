-- ===== src/Upload/Audit.antt =====
-- src/modules/upload/domain/interfaces/audit-logger.interface.ts and
-- src/modules/upload/infrastructure/audit/audit-logger.service.ts. An audit entry is an object that
-- is changed after it was logged, so entries have addresses. The provider's name in an entry is left
-- out: it is the same in all of them.
pub mod Laws
use project_saas_backend.Common.{
  ℕ, ◌-◌, suc, Text, text_eq, Option, none, some, List, [], ◌∷◌, ◌++◌, map, Bool, true, false, ◌&&◌,
  ◌==◌, leb, if◌then◌else◌, length, drop, filter, get_elem?,
}

pub data FileOperationType : Type 0 where
  upload_start : FileOperationType
  upload_complete : FileOperationType
  upload_failed : FileOperationType
  commit : FileOperationType
  delete : FileOperationType
  cleanup : FileOperationType

pub data AuditStatus : Type 0 where
  pending : AuditStatus
  success : AuditStatus
  failure : AuditStatus

-- The metadata of a cleanup.
pub record Metadata : Type 0 where
  pub older_than_hours : ℕ
  pub deleted : Option ℕ

pub record AuditLogEntry : Type 0 where
  pub operation : FileOperationType
  pub timestamp : ℕ
  pub user_id : Option Text
  pub request_id : Option Text
  pub file_key : Option Text
  pub upload_type : Option Text
  pub file_name : Option Text
  pub file_size_bytes : Option ℕ
  pub mime_type : Option Text
  pub status : AuditStatus
  pub error_message : Option Text
  pub encrypted : Option Bool
  pub duration_ms : Option ℕ
  pub metadata : Option Metadata

-- The entries by address, and the addresses in the logger's buffer, the oldest first.
pub record Audit : Type 0 where
  pub entries : List AuditLogEntry
  pub logs : List ℕ

unfoldable pub change :
    ℕ → (AuditLogEntry → AuditLogEntry) → List AuditLogEntry → List AuditLogEntry
change i f [] = []
change ℕ.zero f (e ∷ es) = f e ∷ es
change (suc i) f (e ∷ es) = e ∷ change i f es

-- What the buffer shows: each logged entry as it is now.
unfoldable pub trail : Audit → List (Option AuditLogEntry)
trail a = map (λ i. get_elem? a.entries i) a.logs

abbrev pub log : Bool → ℕ → Audit → Audit
log enabled i a = if enabled then record a { logs = a.logs ++ i ∷ [] } else a

abbrev pub set : ℕ → (AuditLogEntry → AuditLogEntry) → Audit → Audit
set i f a = record a { entries = change i f a.entries }

-- The entries that the buffer shows.
unfoldable pub present : List (Option AuditLogEntry) → List AuditLogEntry
present [] = []
present (none ∷ es) = present es
present (some e ∷ es) = e ∷ present es

abbrev same_text : Option Text → Text → Bool
unfolding text_eq
same_text none t = false
same_text (some s) t = text_eq s t

unfoldable pub get_audit_trail : Text → Audit → List AuditLogEntry
unfolding trail present filter text_eq
get_audit_trail file_key a = filter (λ e. same_text e.file_key file_key) (present (trail a))

-- `slice(-limit)`; `slice(-0)` is the whole array.
abbrev pub slice_last {ℓ} : {A : Type ℓ} → ℕ → List A → List A
slice_last limit xs = if limit == 0 then xs else drop (length xs - limit) xs

unfoldable pub entries_of_user : Text → Audit → List AuditLogEntry
unfolding trail present filter text_eq
entries_of_user user_id a = filter (λ e. same_text e.user_id user_id) (present (trail a))

unfoldable pub get_audit_trail_for_user : Text → ℕ → Audit → List AuditLogEntry
unfolding entries_of_user
get_audit_trail_for_user user_id limit a = slice_last limit (entries_of_user user_id a)

unfoldable pub get_audit_trail_for_date_range : ℕ → ℕ → Audit → List AuditLogEntry
unfolding trail present filter
get_audit_trail_for_date_range start finish a =
    filter (λ e. leb start e.timestamp && leb e.timestamp finish) (present (trail a))

abbrev pub clear_logs : Audit → Audit
clear_logs a = record a { logs = [] }
