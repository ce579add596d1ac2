-- ===== src/Upload.antt =====
-- src/modules/upload: the file types and their rules, the boot check of the configuration, the
-- validation of a file, the signed URLs of the local provider, the direct upload that they grant, and
-- the upload service with its audit log.
pub mod Formats
pub mod Registry
pub mod Config
pub mod Boot
pub mod Validator
pub mod Acceptance
pub mod SignedUrl
pub mod Signing
pub mod LocalStorage
pub mod FileSystem
pub mod PresignedUrl
pub mod Processor
pub mod Containment
pub mod Direct
pub mod Landing
pub mod Download
pub mod Journey
pub mod Audit
pub mod Cloud
pub mod Service
pub mod Trail
mod ServiceTests
mod StorageTests
mod DiskTests
mod DownloadTests
mod ProcessorTests
mod JourneyTests
mod Tests
