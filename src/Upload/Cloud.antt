-- ===== src/Upload/Cloud.antt =====
-- src/modules/upload/infrastructure/providers: the helpers that the storage providers share, and the
-- providers of S3, R2, ImageKit and Cloudinary.
pub mod Keys
pub mod Memory
pub mod MediaMemory
pub mod S3
pub mod MediaNames
pub mod ImageKit
pub mod R2
pub mod Cloudinary
pub mod SignedUrls
mod Tests
mod UrlTests
