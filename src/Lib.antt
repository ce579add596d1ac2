-- ===== src/Lib.antt =====
-- The backend of a SaaS service: accounts and sessions, guards, profiles behind a cache, idempotent
-- POSTs, pagination, uploads, and the envelope of every answer and every error.
--
-- The parts and how they interact. A request gets its context from the middleware and is sanitised and
-- validated; it passes the guards, which read the users table, then the idempotency interceptor,
-- which may answer it from its own table, and reaches a service; what a service or a guard throws,
-- the exception filter turns into an envelope, and what a handler returns, the response interceptor.
--
-- - Errors: src/core/exceptions/api.error.ts (ApiError: `ApiError`, fromDefinition:
--   `from_definition`, the factories by their names), Errors.Registry:
--   src/shared/constants/error.constants.ts, Errors.Filter: src/core/filters/all-exceptions.filter.ts
--   (catch: `catch`, resolveException: `resolve_exception`, handlePrismaError:
--   `handle_prisma_error`). `Thrown` is what code of the program and its libraries throws.
-- - Http.Context: src/shared/context/request-context.ts; Http.Responses:
--   src/shared/responses/api.response.ts, src/shared/constants/response.constants.ts and
--   src/core/interceptors/response.interceptor.ts; Http.Middleware, Http.Sanitize and Http.Validation:
--   src/core/middleware/request-context.middleware.ts, src/core/middleware/sanitize.middleware.ts with
--   src/shared/utils/sanitize.util.ts, and src/core/pipes/validation.pipe.ts.
-- - Accounts: prisma/schema/user.schema.prisma (`User`) and the queries of
--   src/modules/auth/infrastructure/prisma/auth.repository.ts,
--   src/modules/user/infrastructure/prisma/user.repository.ts and
--   src/core/database/repositories/base.repository.ts, as actions on the table `UserTable`, an
--   interface whose laws Accounts.Memory meets.
-- - Auth: src/modules/auth/application/use-cases/auth.service.ts (`register`, `login`,
--   refreshTokens: `refresh_tokens`, `logout`). `Crypto` is bcrypt and the token signer; `Draw` the
--   time and the random values of one call.
-- - Access: src/modules/auth/infrastructure/jwt/jwt.strategy.ts (`validate`),
--   src/core/guards/jwt-auth.guard.ts (handleRequest: `handle_request`, canActivate:
--   `can_activate`) and src/core/guards/roles.guard.ts (`roles_guard`); `guarded` runs both.
-- - Users: src/modules/user/application/use-cases/user.service.ts (findById: `find_profile`,
--   `update`, `remove`) over src/core/cache/cache.service.ts (`cache_get`, `cache_set`, `cache_del`);
--   findAll with findAllPaginated of the user repository in Users.Listing.
-- - Idempotency: src/core/interceptors/idempotency.interceptor.ts (`intercept`, resolveExisting:
--   `resolve_existing`, storeRecord: `store_record`; stableStringify in Idempotency.Json). The state
--   is the records table, an interface that Idempotency.Memory meets, and the application's own.
-- - Pagination: src/shared/utils/pagination.util.ts, buildPaginationMeta of
--   src/shared/responses/api.response.ts and findManyPaginated of the base repository.
-- - Encryption: src/shared/utils/encryption.util.ts, over the cryptography of the platform.
-- - Upload, all under src/modules/upload/. Settings and checks:
--   infrastructure/config/upload-config.service.ts (Upload.Formats, Upload.Registry;
--   loadConfiguration: Upload.Config; validateActiveProvider: `missing` of Upload.Boot) and
--   domain/services/file-validator.service.ts (Upload.Validator). Upload.Processor:
--   domain/services/file-processor.service.ts, as what it asks of the image library.
--   Upload.Service: application/use-cases/upload.service.ts (`process_file`; commitFile, removeFile and
--   cleanupTemp in Upload.Service.Files), which keeps the audit log of
--   infrastructure/audit/audit-logger.service.ts (Upload.Audit).
-- - The storage of uploads. Upload.LocalStorage:
--   infrastructure/providers/local-storage.provider.ts on the disk of Upload.FileSystem, a list of
--   files with their bytes and a list of directories; its child modules are Objects (saving,
--   committing, deleting, reading), DirectWrite (writeDirectUpload: `write_direct_upload`), Pruning and
--   Promotion (what a commit does to the disk), Cleanup (the walk over temp) and Urls. Upload.Cloud, of
--   the same folder: base-storage.provider.ts (Keys), s3-storage.provider.ts (S3) over `ObjectStore`, cloudflare-r2-storage.provider.ts (R2),
--   imagekit-storage.provider.ts (ImageKit, MediaNames) over `MediaLibrary`,
--   cloudinary-storage.provider.ts (Cloudinary) over `MediaStore`, and the URLs they sign (SignedUrls).
-- - Signed uploads. Upload.SignedUrl: infrastructure/signing/local-signed-url.service.ts;
--   Upload.PresignedUrl: application/use-cases/presigned-url.service.ts; Upload.Direct and
--   Upload.Download: api/v1/controllers/local-direct.controller.ts (`upload`, drainBody:
--   `drain_body`, `download`); Upload.Journey composes them, from the key to the committed file.
--
-- Bounds and fuel. Texts are lists of UTF-16 code units, with the letter case of ASCII; times are
-- natural numbers, milliseconds except in the users table, where only their order of writing counts.
-- Decimal digits are written on fuel: a number is below its fuel, and each round divides by ten. The
-- cleanup of a bucket, a media library or a media store runs on a bound on its pages, since only the
-- store says when its pages end, and answers none when the bound is reached. All other loops are
-- structural.
--
-- Parameters: what third-party code and the platform do. bcrypt, the token signer, HMAC, SHA-256,
-- the cipher, the search parameters of a URL, the table of MIME types, the image library, the
-- validator of decorated classes, the sanitiser of markup, the errors of the disk and the size it
-- gives a directory, the databases, the object store, the media library and store, what their SDKs
-- sign.
--
-- Not modelled: the controllers and modules of Nest, which only route, with the decorators of the
-- validated classes; the construction of SDK clients; jobs, health, logging, start-up and the
-- configuration outside uploads; the date helpers, which only format through the platform. A query of
-- the database that fails for reasons of its own, a lost connection say, which the callers pass on: the
-- tables answer, but the insertion of an idempotency record may fail. An object with a field success
-- that is not a success envelope, as the answer of a handler. Two requests never interleave inside one
-- operation.
pub mod Common
pub mod Errors
pub mod Accounts
pub mod Auth
pub mod Access
pub mod Users
pub mod Idempotency
pub mod Encryption
pub mod Http
pub mod Pagination
pub mod Upload
