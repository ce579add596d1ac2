-- ===== src/Http.antt =====
-- src/shared/responses, src/shared/context, src/core/interceptors, src/core/middleware and
-- src/core/pipes: the context of a request, the envelope of an answer, the sanitising and the
-- validation of a body.
pub mod Context
pub mod Responses
pub mod Middleware
pub mod Sanitize
pub mod Validation
mod Tests
