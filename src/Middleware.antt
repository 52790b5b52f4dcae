-- ===== src/Middleware.antt =====
-- internal/middleware: the chain of checks before a handler.
pub mod Common
pub mod Header
pub mod Signature
pub mod Token
pub mod Permission
