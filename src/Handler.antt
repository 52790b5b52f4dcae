-- ===== src/Handler.antt =====
-- internal/handler: the handlers, from the request that gin has bound to the response.
pub mod Respond
pub mod Login
pub mod Batch
pub mod Params
pub mod Rbac
pub mod Data
pub mod Upload
