-- ===== src/Api.antt =====
-- internal/api: the handlers and the middleware of the REST server.
pub mod ClientIp
pub mod ApiKey
pub mod Enrich
pub mod Login
pub mod Listing
pub mod Serve
