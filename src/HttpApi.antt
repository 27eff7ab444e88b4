-- ===== src/HttpApi.antt =====
-- http_api: the pages of the list endpoints, the state that the handlers share, the handlers, and the
-- server.
pub mod Pagination
pub mod State
pub mod Routes
pub mod Server
