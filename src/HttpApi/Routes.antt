-- ===== src/HttpApi/Routes.antt =====
-- http_api/routes: the handlers, on the matched parameters.
pub mod Statuses
pub mod Workers
pub mod Rounds
pub mod Blocks
pub mod Shares
pub mod Payouts
pub mod Stats
