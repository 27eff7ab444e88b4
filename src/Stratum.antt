-- ===== src/Stratum.antt =====
-- The Stratum V1 front end (stratum_protocol/).
pub mod Protocol
pub mod Job
pub mod Session
pub mod Server
