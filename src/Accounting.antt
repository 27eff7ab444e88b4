-- ===== src/Accounting.antt =====
-- accounting: the tables of the database and the statements and loops that run on them.
pub mod Rounds
pub mod Blocks
pub mod Batches
pub mod Workers
pub mod Shares
pub mod Service
