-- ===== src/ShareProcessing.antt =====
-- share_processing: the difficulty of a session and the validation of shares.
pub mod VarDiff
pub mod Validator
