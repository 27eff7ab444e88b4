-- ===== src/Payout.antt =====
-- payout: the window of shares, the split of a reward, the batch that is made of it, its handler, and
-- the new plan and the submission of a batch.
pub mod Pplns
pub mod Plan
pub mod Creation
pub mod Handler
pub mod Rebuild
pub mod Pending
pub mod Signer
pub mod Ledger
