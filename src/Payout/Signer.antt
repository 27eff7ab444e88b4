-- ===== src/Payout/Signer.antt =====
-- payout/signer: the two signers of payout transactions. What they use of bitcoinsuite and of the
-- HTTP client are parameters.
pub mod Internal
pub mod External
