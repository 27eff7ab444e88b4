-- ===== src/Tests.antt =====
-- Runs on concrete inputs.
mod Arithmetic
mod Accounting
mod Payout
mod Shares
mod Node
mod Stratum
mod Recording
mod Work
mod Server
mod Api
mod Settings
mod Boot
