-- ===== src/Platform.antt =====
-- src/platform: the check vocabulary, the headline outcome, the trust snapshot and the policy
-- engine.
pub mod Status
pub mod Outcome
pub mod Trust
pub mod Policy
