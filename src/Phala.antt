-- ===== src/Phala.antt =====
-- src/phala: identifiers, differences, receipts and what is computed from them.
pub mod Ulid
pub mod Diff
pub mod Receipt
pub mod Quote
pub mod Verify
pub mod Witness
pub mod Policy
pub mod Compliance
pub mod Consistency
pub mod Query
