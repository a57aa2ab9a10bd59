-- ===== src/Tests.antt =====
-- Runs of the model and the theorems at concrete inputs. The libraries that the source calls are
-- replaced by small functions.
mod Data
mod Formats
mod Trees
mod Signatures
mod Decisions
mod Statuses
mod Authority
mod Chains
mod Runs
mod Replays
mod Receipts
mod Verdicts
mod Changes
mod Ids
mod Histories
