-- ===== src/Platform/Policy.antt =====
-- src/platform/policy.ts: the policy engine. Facts are a record of JSON values; of the numbers
-- only the integers are modelled. A regular expression is a parameter, as its engine is.
pub mod Value
pub mod Tri
pub mod Eval
pub mod Kleene
pub mod Decide
