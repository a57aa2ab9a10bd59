-- ===== src/Lib.antt =====
-- A model of the evidence SDK: Merkle logs, hybrid signatures, trust in keys, policy decisions
-- and delegated authority, and receipts with their verifier.
--
-- The program's parts and their files:
--  * src/codec.ts is Codec, src/multihash.ts is Multihash: bytes are lists of numbers, texts are
--    lists of code points, and a function that throws returns an Option.
--  * src/merkle.ts is Merkle: `merkleRoot`, `inclusionProof` and `subproof` recurse on fuel, the
--    number of hashes, which is enough since each call shortens its list; the loop of
--    `largestPowerOfTwoBelow` has n rounds of fuel, since each round makes its power greater, and
--    the loops that halve an index have the index. Merkle/Power, Merkle/Tree and Merkle/Climb
--    relate the climb of a verifier to the tree; it is exact up to 2^30 leaves, past which the
--    shift overflows.
--  * src/sign.ts is Sign, and src/authz/signed.ts is Sign/Object: objects with a digest and a
--    hybrid signature, used by delegations and principals.
--  * src/platform/status.ts, outcome.ts, trust.ts and policy.ts are the modules Status, Outcome,
--    Trust and Policy of Platform. A report is a map from names to checks, which `overallOf` and
--    `classifyOutcome` fold; `TrustStore.evaluate` makes one such check. Policy/Eval is
--    `evaluateCondition`, Policy/Decide is `validatePolicy` and `evaluatePolicy`.
--  * src/authz/principal.ts, delegation.ts, replay.ts, execution.ts, decision.ts and gateway.ts
--    are the modules Principal, Delegation with Scope, Replay, Execution, Decision and Gateway of
--    Authz. A chain of delegations asks the directory of principals for keys and states, and each
--    link is a signed object. The directory, the trust store and the nonce store are records and
--    maps that an operation takes and returns. The gateway runs a tool after its tests, one of
--    them on the report of `verifyDecision`, and uses up a nonce.
--  * src/phala/types.ts, src/phala/record.ts and the log structures of src/types.ts are
--    Phala/Receipt; src/phala/quote.ts is Phala/Quote. src/phala/verify.ts is Phala/Verify:
--    Domains and Enclave have one function per domain, whose result is a status with the reasons
--    that it pushes, and Verdict is `verifyReceiptV2` over them. The other files of Phala/Verify
--    say what an accepting verdict means.
--  * src/log-memory.ts is Log, a record that `append` returns anew; it proves inclusion with
--    Merkle and signs with Sign, and Phala/Verify checks both. src/phala/witness.ts is
--    Phala/Witness.
--  * src/phala/consistency.ts is Phala/Consistency: the loops that need no cryptography, and
--    Check for the rest of `verifyLogConsistency`. A JavaScript Map with numbers for keys is an
--    association list in insertion order.
--  * src/phala/policy.ts, compliance.ts, query.ts, diff.ts and ulid.ts are the modules Policy,
--    Compliance, Query, Diff and Ulid of Phala. The loops of `lineDiff` count on fuel, the number
--    of lines of the text before, past which their tests fail. The factory of ids is a state that
--    a call takes with the readings of the clock and of the random source.
--
-- Libraries are parameters: SHA-256, the signature schemes, `btoa` and `atob` (the record
-- Crypto), the canonical CBOR encoder, `Date.parse` and regular expressions. What is relied on of
-- them is named where it is used: IsSha256 and IsSound. Instants are milliseconds as natural
-- numbers, NaN is `none`. Texts for display (a check's detail, its reference and its limitation)
-- are left out, as are record fields that no decision reads.
--
-- The order that a sort of lifecycle events leaves where one of the dates cannot be read is the
-- engine's; the model takes one, and what is stated of the order asks for dates that can be read.
--
-- Amounts and the numbers of policies are integers. Strings are compared by code points.
--
-- Not modelled: the command line, the network clients, the attestation formats (Nitro, SEV-SNP,
-- NVIDIA, TDX quotes), timestamps and certificates, the parser of timestamp proofs, evidence
-- envelopes, the shape check of receipts, the log's files, selective disclosure, and of src/authz
-- the commitments of requests, confirmations and the shared replay store. Most of these read
-- files, sockets or formats of other parties' libraries.
--
-- Tests holds small runs, with simple functions in place of the libraries.
mod Prelude
pub mod Codec
pub mod Multihash
pub mod Merkle
pub mod Platform
pub mod Phala
pub mod Log
pub mod Sign
pub mod Authz
mod Tests
