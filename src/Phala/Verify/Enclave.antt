-- ===== src/Phala/Verify/Enclave.antt =====
-- The domains enclave and anchor.
use cool_sdk.Sign.{◌>>=◌}
use cool_sdk.Prelude.{
  Bool, true, false, not, ◌&&◌, Option, none, some, [], ◌==◌, if◌then◌else◌, text_eq,
}
use cool_sdk.Codec.{Bytes, Text, to_hex}
use cool_sdk.Multihash.{multihash_digest}
use cool_sdk.Sign.{Crypto, DirectoryEntry}
use cool_sdk.Phala.Receipt.{Sth, Measurement, QuoteEnvelope, AnchorProof, ReceiptV2}
use cool_sdk.Phala.Quote.{QuoteEncoders, measurement_equals, enclave_report_data, quote_digest}
use cool_sdk.Phala.Verify.{
  DomainStatusV2, pass, absent, fail, simulated, pending, quote_swapped, no_measurement,
  measurement_differs, other_key, not_pinned, unattested, anchor_without_sth, anchor_other_head,
  anchor_other_size, anchor_other_digest, anchor_unreadable, anchor_refused, Domain, fail_with,
  VerifyArgsV2, AnchorStatus, confirmed, refused, unconfirmed, AnchorReader, is_pass,
}

abbrev pub is_simulated : DomainStatusV2 → Bool
is_simulated simulated = true
is_simulated _ = false

-- a ?? b
abbrev pub or_pin : Option Measurement → Option Measurement → Option Measurement
or_pin none b = b
or_pin (some m) b = some m

abbrev pub differs_from_pin : Option Measurement → QuoteEnvelope → Bool
differs_from_pin none quote = false
differs_from_pin (some pin) quote = not (measurement_equals pin quote.body.measurement)

-- Steps 4 and 5: the pin, and `requireHardware`.
unfoldable pub after_key : ReceiptV2 → QuoteEnvelope → VerifyArgsV2 → DomainStatusV2 → Domain
after_key r quote options attestation =
    if differs_from_pin (or_pin options.expected_measurement r.attestation.expected_measurement)
      quote
    then fail_with not_pinned
    else if options.require_hardware && not (is_pass attestation)
    then fail_with unattested
    else if is_simulated attestation
    then (simulated, [])
    else (pass, [])

module _ (c : Crypto) (e : QuoteEncoders) where
  -- Step 3: the key. Without an entry nothing is pushed.
  unfoldable pub after_measurement :
      ReceiptV2
      → QuoteEnvelope
      → Option DirectoryEntry
      → VerifyArgsV2
      → DomainStatusV2
      → Option Domain
  after_measurement r quote none options attestation = some (fail, [])
  after_measurement r quote (some entry) options attestation = do
    expected ← enclave_report_data c e entry
    some (
        if not (text_eq quote.body.report_data expected)
        then fail_with other_key
        else after_key r quote options attestation)

  -- Step 2: the measurement.
  unfoldable pub after_digest :
      ReceiptV2
      → QuoteEnvelope
      → Option Measurement
      → Option DirectoryEntry
      → VerifyArgsV2
      → DomainStatusV2
      → Option Domain
  after_digest r quote none entry options attestation = some (fail_with no_measurement)
  after_digest r quote (some m) entry options attestation =
      if not (measurement_equals m quote.body.measurement)
      then some (fail_with measurement_differs)
      else after_measurement r quote entry options attestation

  -- `validateReceiptV2Shape` lets no empty `tee_quote` through, which this domain would take for
  -- an absent one.
  unfoldable pub enclave_with :
      ReceiptV2
      → Option QuoteEnvelope
      → Option Text
      → Option DirectoryEntry
      → VerifyArgsV2
      → DomainStatusV2
      → Option Domain
  enclave_with r (some quote) (some tee_quote) entry options attestation = do
    digest ← quote_digest c e quote
    if not (text_eq digest tee_quote)
        then some (fail_with quote_swapped)
        else after_digest r quote r.signed.core.runtime.enclave_measurement entry options
            attestation
  enclave_with r _ _ entry options attestation = some (absent, [])

  -- verifyEnclaveDomain
  unfoldable pub enclave_domain :
      ReceiptV2 → Option DirectoryEntry → VerifyArgsV2 → DomainStatusV2 → Option Domain
  enclave_domain r entry options attestation =
      enclave_with r r.attestation.quote r.signed.core.runtime.tee_quote entry options attestation

module _ (reader : AnchorReader) where
  abbrev pub anchor_answer : AnchorStatus → Domain
  anchor_answer confirmed = (pass, [])
  anchor_answer refused = fail_with anchor_refused
  anchor_answer unconfirmed = (pending, [])

  -- The `try` block and what follows it.
  abbrev pub anchor_proof : Option Bytes → Option (Bytes × reader.Stamp) → Domain
  anchor_proof (some digest) (some (covered, stamp)) =
      if not (text_eq (to_hex covered) (to_hex digest))
      then fail_with anchor_other_digest
      else anchor_answer (reader.verify_anchor digest stamp)
  anchor_proof _ _ = fail_with anchor_unreadable

  unfoldable pub anchor_with : Option AnchorProof → Option Sth → Domain
  anchor_with none sth = (absent, [])
  anchor_with (some anchor) none = fail_with anchor_without_sth
  anchor_with (some anchor) (some sth) =
      if not (text_eq anchor.target sth.root_hash)
      then fail_with anchor_other_head
      else if not (anchor.tree_size == sth.tree_size)
      then fail_with anchor_other_size
      else anchor_proof (multihash_digest anchor.target) (reader.parse_proof anchor.proof)

  -- verifyAnchorDomain
  unfoldable pub anchor_domain : ReceiptV2 → Domain
  anchor_domain r = anchor_with r.anchor r.sth
