-- ===== src/Phala/Quote.antt =====
-- src/phala/quote.ts: measurements, the commitment that ties a quote to a key, the checks of a
-- quote's shape, and the verifier of simulated quotes. The canonical encoders are parameters, and
-- `none` is a throw; a verifier's text is left out.
use cool_sdk.Sign.{◌>>=◌}
use cool_sdk.Prelude.{
  String, Bool, true, false, not, ◌&&◌, ◌||◌, Option, none, some, List, [], ◌∷◌, ◌==◌, length, drop,
  every, codes, starts_with, text_eq,
}
use cool_sdk.Prelude.Map
use cool_sdk.Codec.{Bytes, Text, concat_bytes}
use cool_sdk.Multihash.{mh_sha256, is_multihash, is_lower_hex}
use cool_sdk.Sign.{Crypto, SignatureBlock, DirectoryEntry, KeyPair, hybrid_sign, hybrid_verify}
use cool_sdk.Phala.Receipt.{
  Measurement, QuoteBody, QuoteEnvelope, AttestationRoot, cool_sim_root, KeyDirectory,
}

unfoldable pub measurement_equals : Measurement → Measurement → Bool
measurement_equals a b =
    text_eq a.mrtd b.mrtd
    && text_eq a.rtmr0 b.rtmr0
    && text_eq a.rtmr1 b.rtmr1
    && text_eq a.rtmr2 b.rtmr2
    && text_eq a.rtmr3 b.rtmr3

-- A register's name, where the two texts differ.
abbrev pub register_if : Bool → String → List String → List String
register_if true name rest = rest
register_if false name rest = name ∷ rest

unfoldable pub measurement_diff : Measurement → Measurement → List String
measurement_diff a b = register_if (text_eq a.mrtd b.mrtd) "mrtd" (
    register_if (text_eq a.rtmr0 b.rtmr0) "rtmr0" (
      register_if (text_eq a.rtmr1 b.rtmr1) "rtmr1" (
        register_if (text_eq a.rtmr2 b.rtmr2) "rtmr2"
          (register_if (text_eq a.rtmr3 b.rtmr3) "rtmr3" []))))

-- Why the shape of a quote is refused.
pub data QuoteFault : Type 0 where
  malformed_register : String → QuoteFault
  malformed_report_data simulated_with_bytes without_bytes : QuoteFault

abbrev pub hex_prefix : Text
hex_prefix = codes "hex:"

-- `/^hex:[0-9a-f]{96}$|^hex:[0-9a-f]{64}$/`
unfoldable pub is_register : Text → Bool
is_register value =
    starts_with value hex_prefix
    && (let digits = drop (length hex_prefix) value in
        (length digits == 96 || length digits == 64) && every is_lower_hex digits)

abbrev pub fault_if : Bool → QuoteFault → Option QuoteFault → Option QuoteFault
fault_if true fault rest = some fault
fault_if false fault rest = rest

abbrev pub is_simulated_root : AttestationRoot → Bool
is_simulated_root cool_sim_root = true
is_simulated_root _ = false

abbrev pub is_some {ℓ} : {A : Type ℓ} → Option A → Bool
is_some none = false
is_some (some a) = true

-- checkQuoteStructure
unfoldable pub check_quote_structure : QuoteEnvelope → Option QuoteFault
check_quote_structure q =
    let m = q.body.measurement in
    fault_if (not (is_register m.mrtd)) (malformed_register "mrtd") (
      fault_if (not (is_register m.rtmr0)) (malformed_register "rtmr0") (
        fault_if (not (is_register m.rtmr1)) (malformed_register "rtmr1") (
          fault_if (not (is_register m.rtmr2)) (malformed_register "rtmr2") (
            fault_if (not (is_register m.rtmr3)) (malformed_register "rtmr3") (
              fault_if (not (is_multihash q.body.report_data)) malformed_report_data (
                fault_if (is_simulated_root q.root && is_some q.raw) simulated_with_bytes (
                  fault_if (not (is_simulated_root q.root) && not (is_some q.raw)) without_bytes
                    none)))))))

pub record QuoteVerification : Type 0 where
  pub ok : Bool
  pub root : AttestationRoot
  pub tcb_status : String

-- The canonical encoders of the values that are hashed and signed.
pub record QuoteEncoders : Type 0 where
  pub encode_entry : DirectoryEntry → Option Bytes
  pub encode_measurement : Measurement → Option Bytes
  pub encode_body : QuoteBody → Option Bytes
  pub encode_quote : QuoteEnvelope → Option Bytes

module _ (c : Crypto) (e : QuoteEncoders) where
  unfoldable pub measurement_digest : Measurement → Option Text
  measurement_digest m = do bytes ← e.encode_measurement m; some (mh_sha256 c.sha256 bytes)

  -- enclaveReportData
  unfoldable pub enclave_report_data : DirectoryEntry → Option Text
  enclave_report_data entry = do
    bytes ← e.encode_entry entry
    some (mh_sha256 c.sha256 (concat_bytes (codes "cool/report-data/v2" ∷ bytes ∷ [])))

  unfoldable pub quote_digest : QuoteEnvelope → Option Text
  quote_digest quote = do bytes ← e.encode_quote quote; some (mh_sha256 c.sha256 bytes)

  -- signSimulatedQuote
  unfoldable pub sign_simulated_quote : QuoteBody → KeyPair → Option SignatureBlock
  sign_simulated_quote body key = do message ← e.encode_body body; some (hybrid_sign c message key)

  abbrev pub simulated_answer : QuoteEnvelope → Bool → QuoteVerification
  simulated_answer quote ok = record {
    ok = ok;
    root = cool_sim_root;
    tcb_status = quote.body.tcb_status;
  }

  abbrev pub verify_simulated :
      QuoteEnvelope → SignatureBlock → Option DirectoryEntry → Option QuoteVerification
  verify_simulated quote signature none = some (simulated_answer quote false)
  verify_simulated quote signature (some entry) = do
    message ← e.encode_body quote.body
    some (simulated_answer quote (hybrid_verify c message signature entry).ok)

  -- The method `verify` of `simulatedQuoteVerifier(directory)`.
  unfoldable pub simulated_quote_verifier : KeyDirectory → QuoteEnvelope → Option QuoteVerification
  simulated_quote_verifier directory quote = elim quote.signature [
    | none ↦ some (simulated_answer quote false)
    | some signature ↦ verify_simulated quote signature (Map.get signature.key_id directory)
  ]
