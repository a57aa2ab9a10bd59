-- ===== src/Phala/Verify/Hardware.antt =====
-- What `requireHardware` asks for, and what it does not.
use cool_sdk.Prelude.{
  ◌≡◌, inl, inr, refl, ap, sym, ◌∙◌, Bool, true, false, not, ◌||◌, Option, none, some, [],
  if◌then◌else◌, arith, Bool-cases,
}
use cool_sdk.Codec.{Bytes}
use cool_sdk.Sign.{Crypto}
use cool_sdk.Phala.Receipt.{SthCore, RecordCoreV2, QuoteEnvelope, ReceiptV2}
use cool_sdk.Phala.Quote.{
  QuoteFault, QuoteVerification, QuoteEncoders, is_simulated_root, check_quote_structure,
}
use cool_sdk.Phala.Verify.{pass, simulated, quote_refused, Domain, fail_with, VerifyArgsV2, is_pass}
use cool_sdk.Phala.Verify.Domains.{
  quote_answer, judge_answer, judge_quote, attestation_with, attestation_domain,
}
use cool_sdk.Phala.Verify.Accepts.{bind-some}

-- A verifier of the reader's accepted the quote, and neither names the simulator's root.
abbrev pub IsVendorVerified : ReceiptV2 → VerifyArgsV2 → Type 0
IsVendorVerified r options =
    (quote : QuoteEnvelope) × (verifier : QuoteEnvelope → QuoteVerification) × (r.attestation.quote
      ≡ some quote)
    × (options.quote_verifier ≡ some verifier)
    × (check_quote_structure quote ≡ none)
    × ((verifier quote).ok ≡ true)
    × (is_simulated_root quote.root ≡ false)
    × (is_simulated_root (verifier quote).root ≡ false)

module _ (c : Crypto) (e : QuoteEncoders) (encode_core : RecordCoreV2 → Option Bytes)
    (encode_sth : SthCore → Option Bytes) where
  judge_answer-pass :
      (quote : QuoteEnvelope) (v : QuoteVerification)
      → is_pass (judge_answer c e encode_core encode_sth quote (some v)).0 ≡ true
      → (v.ok ≡ true) × (is_simulated_root quote.root ≡ false) × (is_simulated_root v.root ≡ false)
  judge_answer-pass quote v h =
      parts v.ok (is_simulated_root quote.root) (is_simulated_root v.root) h
    where
      parts :
          (p q s : Bool)
          → is_pass
              (if not p
                then fail_with quote_refused
                else if q || s
                then (simulated, [])
                else (pass, [])).0
            ≡ true
          → (p ≡ true) × (q ≡ false) × (s ≡ false)
      parts p q s h = ground arith

  -- Without a verifier no quote passes: the simulator's are at most simulated.
  no_verifier :
      (r : ReceiptV2) (quote : QuoteEnvelope) (d : Domain)
      → judge_quote c e encode_core encode_sth r quote none none ≡ some d
      → is_pass d.0 ≡ false
  unfolding quote_answer
  no_verifier r quote d h =
      let (answer, asked, judged) =
        bind-some (quote_answer c e encode_core encode_sth r quote none)
          (λ x. some (judge_answer c e encode_core encode_sth quote x)) d h in
      ap (λ x. is_pass x.0) (sym (some_injective judged))
      ∙ (elim (Bool-cases (is_simulated_root quote.root)) [
        | inl sim ↦ never answer sim
        | inr vendor ↦
            let nothing : answer ≡ none = ground arith in
            ap (λ x. is_pass (judge_answer c e encode_core encode_sth quote x).0) nothing
      ])
    where
      some_injective : {x y : Domain} → some x ≡ some y → x ≡ y
      some_injective h = cc

      never :
          (answer : Option QuoteVerification)
          → is_simulated_root quote.root ≡ true
          → is_pass (judge_answer c e encode_core encode_sth quote answer).0 ≡ false
      never none sim = refl
      never (some v) sim = ground (arith, sim)

  attestation_with-pass :
      (r : ReceiptV2) (q : Option QuoteEnvelope)
      (verifier : Option (QuoteEnvelope → QuoteVerification)) (d : Domain)
      → attestation_with c e encode_core encode_sth r q verifier ≡ some d
      → is_pass d.0 ≡ true
      → (quote : QuoteEnvelope) × (v : QuoteEnvelope → QuoteVerification) × (q ≡ some quote)
        × (verifier ≡ some v)
        × (check_quote_structure quote ≡ none)
        × ((v quote).ok ≡ true)
        × (is_simulated_root quote.root ≡ false)
        × (is_simulated_root (v quote).root ≡ false)
  unfolding attestation_with quote_answer
  attestation_with-pass r none verifier d h ok = absurd (ground arith)
  attestation_with-pass r (some quote) verifier d h ok =
      of_shape verifier (check_quote_structure quote) refl h
    where
      of_shape :
          (verifier : Option (QuoteEnvelope → QuoteVerification)) (fault : Option QuoteFault)
          → check_quote_structure quote ≡ fault
          → judge_quote c e encode_core encode_sth r quote verifier fault ≡ some d
          → (q : QuoteEnvelope) × (v : QuoteEnvelope → QuoteVerification) × (some quote ≡ some q)
            × (verifier ≡ some v)
            × (check_quote_structure q ≡ none)
            × ((v q).ok ≡ true)
            × (is_simulated_root q.root ≡ false)
            × (is_simulated_root (v q).root ≡ false)
      of_shape verifier (some fault) shape h = absurd (ground arith)
      of_shape none none shape h = cc (no_verifier r quote d h)
      of_shape (some v) none shape h =
          let is : judge_answer c e encode_core encode_sth quote (some (v quote)) ≡ d = cc in
          let (good, vendor, root) =
            judge_answer-pass quote (v quote) (ap (λ x. is_pass x.0) is ∙ ok) in
          (quote, v, refl, refl, shape, good, vendor, root)

  pub attestation-pass :
      (r : ReceiptV2) (options : VerifyArgsV2) (d : Domain)
      → attestation_domain c e encode_core encode_sth r options ≡ some d
      → is_pass d.0 ≡ true
      → IsVendorVerified r options
  unfolding attestation_domain
  attestation-pass r options d h ok =
      attestation_with-pass r r.attestation.quote options.quote_verifier d h ok
