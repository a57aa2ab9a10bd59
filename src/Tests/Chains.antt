-- ===== src/Tests/Chains.antt =====
-- src/authz on a chain of two delegations, and on a revoked principal. A date is read as the number
-- of its characters.
use cool_sdk.Prelude.{
  subst, Bool-cases, str_eq, String, ◌≡◌, inl, inr, refl, true, Option, none, some, [], ◌∷◌, codes,
  arith, All, includes,
}
use cool_sdk.Codec.{bytes_equal, diff_from, from_hex, pairs, to_hex, Bytes, concat_bytes}
use cool_sdk.Platform.Status.{CheckStatus, Check, check}
use cool_sdk.Sign.{
  binary_chunks, from_base64_field, hybrid_verify, to_base64, to_base64_field, verify_ed25519,
  verify_ml_dsa, hybrid_sign,
}
use cool_sdk.Sign.Object.{
  verify_integrity, digest_of, check_signature, key_matches, same_key, same_ml_dsa, sig_message,
  verify_signature, Signed, digest_of_bytes, sig_domain, domain,
}
use cool_sdk.Multihash.{mh_sha256, multihash_digest}
use cool_sdk.Authz.Scope.{amount_excess, covers, is_covered, scope_excess, scope_refusal, within}
use cool_sdk.Platform.Trust.{trust_get}
use cool_sdk.Authz.Principal.Order.{Ordered}
use cool_sdk.Authz.Principal.{
  apply_kind, apply_to, store_event, sort_events, insert_event, key_at, state_of, replay, initial,
  bound_keys, PrincipalStatus, PrincipalRecord, PrincipalEventKind, PrincipalEvent, Entry,
  PrincipalDirectory, PrincipalState, state_at, check_principal, apply,
}
use cool_sdk.Authz.Principal.Apply.{IsOrdered, state_at-apply}
use cool_sdk.Authz.Principal.Dates.{KeepsTime, IsChronological, apply-KeepsTime}
use cool_sdk.Authz.Principal.Terminal.{check_principal_final}
use cool_sdk.Authz.Delegation.{
  verify_links, verify_link, signed_at, continues, in_window, leaf_refusal, usable, Delegation,
  ChainOptions, leaf_of, verify_delegation_chain,
}
use cool_sdk.Authz.Delegation.Permits.{Permits, verify_delegation_chain-pass}
use cool_sdk.Tests.Data.{schemes, checksum}
use cool_sdk.Tests.Signatures.{issuer_key}
use cool_sdk.Tests.Authority.{wide, narrow, payment}
use cool_sdk.Tests.Decisions.{date_length}

abbrev enrolled : String → Entry
enrolled id = record {
  record_of = record {
    principal_id = id;
    kind = "agent";
    issuer = "issuer";
    owner = "o";
    tenant = none;
    basis = "issuer_attested";
    sponsor = none;
    parent = none;
    workload_id = none;
    created_at = "";
    expires_at = none;
    keys = ("issuer", issuer_key.directory_entry) ∷ [];
  };
  events = [];
}

abbrev people : PrincipalDirectory
people = record {
  trust = record { keys = []; as_of = ""; max_age_ms = none };
  entries =
      ("owner", enrolled "owner")
      ∷ ("broker", enrolled "broker")
      ∷ ("agent", enrolled "agent")
      ∷ [];
}

abbrev sign_with : {T : Type 0} → String → Bytes → T → Signed T
sign_with context bytes body = record {
  body = body;
  digest = digest_of_bytes schemes context bytes;
  signature =
      hybrid_sign schemes
        (concat_bytes
          (sig_domain context ∷ checksum (concat_bytes (domain context ∷ bytes ∷ [])) ∷ []))
        issuer_key;
  signer = issuer_key.directory_entry;
}

abbrev encode : Delegation → Option Bytes
encode d = some (codes d.delegation_id)

abbrev root_grant : Delegation
root_grant = record {
  delegation_id = "d1";
  delegator = "owner";
  delegate = "broker";
  scope = wide;
  audience = "*";
  not_before = "";
  expires_at = "..........";
  nonce = "n";
  parent = none;
  issued_at = ".";
}

abbrev leaf_grant : Delegation
leaf_grant = record {
  delegation_id = "d2";
  delegator = "broker";
  delegate = "agent";
  scope = narrow;
  audience = "bank";
  not_before = ".";
  expires_at = ".........";
  nonce = "n";
  parent = some "d1";
  issued_at = "..";
}

abbrev signed_root : Signed Delegation
signed_root = sign_with "cool.delegation.v1" (codes "d1") root_grant

abbrev signed_leaf : Signed Delegation
signed_leaf = sign_with "cool.delegation.v1" (codes "d2") leaf_grant

abbrev options : ChainOptions
options = record {
  directory = people;
  roots = "owner" ∷ [];
  at = 5;
  revoked = none;
  max_depth = none;
}

chain_passes :
    verify_delegation_chain date_length options schemes encode
      (signed_root ∷ signed_leaf ∷ [])
      payment
    ≡ some (check CheckStatus.pass "chain_valid")
unfolding verify_delegation_chain verify_links verify_link includes signed_at key_at state_at
    state_of replay initial bound_keys hybrid_sign verify_integrity digest_of bytes_equal
    digest_of_bytes mh_sha256 concat_bytes continues in_window leaf_of leaf_refusal usable
    check_principal amount_excess covers is_covered scope_excess scope_refusal within diff_from
    from_hex pairs to_hex multihash_digest check_signature key_matches same_key same_ml_dsa
    sig_message verify_signature binary_chunks from_base64_field hybrid_verify to_base64
    to_base64_field verify_ed25519 verify_ml_dsa
chain_passes = refl

verify_delegation_chain-pass_example :
    All (λ s. Permits date_length options payment s.body) (signed_root ∷ signed_leaf ∷ [])
    × (includes options.roots "owner" ≡ true)
    × ((leaf_of root_grant (signed_leaf ∷ [])).delegate ≡ "agent")
verify_delegation_chain-pass_example =
    verify_delegation_chain-pass date_length options payment schemes encode signed_root
      (signed_leaf ∷ []) (check CheckStatus.pass "chain_valid")
      (((refl, (refl, tt)), (refl, tt)), (((refl, tt), (refl, tt)), tt)) chain_passes refl

abbrev revocation : PrincipalEvent
revocation = record {
  event_id = "e1";
  principal_id = "agent";
  kind = PrincipalEventKind.revoked;
  at = "...";
  key_id = none;
  entry = none;
  reason = none;
}

abbrev revoked_agent : Entry
revoked_agent = record { record_of = (enrolled "agent").record_of; events = revocation ∷ [] }

abbrev after_revocation : PrincipalDirectory
after_revocation = record { trust = people.trust; entries = ("agent", revoked_agent) ∷ [] }

abbrev revoked_state : PrincipalState
revoked_state = record {
  record_of = (enrolled "agent").record_of;
  standing = record {
    status = PrincipalStatus.revoked;
    keys = ("issuer", issuer_key.directory_entry) ∷ [];
  };
}

state_revoked : state_at date_length after_revocation "agent" (some 4) ≡ some revoked_state
unfolding state_at state_of replay initial bound_keys apply_kind
state_revoked = refl

check_principal_final_example :
    (c : Check) × (check_principal date_length after_revocation "agent" (some 8) none ≡ some c)
    × (c.status ≡ CheckStatus.fail)
check_principal_final_example =
    check_principal_final date_length after_revocation "agent" 4 8 none revoked_state state_revoked
      (inl refl) (omega arith)

abbrev encode_record : PrincipalRecord → Option Bytes
encode_record r = some (codes r.principal_id)

abbrev encode_event : PrincipalEvent → Option Bytes
encode_event ev = some (codes ev.event_id)

abbrev signed_revocation : Signed PrincipalEvent
signed_revocation = sign_with "cool.principal-event.v1" (codes "e1") revocation

abbrev one_agent : PrincipalDirectory
one_agent = record { trust = people.trust; entries = ("agent", enrolled "agent") ∷ [] }

one_agent-IsOrdered : IsOrdered date_length one_agent
one_agent-IsOrdered id e found = elim (Bool-cases (str_eq "agent" id)) [
  | inl same ↦ subst (λ x. Ordered date_length x.events) (entry_inj (rw same at found)) tt
  | inr other ↦ cc (rw other at found)
]
  where
    entry_inj : {a b : Entry} → some a ≡ some b → a ≡ b
    entry_inj q = cc

revocation_applied :
    apply date_length schemes encode_record encode_event one_agent signed_revocation
    ≡ some (after_revocation, check CheckStatus.pass "applied")
unfolding apply apply_to store_event sort_events insert_event trust_get hybrid_sign verify_integrity
    digest_of bytes_equal digest_of_bytes mh_sha256 concat_bytes diff_from from_hex pairs to_hex
    multihash_digest check_signature key_matches same_key same_ml_dsa sig_message verify_signature
    binary_chunks from_base64_field hybrid_verify to_base64 to_base64_field verify_ed25519
    verify_ml_dsa
revocation_applied = refl

one_agent-KeepsTime : KeepsTime date_length one_agent
one_agent-KeepsTime id e found = elim (Bool-cases (str_eq "agent" id)) [
  | inl same ↦ subst (λ x. IsChronological date_length x.events) (entry_inj (rw same at found)) tt
  | inr other ↦ cc (rw other at found)
]
  where
    entry_inj : {a b : Entry} → some a ≡ some b → a ≡ b
    entry_inj q = cc

apply-KeepsTime_example : KeepsTime date_length after_revocation
apply-KeepsTime_example =
    apply-KeepsTime date_length schemes encode_record encode_event one_agent after_revocation
      signed_revocation (check CheckStatus.pass "applied") one_agent-KeepsTime (3, refl)
      revocation_applied

state_at-apply_example :
    state_at date_length after_revocation "agent" (some 2)
    ≡ state_at date_length one_agent "agent" (some 2)
state_at-apply_example =
    state_at-apply date_length schemes encode_record encode_event one_agent after_revocation
      signed_revocation (check CheckStatus.pass "applied") "agent" (some 2) one_agent-IsOrdered
      revocation_applied refl
