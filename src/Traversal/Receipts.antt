-- ===== src/Traversal/Receipts.antt =====
-- What backs a phase of a traversal result: a prober's receipt or a signature of the device.
-- `receipt_domain` and `traversal_receipt_message` of src/network_traversal/auth.rs, and
-- `TraversalProofV1` of src/network_traversal/result.rs. The canonical form of a receipt is a
-- parameter.
use liskov_runtime_cargo.Prelude.{ℕ, Bool, not, ◌||◌, Option, [], ◌∷◌, ◌++◌, Bytes, codes, ◌==◌}
use liskov_runtime_cargo.Prelude.Result.{Result, ok, err, ◌>>=◌, ◌>>◌, refuse_if}
use liskov_runtime_cargo.Traversal.Texts.{
  TraversalRefusal, unknown_version, invalid_proof, invalid_mac, lower_hex, strip_prefix,
}
use liskov_runtime_cargo.Traversal.Outcomes.{TraversalEvidenceAuthority, authority_rank, one_of}
use liskov_runtime_cargo.Traversal.Validate.{Checked}
use liskov_runtime_cargo.Traversal.Transcript.{TraversalTranscriptV1, some_and}
use liskov_runtime_cargo.Traversal.Transcript.Checks.{validate_transcript}

abbrev pub path_receipt_mac_domain : Bytes
path_receipt_mac_domain = codes "proof.liskov.network-traversal-external-receipt.v1" ++ 0 ∷ []

abbrev pub behaviour_receipt_mac_domain : Bytes
behaviour_receipt_mac_domain = codes "proof.liskov.network-traversal-behaviour-receipt.v1" ++ 0 ∷ []

abbrev pub registration_receipt_mac_domain : Bytes
registration_receipt_mac_domain =
    codes "proof.liskov.network-traversal-registration-receipt.v1" ++ 0 ∷ []

pub record TraversalReceiptV1 : Type 0 where
  pub version : ℕ
  pub transcript : TraversalTranscriptV1
  pub device_signature : Bytes
  pub mac : Bytes

pub data TraversalProofV1 : Type 0 where
  prober_receipt : TraversalReceiptV1 → TraversalProofV1
  device_signature : TraversalTranscriptV1 → Bytes → TraversalProofV1

-- `0x` and 64 bytes in hexadecimal.
abbrev pub is_signature : Bytes → Bool
is_signature s = some_and (strip_prefix (codes "0x") s) (λ hex. lower_hex hex 64)

unfoldable pub authority_domain : TraversalEvidenceAuthority → Result TraversalRefusal Bytes
authority_domain TraversalEvidenceAuthority.external_path = ok path_receipt_mac_domain
authority_domain TraversalEvidenceAuthority.prober_observed_behaviour =
    ok behaviour_receipt_mac_domain
authority_domain TraversalEvidenceAuthority.prober_observed_registration =
    ok registration_receipt_mac_domain
authority_domain _ = err invalid_proof

-- `TraversalProofV1::transcript`.
abbrev pub transcript_of : TraversalProofV1 → TraversalTranscriptV1
transcript_of (prober_receipt receipt) = receipt.transcript
transcript_of (device_signature transcript signature) = transcript

-- An authority that a device signs for.
abbrev pub signed_by_device : TraversalEvidenceAuthority → Bool
signed_by_device authority = one_of authority_rank authority (
    TraversalEvidenceAuthority.device_reported_router
    ∷ TraversalEvidenceAuthority.helper_observed_peer ∷ [])

module _ (transcript_len : TraversalTranscriptV1 → Option ℕ)
    (canonical : TraversalReceiptV1 → Result TraversalRefusal Bytes) where
  unfoldable pub receipt_domain : TraversalReceiptV1 → Result TraversalRefusal Bytes
  receipt_domain receipt = do
    refuse_if (not (receipt.version == 1)) unknown_version
    validate_transcript transcript_len receipt.transcript
    refuse_if (not (is_signature receipt.device_signature)) invalid_proof
    authority_domain receipt.transcript.authority

  unfoldable pub traversal_receipt_message : TraversalReceiptV1 → Result TraversalRefusal Bytes
  traversal_receipt_message receipt = do
    domain ← receipt_domain receipt
    canonical (record receipt { mac = [] })

  -- `TraversalProofV1::validate`.
  unfoldable pub validate_proof : TraversalProofV1 → Checked
  validate_proof (prober_receipt receipt) = do
    validate_transcript transcript_len receipt.transcript
    message ← traversal_receipt_message receipt
    refuse_if (not (lower_hex receipt.mac 32)) invalid_mac
  validate_proof (device_signature transcript signature) = do
    validate_transcript transcript_len transcript
    refuse_if (not (signed_by_device transcript.authority) || not (is_signature signature))
        invalid_proof
