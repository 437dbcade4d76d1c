-- ===== src/Traversal/Paired/Tests.antt =====
-- The two sides of one pair.
use liskov_runtime_cargo.Prelude.{
  ℕ, ◌≡◌, refl, Option, none, some, [], ◌∷◌, ◌++◌, Bytes, codes, bytes_eq, replicate,
}
use liskov_runtime_cargo.Prelude.Result.{ok}
use liskov_runtime_cargo.Traversal.Texts.{text, lower_hex, digest, strip_prefix}
use liskov_runtime_cargo.Traversal.Descriptor.{
  pair_mode, register_endpoint, pair_direct_udp, out_of_order, TraversalBudgets,
  TraversalParticipantRole, first, second, TraversalParticipant, TraversalPair,
  TraversalDescriptorV1,
}
use liskov_runtime_cargo.Traversal.Validate.{
  validate_budgets, allowed, validate_mapping, validate_participants, validate_pair, bounded,
  validate_identity, validate_deadline, validate_operations, validate_relay, validate,
}
use liskov_runtime_cargo.Traversal.Paired.{
  same_budgets, same_participant, same_pair, same_descriptor, validate_traversal_pair,
}
use liskov_runtime_cargo.Traversal.Paired.Agreed.{IsPaired, validate_traversal_pair-IsPaired}

abbrev pub hash_of : ℕ → Bytes
hash_of digit = codes "sha256:" ++ replicate 64 digit

abbrev participant : TraversalParticipantRole → ℕ → TraversalParticipant
participant role digit = record {
  role = role;
  launch_instance_digest = hash_of digit;
  claim_authority_digest = hash_of digit;
  runtime_signer = codes "0x" ++ replicate 64 digit;
}

abbrev pub pair : TraversalPair
pair = record {
  pair_id = replicate 32 b'c';
  expires_at_ms = 200_000;
  a = participant first b'1';
  b = participant second b'2';
}

abbrev budgets : TraversalBudgets
budgets = record {
  experiment_ms = 20_000;
  cleanup_reserve_ms = 4_000;
  outbound_datagrams = 16;
  datagram_bytes = 512;
  control_requests = 6;
  external_dialbacks = 0;
  relay_bytes_per_direction = 4_096;
  concurrent_mapping_leases = 0;
  cleanup_datagrams = 0;
  cleanup_control_requests = 0;
}

abbrev side : TraversalParticipantRole → ℕ → TraversalDescriptorV1
side role digit = record {
  version = 1;
  run_id = replicate 32 b'a';
  mode = pair_mode;
  claim_authority_digest = hash_of digit;
  profile_version = codes "p1";
  catalog_version = codes "c1";
  artifact_digest = hash_of b'0';
  helper_version = codes "0.12.2";
  helper_digest = hash_of b'0';
  endpoint_set_revision = codes "e1";
  issued_at_ms = 100_000;
  expires_at_ms = 200_000;
  deadline_ms = 150_000;
  operations = register_endpoint ∷ pair_direct_udp ∷ [];
  budgets = budgets;
  mapping = none;
  pair = some pair;
  participant_role = some role;
}

abbrev pub serialized_len : TraversalDescriptorV1 → Option ℕ
serialized_len d = some 1_500

abbrev pub one : TraversalDescriptorV1
one = side first b'1'

abbrev pub two : TraversalDescriptorV1
two = side second b'2'

sides : validate_traversal_pair serialized_len one two ≡ ok tt
unfolding text lower_hex digest strip_prefix out_of_order validate_budgets allowed validate_mapping
    validate_participants validate_pair bounded validate_identity validate_deadline
    validate_operations validate_relay validate same_budgets same_participant same_pair
    same_descriptor validate_traversal_pair bytes_eq
sides = refl

validate_traversal_pair-IsPaired_example : IsPaired serialized_len one two
validate_traversal_pair-IsPaired_example =
    validate_traversal_pair-IsPaired serialized_len one two sides
