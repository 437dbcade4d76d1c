-- ===== src/Behaviour/Tests.antt =====
-- A collection against A:p at 198.51.100.1:4500, A:q at port 4501 and B:p at 203.0.113.9, behind a
-- router that maps every datagram of the client to 192.0.2.7:50000.
use liskov_runtime_cargo.Prelude.{
  ℕ, ◌-◌, ◌≤◌, true, false, some, [], ◌∷◌, ◌++◌, Bytes, codes, replicate, arith,
}
use liskov_runtime_cargo.Prelude.Result.{ok, err}
use liskov_runtime_cargo.Gateway.Control.{SocketAddr}
use liskov_runtime_cargo.Traversal.Descriptor.{
  TraversalDescriptorV1, discover_gateway, observe_mapping, observe_filtering,
}
use liskov_runtime_cargo.Behaviour.Exchange.{
  BehaviourFailure, Instant, Sending, Receiving, Observation, Experiment,
}
use liskov_runtime_cargo.Behaviour.Topology.{BehaviourEndpoint, BehaviourTopology, BehaviourSession}
use liskov_runtime_cargo.Behaviour.Mapping.{MappingRun, mapping}
use liskov_runtime_cargo.Behaviour.Collect.{Collection, begin_experiment, collect_udp_behaviour}
use liskov_runtime_cargo.Behaviour.Allowance.{collect_udp_behaviour-within}
use liskov_runtime_cargo.Behaviour.Classified.{IsBorneOut, mapping-IsBorneOut}
use liskov_runtime_cargo.Traversal.Tests.{descriptor, reservation, serialized_len, hash}
use liskov_runtime_cargo.Traversal.Run.Tests.{descriptor_digest, transcript_len}

abbrev observing : TraversalDescriptorV1
observing = record descriptor {
  operations = discover_gateway ∷ observe_mapping ∷ observe_filtering ∷ [];
}

abbrev endpoint : ℕ → ℕ → BehaviourEndpoint
endpoint address port = record {
  is_ipv4 = true;
  address = record { address = address; port = port };
  mapping_qualified = true;
  filtering_qualified = true;
}

abbrev topology : BehaviourTopology
topology = record {
  revision = observing.endpoint_set_revision;
  ap = endpoint 3_325_256_705 4_500;
  aq = some (endpoint 3_325_256_705 4_501);
  bp = some (endpoint 3_405_803_785 4_500);
}

abbrev session : BehaviourSession
session = record { id = replicate 16 3; descriptor_digest = hash }

abbrev at : ℕ → Instant
at now_ms = record { is_cancelled = false; now_ms = now_ms }

abbrev sending : Sending
sending = record { before = at 111_000; result = ok tt; after = at 111_001 }

abbrev receiving : SocketAddr → Bytes → ℕ → Receiving
receiving source bytes number = record {
  before = at 111_002;
  now_ms = 111_002;
  received = ok (bytes, some source);
  after = at 111_003;
}

-- The bytes that both answers of an observation with this number share, after the kind.
abbrev packet : ℕ → ℕ → ℕ → ℕ → ℕ → Bytes
packet kind selector ingress outgoing number =
    codes "LNT1"
    ++ (kind ∷ selector ∷ ingress ∷ outgoing ∷ [])
    ++ session.id
    ++ replicate 16 number
    ++ replicate 32 5
    ++ replicate 24 0

abbrev tuple : Bytes
tuple = (4 ∷ 192 ∷ 0 ∷ 2 ∷ 7 ∷ []) ++ replicate 12 0 ++ (195 ∷ 80 ∷ []) ++ replicate 13 0

abbrev observation : SocketAddr → SocketAddr → ℕ → ℕ → ℕ → ℕ → Observation
observation destination source ingress selector outgoing number = record {
  start = at 110_900;
  transaction = ok (replicate 16 number);
  asking = sending;
  challenge_ms = 111_001;
  challenges = receiving destination (packet 1 selector ingress ingress number);
  proving = sending;
  response_ms = 111_004;
  responses = receiving source (packet 3 selector ingress outgoing number ++ tuple);
}

abbrev ap : SocketAddr
ap = topology.ap.address

abbrev aq : SocketAddr
aq = record { address = 3_325_256_705; port = 4_501 }

abbrev bp : SocketAddr
bp = record { address = 3_405_803_785; port = 4_500 }

abbrev mapping_run : MappingRun
mapping_run = record {
  initial = observation ap ap 0 0 0 11;
  at_aq = observation aq aq 1 0 1 12;
  again_aq = observation aq aq 1 0 1 13;
  at_bp = observation bp bp 2 0 2 14;
  again_bp = observation bp bp 2 0 2 15;
  final = observation ap ap 0 0 0 16;
}

abbrev run : Collection
run = record {
  first_ms = 110_000;
  second_ms = 110_000;
  start = at 110_800;
  filter_socket = ok tt;
  filtering_run = record {
    initial = observation ap ap 0 0 0 21;
    at_bp = observation ap bp 0 2 2 22;
    at_aq = observation ap aq 0 1 1 23;
    final = observation ap ap 0 0 0 24;
  };
  between = at 112_000;
  mapping_socket = ok tt;
  mapping_run = mapping_run;
}

abbrev experiment : Experiment
experiment = begin_experiment observing reservation session

collect_udp_behaviour-within_example :
    (collect_udp_behaviour serialized_len descriptor_digest transcript_len observing reservation
      session topology run).sent_datagrams
    ≤ observing.budgets.outbound_datagrams - observing.budgets.cleanup_datagrams
collect_udp_behaviour-within_example =
    collect_udp_behaviour-within serialized_len descriptor_digest transcript_len observing
      reservation session topology run (omega arith)

mapping-IsBorneOut_example :
    IsBorneOut
      (mapping topology mapping_run
        (err BehaviourFailure.not_started)
        (err BehaviourFailure.not_started)
        experiment).summary
      (mapping topology mapping_run
        (err BehaviourFailure.not_started)
        (err BehaviourFailure.not_started)
        experiment).aq
      (mapping topology mapping_run
        (err BehaviourFailure.not_started)
        (err BehaviourFailure.not_started)
        experiment).bp
mapping-IsBorneOut_example =
    mapping-IsBorneOut topology mapping_run (err BehaviourFailure.not_started)
      (err BehaviourFailure.not_started) experiment
