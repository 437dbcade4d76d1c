-- ===== src/Behaviour/Allowance.antt =====
-- A behaviour experiment sends no more than its allowance (src/network_traversal/behaviour.rs).
use liskov_runtime_cargo.Prelude.{
  ℕ, ◌+◌, ◌-◌, ◌<◌, ◌≤◌, ◌≡◌, ◌==◌, inl, inr, Bool, true, false, not, ◌||◌, Option, Bytes, bytes_eq,
  any, Bool-cases, Option-cases, arith, ltb,
}
use liskov_runtime_cargo.Prelude.Result.{Result, ◌>>◌, Result-cases}
use liskov_runtime_cargo.Gateway.Control.{SocketAddr}
use liskov_runtime_cargo.Traversal.Texts.{TraversalRefusal}
use liskov_runtime_cargo.Traversal.Descriptor.{
  TraversalDescriptorV1, observe_mapping, observe_filtering, has_operation,
}
use liskov_runtime_cargo.Traversal.Reserve.{Reservation}
use liskov_runtime_cargo.Traversal.Transcript.{TraversalTranscriptV1}
use liskov_runtime_cargo.Behaviour.Exchange.{
  BehaviourFailure, Experiment, Observation, Sending, Request, check, send, of_challenge, receive,
  prove, ask, observe, response_bytes, zeros,
}
use liskov_runtime_cargo.Behaviour.Topology.{
  BehaviourEndpoint, BehaviourTopology, BehaviourSession, MappingComparison, alternate, endpoint_v4,
  identity,
}
use liskov_runtime_cargo.Behaviour.Filtering.{FilteringRun, test, filtering}
use liskov_runtime_cargo.Behaviour.Mapping.{MappingRun, sample_at, sample, mapping}
use liskov_runtime_cargo.Behaviour.Collect.{
  Collection, filtering_part, mapping_part, begin_experiment, run_experiments, authorized,
  collect_udp_behaviour,
}

-- What is left and what was sent add up to the allowance.
abbrev IsAllowed : ℕ → Experiment → Type 0
IsAllowed allowance x = x.remaining + x.sent ≡ allowance

module _ (allowance : ℕ) (small : allowance < 65_536) where
  send-IsAllowed :
      (x : Experiment) (s : Sending) → IsAllowed allowance x → IsAllowed allowance (send x s).1
  unfolding send
  send-IsAllowed x s h = elim (Result-cases (check x s.before)) [
    | inr (failure, over) ↦ rw (over, send) h
    | inl (go, started) ↦ elim (Bool-cases (x.remaining == 0)) [
      | inl spent ↦ rw (started, spent, send) h
      | inr left ↦ rw (started, left, send) (ground (arith, h, small, left))
    ]
  ]

  prove-IsAllowed :
      (x : Experiment) (o : Observation) (request : Request) (source : SocketAddr) (ingress : ℕ)
      (packet : Bytes)
      → IsAllowed allowance x
      → IsAllowed allowance (prove x o request source ingress packet).1
  unfolding prove
  prove-IsAllowed x o request source ingress packet h = send-IsAllowed x o.proving h

  ask-IsAllowed :
      (x : Experiment) (o : Observation) (request : Request) (destination source : SocketAddr)
      (ingress : ℕ)
      → IsAllowed allowance x
      → IsAllowed allowance (ask x o request destination source ingress).1
  unfolding ask
  ask-IsAllowed x o request destination source ingress h =
      let asked = send-IsAllowed x o.asking h in
      let y = (send x o.asking).1 in
      elim (Result-cases (
        (send x o.asking).0
        >> of_challenge
            (receive y request destination ingress ingress 1 o.challenge_ms o.challenges))) [
              | inr (failure, lost) ↦ rw (lost, ask) asked
              | inl (packet, came) ↦
                  rw (came, ask) (prove-IsAllowed y o request source ingress packet asked)
            ]

  observe-IsAllowed :
      (x : Experiment) (o : Observation) (destination source : SocketAddr) (ingress selector : ℕ)
      → IsAllowed allowance x
      → IsAllowed allowance (observe x o destination source ingress selector).1
  unfolding observe
  observe-IsAllowed x o destination source ingress selector h =
      elim (Result-cases (check x o.start >> o.transaction)) [
        | inr (failure, over) ↦ rw (over, observe) h
        | inl (tx, fresh) ↦
            elim (Bool-cases (bytes_eq tx (zeros 16) || any (bytes_eq tx) x.transactions)) [
              | inl used ↦ rw (fresh, used, observe) h
              | inr new ↦
                  rw (fresh, new, observe) (ask-IsAllowed _ o _ destination source ingress h)
            ]
      ]

  test-IsAllowed :
      (topology : BehaviourTopology) (initial : SocketAddr) (ip_change : Bool) (o : Observation)
      (slot : Result BehaviourFailure (Unit {0})) (x : Experiment)
      → IsAllowed allowance x
      → IsAllowed allowance (test topology initial ip_change o slot x).1
  unfolding test
  test-IsAllowed topology initial ip_change o slot x h =
      elim (Option-cases (alternate topology ip_change true)) [
        | inl missing ↦ rw (missing, test) h
        | inr (other, found) ↦
            rw (found, test)
              (observe-IsAllowed x o topology.ap.address other.address 0 (identity ip_change) h)
      ]

  filtering-IsAllowed :
      (topology : BehaviourTopology) (run : FilteringRun)
      (aq bp : Result BehaviourFailure (Unit {0})) (x : Experiment)
      → IsAllowed allowance x
      → IsAllowed allowance (filtering topology run aq bp x).experiment
  unfolding filtering
  filtering-IsAllowed topology run aq bp x h =
      let ap = topology.ap.address in
      let begun = observe-IsAllowed x run.initial ap ap 0 0 h in
      elim (Result-cases (observe x run.initial ap ap 0 0).0) [
        | inr (failure, e) ↦ rw (e, filtering) begun
        | inl (initial, e) ↦
            rw (e, filtering)
              (observe-IsAllowed _ run.final ap ap 0 0 (
                test-IsAllowed topology initial false run.at_aq aq _
                  (test-IsAllowed topology initial true run.at_bp bp _ begun)))
      ]

  sample_at-IsAllowed :
      (other : BehaviourEndpoint) (ingress : ℕ) (o again : Observation) (x : Experiment)
      → IsAllowed allowance x
      → IsAllowed allowance (sample_at other ingress o again x).1
  unfolding sample_at
  sample_at-IsAllowed other ingress o again x h =
      let first = observe-IsAllowed x o other.address other.address ingress 0 h in
      elim (Result-cases (observe x o other.address other.address ingress 0).0) [
        | inr (failure, e) ↦ rw (e, sample_at) first
        | inl (seen, e) ↦
            rw (e, sample_at)
              (observe-IsAllowed _ again other.address other.address ingress 0 first)
      ]

  sample-IsAllowed :
      (topology : BehaviourTopology) (ip_change : Bool) (o again : Observation) (x : Experiment)
      → IsAllowed allowance x
      → IsAllowed allowance (sample topology ip_change o again x).1
  unfolding sample
  sample-IsAllowed topology ip_change o again x h =
      elim (Option-cases (alternate topology ip_change false)) [
        | inl missing ↦ rw (missing, sample) h
        | inr (other, found) ↦
            rw (found, sample) (sample_at-IsAllowed other (identity ip_change) o again x h)
      ]

  mapping-IsAllowed :
      (topology : BehaviourTopology) (run : MappingRun)
      (aq bp : Result BehaviourFailure MappingComparison) (x : Experiment)
      → IsAllowed allowance x
      → IsAllowed allowance (mapping topology run aq bp x).experiment
  unfolding mapping
  mapping-IsAllowed topology run aq bp x h =
      let ap = topology.ap.address in
      let begun = observe-IsAllowed x run.initial ap ap 0 0 h in
      elim (Result-cases (observe x run.initial ap ap 0 0).0) [
        | inr (failure, e) ↦ rw (e, mapping) begun
        | inl (initial, e) ↦
            rw (e, mapping)
              (observe-IsAllowed _ run.final ap ap 0 0 (
                sample-IsAllowed topology true run.at_bp run.again_bp _
                  (sample-IsAllowed topology false run.at_aq run.again_aq _ begun)))
      ]

  filtering_part-IsAllowed :
      (d : TraversalDescriptorV1) (topology : BehaviourTopology) (run : Collection) (x : Experiment)
      → IsAllowed allowance x
      → IsAllowed allowance (filtering_part d topology run x).experiment
  unfolding filtering_part
  filtering_part-IsAllowed d topology run x h =
      elim (Bool-cases (not topology.ap.filtering_qualified)) [
        | inl unqualified ↦ rw (unqualified, filtering_part) h
        | inr qualified ↦ elim (Bool-cases (has_operation d.operations observe_filtering)) [
          | inr outside ↦ rw (qualified, outside, filtering_part) h
          | inl granted ↦ elim (Result-cases run.filter_socket) [
            | inr (failure, unbound) ↦ rw (qualified, granted, unbound, filtering_part) h
            | inl (socket, bound) ↦
                rw (qualified, granted, bound, filtering_part)
                  (filtering-IsAllowed topology run.filtering_run _ _ x h)
          ]
        ]
      ]

  mapping_part-IsAllowed :
      (topology : BehaviourTopology) (run : Collection) (x : Experiment)
      → IsAllowed allowance x
      → IsAllowed allowance (mapping_part topology run x).experiment
  unfolding mapping_part
  mapping_part-IsAllowed topology run x h =
      elim (Result-cases (check x run.between >> run.mapping_socket)) [
        | inr (failure, unbound) ↦ rw (unbound, mapping_part) h
        | inl (socket, bound) ↦
            rw (bound, mapping_part) (mapping-IsAllowed topology run.mapping_run _ _ x h)
      ]

  run_experiments-within :
      (d : TraversalDescriptorV1) (topology : BehaviourTopology) (run : Collection) (x : Experiment)
      → IsAllowed allowance x
      → (run_experiments d topology run x).sent_datagrams ≤ allowance
  unfolding run_experiments
  run_experiments-within d topology run x h =
      let after =
        mapping_part-IsAllowed topology run (filtering_part d topology run x).experiment
          (filtering_part-IsAllowed d topology run x h) in
      omega (arith, after)

module _ (serialized_len : TraversalDescriptorV1 → Option ℕ)
    (descriptor_digest : TraversalDescriptorV1 → Result TraversalRefusal Bytes)
    (transcript_len : TraversalTranscriptV1 → Option ℕ) where
  -- A collection reports no more datagrams than the descriptor allows besides its cleanup, whatever
  -- the endpoints answer and however often their sockets fail.
  pub collect_udp_behaviour-within :
      (d : TraversalDescriptorV1) (reservation : Reservation) (session : BehaviourSession)
      (topology : BehaviourTopology) (run : Collection)
      → d.budgets.outbound_datagrams < 65_536
      → (collect_udp_behaviour serialized_len descriptor_digest transcript_len d reservation session
          topology run).sent_datagrams
        ≤ d.budgets.outbound_datagrams - d.budgets.cleanup_datagrams
  unfolding collect_udp_behaviour begin_experiment
  collect_udp_behaviour-within d reservation session topology run small =
      let x = begin_experiment d reservation session in
      let allowance = d.budgets.outbound_datagrams - d.budgets.cleanup_datagrams in
      let within =
        run_experiments-within allowance (omega (arith, small)) d topology run x (omega arith) in
      elim (Bool-cases (
        not
          (authorized serialized_len descriptor_digest transcript_len d reservation session run))) [
            | inl refused ↦ rw (refused, collect_udp_behaviour) (omega arith)
            | inr bound ↦
                elim (Bool-cases (
                  not (bytes_eq topology.revision d.endpoint_set_revision)
                  || not (endpoint_v4 topology.ap)
                  || not topology.ap.mapping_qualified)) [
                    | inl other ↦ rw (bound, other, collect_udp_behaviour) (omega arith)
                    | inr known ↦
                        elim (Bool-cases (not (has_operation d.operations observe_mapping))) [
                          | inl outside ↦
                              rw (bound, known, outside, collect_udp_behaviour) (omega arith)
                          | inr granted ↦
                              elim (Bool-cases (ltb d.budgets.datagram_bytes response_bytes)) [
                                | inl small_bytes ↦
                                    rw (bound, known, granted, small_bytes, collect_udp_behaviour)
                                      (omega arith)
                                | inr wide ↦ elim (Result-cases (check x run.start)) [
                                  | inr (failure, late) ↦
                                      rw (bound, known, granted, wide, late, collect_udp_behaviour)
                                        (omega arith)
                                  | inl (go, started) ↦
                                      rw
                                        (
                                          bound, known, granted, wide, started,
                                          collect_udp_behaviour,
                                        )
                                        within
                                ]
                              ]
                        ]
                  ]
          ]
