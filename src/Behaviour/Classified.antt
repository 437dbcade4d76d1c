-- ===== src/Behaviour/Classified.antt =====
-- What a classification of a behaviour rests on (src/network_traversal/behaviour.rs).
use liskov_runtime_cargo.Prelude.{
  ◌≡◌, ◌⊎◌, inl, inr, refl, Bool, not, ◌||◌, Option, none, some, Bool-cases,
}
use liskov_runtime_cargo.Prelude.Result.{Result, ok, err, Result-cases}
use liskov_runtime_cargo.Gateway.Control.{SocketAddr}
use liskov_runtime_cargo.Traversal.Outcomes.{TraversalOutcome}
use liskov_runtime_cargo.Behaviour.Exchange.{BehaviourFailure, Experiment, observe}
use liskov_runtime_cargo.Behaviour.Topology.{
  BehaviourTopology, BehaviourSummary, MappingComparison, unchanged, changed, classified_as,
  unknown, concluded, same_address,
}
use liskov_runtime_cargo.Behaviour.Mapping.{MappingRun, mapping, mapping_summary, compared}

-- A summary that says why it is none, or one that the comparisons at A:q and B:p bear out.
abbrev pub IsBorneOut :
    BehaviourSummary
    → Result BehaviourFailure MappingComparison
    → Result BehaviourFailure MappingComparison
    → Type 0
IsBorneOut summary aq bp =
    ((failure : BehaviourFailure) × (summary ≡ unknown failure))
    ⊎ (((summary ≡ classified_as TraversalOutcome.address_and_port_dependent) × (aq ≡ ok changed))
        ⊎ (((summary ≡ classified_as TraversalOutcome.address_dependent)
              × (aq ≡ ok unchanged)
              × (bp ≡ ok changed))
            ⊎ ((summary ≡ classified_as TraversalOutcome.endpoint_independent)
                × (aq ≡ ok unchanged)
                × (bp ≡ ok unchanged))))

mapping_summary-IsBorneOut :
    (initial : SocketAddr) (at_aq at_bp : Option (Result BehaviourFailure SocketAddr))
    (aq bp : Result BehaviourFailure MappingComparison)
    → IsBorneOut
        (mapping_summary initial at_aq at_bp)
        (compared initial at_aq aq)
        (compared initial at_bp bp)
unfolding mapping_summary compared
mapping_summary-IsBorneOut initial none none aq bp = inl (_, refl)
mapping_summary-IsBorneOut initial none (some (ok b)) aq bp = inl (_, refl)
mapping_summary-IsBorneOut initial none (some (err failure)) aq bp = inl (_, refl)
mapping_summary-IsBorneOut initial (some (err failure)) none aq bp = inl (_, refl)
mapping_summary-IsBorneOut initial (some (err failure)) (some r) aq bp = inl (_, refl)
mapping_summary-IsBorneOut initial (some (ok q)) none aq bp =
    elim (Bool-cases (same_address q initial)) [
      | inr moved ↦ rw (moved) (inr (inl (refl, refl)))
      | inl same ↦ rw (same) (inl (_, refl))
    ]
mapping_summary-IsBorneOut initial (some (ok q)) (some (err failure)) aq bp =
    elim (Bool-cases (same_address q initial)) [
      | inr moved ↦ rw (moved) (inr (inl (refl, refl)))
      | inl same ↦ rw (same) (inl (_, refl))
    ]
mapping_summary-IsBorneOut initial (some (ok q)) (some (ok b)) aq bp =
    elim (Bool-cases (same_address q initial)) [
      | inr moved ↦ rw (moved) (inr (inl (refl, refl)))
      | inl same ↦ elim (Bool-cases (same_address b initial)) [
        | inr moved ↦ rw (same, moved) (inr (inr (inl (refl, refl, refl))))
        | inl still ↦ rw (same, still) (inr (inr (inr (refl, refl, refl))))
      ]
    ]

concluded-IsBorneOut :
    (initial : SocketAddr) (final : Result BehaviourFailure SocketAddr) (moved : Bool)
    (summary : BehaviourSummary) (aq bp : Result BehaviourFailure MappingComparison)
    → IsBorneOut summary aq bp
    → IsBorneOut (concluded initial final moved summary) aq bp
unfolding concluded
concluded-IsBorneOut initial (err failure) moved summary aq bp h = inl (failure, refl)
concluded-IsBorneOut initial (ok final) moved summary aq bp h =
    elim (Bool-cases (not (same_address final initial) || moved)) [
      | inl rebinds ↦ rw (rebinds) (inl (BehaviourFailure.rebinding, refl))
      | inr steady ↦ rw (steady) h
    ]

-- A mapping experiment says why it classifies nothing, or its classification is the one that the
-- comparisons that it reports bear out: changed at A:q, address and port dependent; unchanged at A:q
-- and changed at B:p, address dependent; unchanged at both, endpoint independent.
pub mapping-IsBorneOut :
    (topology : BehaviourTopology) (run : MappingRun)
    (aq bp : Result BehaviourFailure MappingComparison) (x : Experiment)
    → IsBorneOut
        (mapping topology run aq bp x).summary
        (mapping topology run aq bp x).aq
        (mapping topology run aq bp x).bp
unfolding mapping
mapping-IsBorneOut topology run aq bp x =
    let ap = topology.ap.address in
    elim (Result-cases (observe x run.initial ap ap 0 0).0) [
      | inr (failure, e) ↦ rw (e, mapping) (inl (failure, refl))
      | inl (initial, e) ↦
          rw (e, mapping)
            (concluded-IsBorneOut initial _ _ _ _ _ (mapping_summary-IsBorneOut initial _ _ aq bp))
    ]
