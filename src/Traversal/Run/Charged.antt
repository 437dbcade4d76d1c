-- ===== src/Traversal/Run/Charged.antt =====
-- The accounting stays balanced over the exchanges, the creations, the deletions and the path checks
-- of a session (src/network_traversal/lifecycle.rs).
use liskov_runtime_cargo.Prelude.{
  is_some, ℕ, true, false, not, ◌&&◌, ◌||◌, Option, some, List, [], ◌∷◌, Bytes, inl, inr,
  Bool-cases, Option-cases, ltb, leb, ◌==◌, length, if◌then◌else◌,
}
use liskov_runtime_cargo.Prelude.Result.{Result, ok, Result-cases, Ensures, ok-ensures, err-ensures}
use liskov_runtime_cargo.Gateway.Control.{
  RouterProtocol, pcp, nat_pmp, upnp_igd, SocketAddr, control_max_bytes, Url,
}
use liskov_runtime_cargo.Traversal.Texts.{TraversalRefusal}
use liskov_runtime_cargo.Traversal.Outcomes.{TraversalTransport, transport_rank}
use liskov_runtime_cargo.Traversal.Descriptor.{TraversalBudgets, TraversalDescriptorV1}
use liskov_runtime_cargo.Traversal.Validate.Accepted.{IsWithinCeilings}
use liskov_runtime_cargo.Traversal.Transcript.{TraversalTranscriptV1}
use liskov_runtime_cargo.Traversal.Lifecycle.{
  Accounting, Charge, MappingMethodPlan, MappingStop, charge, one_if, udp_router,
}
use liskov_runtime_cargo.Traversal.Lifecycle.Balance.{
  IsBalanced, charge-IsBalanced, charge_all-IsBalanced_from,
}
use liskov_runtime_cargo.Traversal.Control.{
  BoundedControl, Control, bounded_exchange, delete_request, spent, MappingPathCheck, PathRun, path,
  ordinary,
}
use liskov_runtime_cargo.Mapping.Effects.{Sent, OwnedMappingHandle, MappingEffect, Turn}
use liskov_runtime_cargo.Mapping.Delete.{is_upnp, delete_allowed}
use liskov_runtime_cargo.Mapping.Create.{is_zero_nonce}
use liskov_runtime_cargo.Traversal.Run.Reports.{MethodRun}
use liskov_runtime_cargo.Traversal.Run.Creation.{
  Context, control_of, datagram_create, create_mapping, delete_mapping,
}

module _ (b : TraversalBudgets) (valid : IsWithinCeilings b) where
  pub bounded_exchange-IsBalanced :
      (k : BoundedControl) (c : Control) (a : Accounting) (to : SocketAddr) (request : Bytes)
      (room : ℕ)
      → IsBalanced b a
      → IsBalanced b (bounded_exchange k c a to request room).1
  unfolding bounded_exchange
  bounded_exchange-IsBalanced k c a to request room h =
      let cleanup = k.cleaning || delete_request k.protocol request in
      let end = if cleanup then k.cleanup_end else k.ordinary_end in
      let datagrams = one_if (udp_router k.protocol) in
      let x : Charge = record {
        datagrams = datagrams;
        controls = 1;
        dialbacks = 0;
        cleanup = cleanup;
      } in
      elim (Bool-cases (leb end c.before.now_ms || (not cleanup && is_some c.before.stop))) [
        | inl late ↦ rw (late) h
        | inr early ↦
            elim (Bool-cases (not (datagrams == 0) && ltb a.datagram_bytes (length request))) [
              | inl long ↦ rw (early, long) h
              | inr short ↦ elim (Result-cases (charge a x)) [
                | inl (paid, accepted) ↦
                    rw (early, short, accepted) (charge-IsBalanced b valid a paid x h accepted)
                | inr (stop, refused) ↦ rw (early, short, refused) h
              ]
            ]
      ]

  pub spent-IsBalanced :
      (k : BoundedControl) (sent : List Sent) (cs : List Control) (a : Accounting)
      → IsBalanced b a
      → IsBalanced b (spent k a sent cs)
  unfolding spent
  spent-IsBalanced k [] cs a h = h
  spent-IsBalanced k (s ∷ sent) [] a h = h
  spent-IsBalanced k ((to, request) ∷ sent) (c ∷ cs) a h =
      spent-IsBalanced k sent cs _
        (bounded_exchange-IsBalanced k c a to request control_max_bytes h)

  module _ (parse_url : Bytes → Option Url) (x : Context) where
    pub datagram_create-IsBalanced :
        (protocol : RouterProtocol) (a : Accounting) (run : MethodRun) (request : Bytes)
        (create : Turn → Turn → MappingEffect × List Sent)
        → IsBalanced b a
        → IsBalanced b (datagram_create parse_url x protocol a run request create).1
    unfolding datagram_create
    datagram_create-IsBalanced protocol a run request create h =
        spent-IsBalanced (control_of x protocol false) _ (run.creating ∷ run.deleting ∷ []) a h

    pub create_mapping-IsBalanced :
        (protocol : RouterProtocol) (plan : MappingMethodPlan) (port : ℕ) (a : Accounting)
        (run : MethodRun)
        → IsBalanced b a
        → Ensures (λ r. IsBalanced b r.1) (create_mapping parse_url protocol x plan port a run)
    unfolding create_mapping
    create_mapping-IsBalanced pcp plan port a run h = elim (Result-cases run.nonce) [
      | inr (stop, missing) ↦
          rw (missing) (err-ensures (λ r. IsBalanced b r.1) MappingStop.unsupported)
      | inl (nonce, drawn) ↦ elim (Bool-cases (is_zero_nonce nonce)) [
        | inl zero ↦ rw (drawn, zero) (err-ensures (λ r. IsBalanced b r.1) MappingStop.unsupported)
        | inr random ↦
            rw (drawn, random)
              (ok-ensures MappingStop (λ r. IsBalanced b r.1)
                (datagram_create-IsBalanced pcp a (record run { nonce = ok nonce }) _ _ h))
      ]
    ]
    create_mapping-IsBalanced nat_pmp plan port a run h =
        ok-ensures MappingStop (λ r. IsBalanced b r.1)
          (datagram_create-IsBalanced nat_pmp a run _ _ h)
    create_mapping-IsBalanced upnp_igd plan port a run h = elim (Option-cases x.gateway.igd) [
      | inl missing ↦ rw (missing) (err-ensures (λ r. IsBalanced b r.1) MappingStop.unsupported)
      | inr (upnp, found) ↦ rw (found) (
          ok-ensures MappingStop (λ r. IsBalanced b r.1) (charge_all-IsBalanced_from b valid _ a h))
    ]

    pub delete_mapping-IsBalanced :
        (plan : MappingMethodPlan) (h : OwnedMappingHandle) (epoch : Option ℕ) (a : Accounting)
        (run : MethodRun)
        → IsBalanced b a
        → IsBalanced b (delete_mapping parse_url x plan h epoch a run).1
    unfolding delete_mapping
    delete_mapping-IsBalanced plan h epoch a run balanced =
        elim (Bool-cases
          (is_upnp h.protocol && delete_allowed h x.gateway.gateway (some x.gateway.reservation))) [
            | inl by_upnp ↦ rw (by_upnp) (charge_all-IsBalanced_from b valid _ a balanced)
            | inr by_datagrams ↦ rw (by_datagrams) (
                spent-IsBalanced (control_of x plan.protocol true) _ (run.cleaning ∷ []) a balanced)
          ]

  module _ (serialized_len : TraversalDescriptorV1 → Option ℕ)
      (descriptor_digest : TraversalDescriptorV1 → Result TraversalRefusal Bytes)
      (transcript_len : TraversalTranscriptV1 → Option ℕ) (hex_encode : Bytes → Bytes) where
    pub path-IsBalanced :
        (a : Accounting) (d : TraversalDescriptorV1) (check : MappingPathCheck) (run : PathRun)
        (end : ℕ)
        → IsBalanced b a
        → IsBalanced b
            (path serialized_len descriptor_digest transcript_len hex_encode a d check run end).1
    unfolding path
    path-IsBalanced a d check run end h =
        let udp = transport_rank check.transport == transport_rank TraversalTransport.udp in
        let x : Charge = record {
          datagrams = one_if udp;
          controls = 2;
          dialbacks = 1;
          cleanup = false;
        } in
        elim (Result-cases (ordinary run.before end)) [
          | inr (stop, over) ↦ rw (over, path) h
          | inl (started, goes_on) ↦ elim (Result-cases (charge a x)) [
            | inl (paid, accepted) ↦
                rw (goes_on, accepted, path) (charge-IsBalanced b valid a paid x h accepted)
            | inr (stop, refused) ↦ rw (goes_on, refused, path) h
          ]
        ]
