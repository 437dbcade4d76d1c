-- ===== src/Traversal/Run/Creation.antt =====
-- The creation and the deletion of a mapping within a session's run: the calls of the adapters in
-- `run_mapping_lifecycle` of src/network_traversal/lifecycle.rs.
use liskov_runtime_cargo.Prelude.{
  ℕ, Bool, true, false, ◌&&◌, Option, none, some, List, [], ◌∷◌, Bytes, map, if◌then◌else◌,
}
use liskov_runtime_cargo.Prelude.Result.{Result, ok, err}
use liskov_runtime_cargo.Gateway.Control.{RouterProtocol, pcp, nat_pmp, upnp_igd, Url}
use liskov_runtime_cargo.Traversal.Descriptor.{TraversalDescriptorV1}
use liskov_runtime_cargo.Traversal.Lifecycle.{
  MappingStop, MappingMethodPlan, Accounting, Charge, charge_all,
}
use liskov_runtime_cargo.Traversal.Control.{BoundedControl, turn_of, spent}
use liskov_runtime_cargo.Mapping.Effects.{OwnedMappingHandle, MappingEffect, Turn, Sent, exchange}
use liskov_runtime_cargo.Mapping.Delete.{
  delete_allowed, delete_refused, delete_owned_mapping, is_upnp,
}
use liskov_runtime_cargo.Mapping.Create.{
  PcpMap, NatPmpMap, pcp_request, natpmp_request, map_pcp, map_nat_pmp, is_zero_nonce,
}
use liskov_runtime_cargo.Traversal.Run.Reports.{Upnp, MappingGateway, MethodRun, port_protocol}

-- The charges of UPnP exchanges.
abbrev pub upnp_charges : List Bool → List Charge
upnp_charges flags =
    map (λ cleanup. record { datagrams = 0; controls = 1; dialbacks = 0; cleanup = cleanup }) flags

-- `upnp::delete_owned` without a control descriptor keeps the mapping.
abbrev pub upnp_kept : OwnedMappingHandle → MappingEffect
upnp_kept h = record (delete_refused h) {
  granted_lifetime_sec = some h.granted_lifetime_sec;
  assigned_port = some h.external_port;
}

abbrev pub upnp_deletion : Option Upnp → Accounting → OwnedMappingHandle → MappingEffect × List Bool
upnp_deletion none a h = (upnp_kept h, [])
upnp_deletion (some upnp) a h = upnp.delete a h

-- What stays the same over the methods of a run.
pub record Context : Type 0 where
  pub descriptor : TraversalDescriptorV1
  pub maximum_lease_sec : ℕ
  pub active_end : ℕ
  pub end : ℕ
  pub gateway : MappingGateway

abbrev pub control_of : Context → RouterProtocol → Bool → BoundedControl
control_of x protocol cleaning = record {
  protocol = protocol;
  ordinary_end = x.active_end;
  cleanup_end = x.end;
  cleaning = cleaning;
}

module _ (parse_url : Bytes → Option Url) where
  -- A creation by datagrams, whose inline deletion starts from what the request has left.
  unfoldable pub datagram_create :
      Context
      → RouterProtocol
      → Accounting
      → MethodRun
      → Bytes
      → (Turn → Turn → MappingEffect × List Sent)
      → MappingEffect × Accounting
  datagram_create x protocol a run request create =
      let b = control_of x protocol false in
      let creating = turn_of b run.creating a in
      let requested =
        spent b a (exchange parse_url x.gateway.gateway protocol request creating).1
          (run.creating ∷ []) in
      let (effect, sent) = create creating (turn_of b run.deleting requested) in
      (effect, spent b a sent (run.creating ∷ run.deleting ∷ []))

  unfoldable pub create_mapping :
      RouterProtocol
      → Context
      → MappingMethodPlan
      → ℕ
      → Accounting
      → MethodRun
      → Result MappingStop (MappingEffect × Accounting)
  create_mapping pcp x plan port a run = elim run.nonce [
    | err stop ↦ err MappingStop.unsupported
    | ok nonce ↦
        let input : PcpMap = record {
          local_address = x.gateway.local_address;
          internal_port = port;
          protocol = port_protocol plan;
          nonce = nonce;
          maximum_lease_sec = x.maximum_lease_sec;
          previous_epoch = none;
          exclusive_reservation = some x.gateway.reservation;
        } in
        if is_zero_nonce nonce
        then err MappingStop.unsupported
        else ok (
            datagram_create x pcp a run (pcp_request input)
              (map_pcp parse_url x.gateway.gateway input))
  ]
  create_mapping nat_pmp x plan port a run =
      let input : NatPmpMap = record {
        internal_port = port;
        protocol = port_protocol plan;
        maximum_lease_sec = x.maximum_lease_sec;
        previous_epoch = none;
        exclusive_reservation = some x.gateway.reservation;
      } in
      ok (
        datagram_create x nat_pmp a run (natpmp_request input)
          (map_nat_pmp parse_url x.gateway.gateway input))
  create_mapping upnp_igd x plan port a run = elim x.gateway.igd [
    | none ↦ err MappingStop.unsupported
    | some upnp ↦
        let (effect, flags) = upnp.create a port in ok (effect, charge_all a (upnp_charges flags))
  ]

  -- The explicit deletion of an owned mapping.
  unfoldable pub delete_mapping :
      Context
      → MappingMethodPlan
      → OwnedMappingHandle
      → Option ℕ
      → Accounting
      → MethodRun
      → MappingEffect × Accounting
  delete_mapping x plan h previous_epoch a run =
      let b = control_of x plan.protocol true in
      let g = x.gateway in
      let (by_upnp, flags) = upnp_deletion g.igd a h in
      let (effect, sent) =
        delete_owned_mapping parse_url (λ k. (by_upnp, [])) g.gateway h (some g.reservation)
          previous_epoch (turn_of b run.cleaning a) in
      (
        effect,
        if is_upnp h.protocol && delete_allowed h g.gateway (some g.reservation)
            then charge_all a (upnp_charges flags)
            else spent b a sent (run.cleaning ∷ []),
      )
