-- ===== src/Mapping/Delete/Owned.antt =====
-- Only an owned mapping is deleted (src/network_traversal/mapping.rs).
use liskov_runtime_cargo.Prelude.{
  ℕ, ◌≤◌, ◌≡◌, ◌⊎◌, inl, inr, refl, true, false, Option, none, some, List, [], ◌∷◌, Bytes,
  bytes_eq→eq, arith, Bool-cases, length,
}
use liskov_runtime_cargo.Gateway.Routes.{SelectedGateway}
use liskov_runtime_cargo.Gateway.Control.{RouterProtocol, pcp, nat_pmp, upnp_igd, Url}
use liskov_runtime_cargo.Mapping.Effects.{
  OwnedMappingHandle, ExclusiveReservation, MappingEffect, Turn, Sent,
}
use liskov_runtime_cargo.Mapping.Delete.{
  delete_packet, delete_allowed_for, delete_allowed, delete_owned_mapping, is_upnp, holds,
}
use liskov_runtime_cargo.Mapping.Delete.Confirmed.{send_delete-Sends, control_port}

-- The reservation is that of the gateway and of the digest.
abbrev pub IsReserved : SelectedGateway → Option ExclusiveReservation → Bytes → Type 0
IsReserved gateway reservation digest =
    (r : ExclusiveReservation) × (reservation ≡ some r)
    × (r.gateway ≡ gateway.gateway)
    × (r.digest ≡ digest)

holds-IsReserved :
    (gateway : SelectedGateway) (reservation : Option ExclusiveReservation) (digest : Bytes)
    → holds gateway reservation digest ≡ true
    → IsReserved gateway reservation digest
holds-IsReserved gateway none digest e = absurd (ground arith)
holds-IsReserved gateway (some r) digest e =
    (r, refl, ground arith, bytes_eq→eq r.digest digest (ground arith))

-- What lets a mapping be deleted: its handle authorizes it, and the reservation under which it was
-- made is held still; a PCP mapping that was made under none needs none.
abbrev pub IsDeletable : OwnedMappingHandle → SelectedGateway → Option ExclusiveReservation → Type 0
IsDeletable h gateway reservation =
    (h.cleanup_authorized ≡ true)
    × (((h.protocol ≡ pcp) × (h.reservation_digest ≡ none))
        ⊎ ((digest : Bytes) × (h.reservation_digest ≡ some digest)
            × IsReserved gateway reservation digest))

allowed_for :
    (protocol : RouterProtocol) (digest : Option Bytes) (gateway : SelectedGateway)
    (reservation : Option ExclusiveReservation)
    → delete_allowed_for protocol digest gateway reservation ≡ true
    → ((protocol ≡ pcp) × (digest ≡ none))
      ⊎ ((d : Bytes) × (digest ≡ some d) × IsReserved gateway reservation d)
unfolding delete_allowed_for
allowed_for pcp none gateway reservation e = inl (refl, refl)
allowed_for nat_pmp none gateway reservation e = absurd (ground arith)
allowed_for upnp_igd none gateway reservation e = absurd (ground arith)
allowed_for pcp (some d) gateway reservation e =
    inr (d, refl, holds-IsReserved gateway reservation d e)
allowed_for nat_pmp (some d) gateway reservation e =
    inr (d, refl, holds-IsReserved gateway reservation d e)
allowed_for upnp_igd (some d) gateway reservation e =
    inr (d, refl, holds-IsReserved gateway reservation d e)

allowed-IsDeletable :
    (h : OwnedMappingHandle) (gateway : SelectedGateway) (reservation : Option ExclusiveReservation)
    → delete_allowed h gateway reservation ≡ true
    → IsDeletable h gateway reservation
unfolding delete_allowed
allowed-IsDeletable h gateway reservation e =
    (ground arith, allowed_for h.protocol h.reservation_digest gateway reservation (ground arith))

module _ (parse_url : Bytes → Option Url)
    (upnp_delete : OwnedMappingHandle → MappingEffect × List Sent) (gateway : SelectedGateway)
    (h : OwnedMappingHandle) (reservation : Option ExclusiveReservation) (previous_epoch : Option ℕ)
    (turn : Turn) (datagrams : is_upnp h.protocol ≡ false) where
  abbrev deletion : MappingEffect × List Sent
  deletion = delete_owned_mapping parse_url upnp_delete gateway h reservation previous_epoch turn

  -- For a mapping made by PCP or NAT-PMP: nothing is sent, or its deletion once, to the gateway's
  -- control port, and then the mapping is owned; no more is sent than is counted, and at most one
  -- request is counted.
  pub delete_owned_mapping-Sends :
      ((deletion.1 ≡ [])
        ⊎ ((deletion.1 ≡ (control_port gateway, delete_packet h) ∷ [])
            × IsDeletable h gateway reservation))
      × (length deletion.1 ≤ deletion.0.requests_sent)
      × (deletion.0.requests_sent ≤ 1)
  unfolding delete_owned_mapping
  delete_owned_mapping-Sends = elim (Bool-cases (delete_allowed h gateway reservation)) [
    | inr refused ↦ (inl (ground arith), ground arith, ground arith)
    | inl allowed ↦
        let (once, counted, most) =
          send_delete-Sends parse_url gateway h (delete_packet h) previous_epoch turn 0 datagrams
            (omega arith) in
        let owned = allowed-IsDeletable h gateway reservation allowed in
        (
          elim once [ inl nothing ↦ inl (ground arith) | inr one ↦ inr (ground arith, owned) ],
          ground arith,
          ground arith,
        )
  ]
