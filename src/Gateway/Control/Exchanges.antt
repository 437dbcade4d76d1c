-- ===== src/Gateway/Control/Exchanges.antt =====
-- What the exchanges of src/network_traversal/gateway.rs promise: one destination, the gateway.
use liskov_runtime_cargo.Prelude.{
  ℕ, ◌≤◌, ◌≡◌, ◌≢◌, ◌↔◌, inl, inr, Bool, true, false, Option, none, some, List, [], Bytes, All,
  arith, not, ◌||◌, codes, bytes_eq, length, ltb, ◌==◌,
}
use liskov_runtime_cargo.Prelude.Result.{
  ok, Ensures, ensures-ok, ok-ensures, bind-ensures, refuse_if, ok_or, Result-cases,
}
use liskov_runtime_cargo.Gateway.Routes.{SelectedGateway}
use liskov_runtime_cargo.Gateway.Control.{
  RouterProtocol, pcp, nat_pmp, upnp_igd, ControlRefusal, wrong_target, oversize, is_empty,
  control_location_max_bytes, SocketAddr, Url, Reply, UpnpSoapReply, refused, exchanged,
  upnp_location, control_destination, exchange_upnp_soap,
}

-- An address at the gateway, with a port that can be used.
abbrev pub IsAtGateway : SelectedGateway → SocketAddr → Type 0
IsAtGateway gateway d = (d.address ≡ gateway.gateway) × (d.port ≢ 0)

-- What is sent: nothing, or one request to the gateway.
abbrev pub AtMostOne : SelectedGateway → List SocketAddr → Type 0
AtMostOne gateway ds = (length ds ≤ 1) × All (IsAtGateway gateway) ds

-- Whether a reply says that its request was handed to the transport.
abbrev pub was_exchanged : UpnpSoapReply → Bool
was_exchanged (refused refusal) = false
was_exchanged (exchanged result) = true

module _ (parse_url : Bytes → Option Url) where
  upnp_location-ensures :
      (gateway : SelectedGateway) (location : Bytes)
      → Ensures (IsAtGateway gateway) (upnp_location parse_url gateway location)
  unfolding upnp_location
  upnp_location-ensures gateway location =
      let P = IsAtGateway gateway in
      bind-ensures P (refuse_if (ltb control_location_max_bytes (length location)) oversize) _
        λ _ _. bind-ensures P (ok_or (parse_url location) wrong_target) _ λ url _.
          bind-ensures P
            (refuse_if
              (not (bytes_eq url.scheme (codes "http"))
                || not (is_empty url.username)
                || url.has_password)
              wrong_target)
            _
            λ _ _. bind-ensures P (ok_or url.ipv4_host wrong_target) _ λ host _.
              bind-ensures P (refuse_if (not (host == gateway.gateway)) wrong_target) _
                λ _ at_gateway. bind-ensures P (ok_or url.port wrong_target) _ λ port _.
                  bind-ensures P (refuse_if (port == 0) wrong_target) _ λ _ positive.
                    ok-ensures ControlRefusal P {a = record { address = host; port = port }}
                      (ground arith, ground arith)

  -- Whatever the location says, an accepted destination is the gateway itself, at a usable port.
  pub control_destination-IsAtGateway :
      (gateway : SelectedGateway) (protocol : RouterProtocol) (location : Option Bytes)
      (d : SocketAddr)
      → control_destination parse_url gateway protocol location ≡ ok d
      → IsAtGateway gateway d
  unfolding control_destination
  control_destination-IsAtGateway gateway upnp_igd none d e = absurd (ground arith)
  control_destination-IsAtGateway gateway upnp_igd (some location) d e =
      ensures-ok (IsAtGateway gateway) (upnp_location parse_url gateway location)
        (upnp_location-ensures gateway location) e
  control_destination-IsAtGateway gateway pcp (some location) d e = absurd (ground arith)
  control_destination-IsAtGateway gateway nat_pmp (some location) d e = absurd (ground arith)
  control_destination-IsAtGateway gateway pcp none d e = (ground arith, ground arith)
  control_destination-IsAtGateway gateway nat_pmp none d e = (ground arith, ground arith)

  module _ (transport : SocketAddr → Bytes → ℕ → Reply) (gateway : SelectedGateway) where
    -- An exchange sends nothing, or its request once, to the gateway.
    pub exchange_upnp_soap-AtMostOne :
        (location request : Bytes) (was_cancelled : Bool)
        → AtMostOne gateway
            (exchange_upnp_soap parse_url transport gateway location request was_cancelled).1
    unfolding exchange_upnp_soap
    exchange_upnp_soap-AtMostOne location request was_cancelled =
        elim (Result-cases (control_destination parse_url gateway upnp_igd (some location))) [
          | inl (d, accepted) ↦
              let at =
                control_destination-IsAtGateway gateway upnp_igd (some location) d accepted in
              ground (arith, at)
          | inr (problem, refusal) ↦ ground arith
        ]

    -- A SOAP exchange sends nothing, or its request once, to the gateway at a usable port; and its
    -- reply says that the request was handed to the transport exactly when it was sent.
    pub exchange_upnp_soap-Sends :
        (location request : Bytes) (was_cancelled : Bool)
        → let (reply, sent) =
            exchange_upnp_soap parse_url transport gateway location request was_cancelled in
          AtMostOne gateway sent × ((was_exchanged reply ≡ true) ↔ (sent ≢ []))
    unfolding exchange_upnp_soap
    exchange_upnp_soap-Sends location request was_cancelled = (
      exchange_upnp_soap-AtMostOne location request was_cancelled,
      elim (Result-cases (control_destination parse_url gateway upnp_igd (some location))) [
        | inl (d, accepted) ↦ ground arith
        | inr (problem, refusal) ↦ ground arith
      ],
    )
