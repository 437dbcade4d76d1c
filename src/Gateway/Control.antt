-- ===== src/Gateway/Control.antt =====
-- Exchanges with the selected gateway: `exchange_with_gateway`, `exchange_upnp_soap` and
-- `control_destination` of src/network_traversal/gateway.rs. The URL parser and the transport are
-- parameters: what `url::Url::parse` gives of a location, and what the transport answers to the one
-- request that it may be given.
use liskov_runtime_cargo.Prelude.{
  ℕ, Bool, true, false, not, ◌&&◌, ◌||◌, Option, none, some, List, [], ◌∷◌, Bytes, bytes_eq, codes,
  ◌==◌, ltb, leb, if◌then◌else◌, length, take,
}
use liskov_runtime_cargo.Prelude.Result.{Result, ok, err, ◌>>=◌, ◌>>◌, refuse_if, ok_or}
use liskov_runtime_cargo.Gateway.Routes.{SelectedGateway}
pub mod Exchanges

abbrev pub control_max_bytes : ℕ
control_max_bytes = 1100

abbrev pub control_location_max_bytes : ℕ
control_location_max_bytes = 512

abbrev pub router_control_port : ℕ
router_control_port = 5351

abbrev pub upnp_soap_max_bytes : ℕ
upnp_soap_max_bytes = 4096

pub data RouterProtocol : Type 0 where
  pcp nat_pmp upnp_igd : RouterProtocol

pub data ControlRefusal : Type 0 where
  unsupported wrong_target oversize cancelled bounded : ControlRefusal

-- An IPv4 address and a port.
pub record SocketAddr : Type 0 where
  pub address : ℕ
  pub port : ℕ

-- What the code reads of a URL: `ipv4_host` is the host if it is an IPv4 address, `port` is
-- `port_or_known_default`.
pub record Url : Type 0 where
  pub scheme : Bytes
  pub username : Bytes
  pub has_password : Bool
  pub ipv4_host : Option ℕ
  pub port : Option ℕ

-- The reply of the transport: how many bytes it says it received, and the response buffer.
abbrev pub Reply : Type 0
Reply = Result ControlRefusal (ℕ × Bytes)

-- Whether the first check of `cancelled` and the one after the exchange find it.
pub record Cancelled : Type 0 where
  pub before : Bool
  pub after : Bool

abbrev pub is_empty : Bytes → Bool
is_empty [] = true
is_empty (b ∷ bs) = false

pub data UpnpSoapReply : Type 0 where
  refused : ControlRefusal → UpnpSoapReply
  exchanged : Result ControlRefusal Bytes → UpnpSoapReply

module _ (parse_url : Bytes → Option Url) where
  unfoldable pub upnp_location : SelectedGateway → Bytes → Result ControlRefusal SocketAddr
  upnp_location gateway location = do
    refuse_if (ltb control_location_max_bytes (length location)) oversize
    url ← ok_or (parse_url location) wrong_target
    refuse_if
        (not (bytes_eq url.scheme (codes "http"))
          || not (is_empty url.username)
          || url.has_password)
        wrong_target
    host ← ok_or url.ipv4_host wrong_target
    refuse_if (not (host == gateway.gateway)) wrong_target
    port ← ok_or url.port wrong_target
    refuse_if (port == 0) wrong_target
    ok (record { address = host; port = port })

  unfoldable pub control_destination :
      SelectedGateway → RouterProtocol → Option Bytes → Result ControlRefusal SocketAddr
  control_destination gateway upnp_igd none = err wrong_target
  control_destination gateway upnp_igd (some location) = upnp_location gateway location
  control_destination gateway _ (some location) = err wrong_target
  control_destination gateway _ none =
      ok (record { address = gateway.gateway; port = router_control_port })

  module _ (transport : SocketAddr → Bytes → ℕ → Reply) where
    -- The result, and the destinations that the transport was given the request for.
    unfoldable pub exchange_with_gateway :
        SelectedGateway
        → RouterProtocol
        → Option Bytes
        → Bytes
        → Cancelled
        → Result ControlRefusal Bytes × List SocketAddr
    exchange_with_gateway gateway protocol location request c =
        if c.before
        then (err cancelled, [])
        else (if is_empty request
            then (err unsupported, [])
            else (if ltb control_max_bytes (length request)
                then (err oversize, [])
                else elim (control_destination gateway protocol location) [
                  | err refusal ↦ (err refusal, [])
                  | ok destination ↦ (
                    elim (transport destination request control_max_bytes) [
                      | err refusal ↦ err refusal
                      | ok (received, response) ↦
                          if c.after
                          then err cancelled
                          else (if ltb control_max_bytes received
                              then err bounded
                              else ok (take received response))
                    ],
                    destination ∷ [],
                  )
                ]))

    unfoldable pub exchange_upnp_soap :
        SelectedGateway → Bytes → Bytes → Bool → UpnpSoapReply × List SocketAddr
    exchange_upnp_soap gateway location request was_cancelled =
        if is_empty request
        then (refused unsupported, [])
        else (if ltb upnp_soap_max_bytes (length request)
            then (refused oversize, [])
            else (if was_cancelled
                then (refused cancelled, [])
                else elim (control_destination gateway upnp_igd (some location)) [
                  | err refusal ↦ (refused refusal, [])
                  | ok destination ↦ (
                    elim (transport destination request upnp_soap_max_bytes) [
                      | err refusal ↦ exchanged (err refusal)
                      | ok (received, response) ↦
                          if leb upnp_soap_max_bytes received
                          then exchanged (err bounded)
                          else exchanged (ok (take received response))
                    ],
                    destination ∷ [],
                  )
                ]))
