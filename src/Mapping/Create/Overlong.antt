-- ===== src/Mapping/Create/Overlong.antt =====
-- How a grant past the ceiling is reported (src/network_traversal/mapping.rs).
use liskov_runtime_cargo.Prelude.{◌≤◌, ◌<◌, ◌≡◌, true, false, Option, some, Bytes, arith}
use liskov_runtime_cargo.Gateway.Routes.{SelectedGateway}
use liskov_runtime_cargo.Gateway.Control.{Url}
use liskov_runtime_cargo.Traversal.Outcomes.{TraversalCleanup}
use liskov_runtime_cargo.Mapping.Packets.{Parsed}
use liskov_runtime_cargo.Mapping.Effects.{Turn}
use liskov_runtime_cargo.Mapping.Delete.{delete_packet}
use liskov_runtime_cargo.Mapping.Delete.Reported.{IsPlainSuccess, send_delete-IsPlainSuccess}
use liskov_runtime_cargo.Mapping.Create.{
  MapParts, correlated_handle, lacks_address, within, answered, adopt_or_refuse,
}

module _ (parse_url : Bytes → Option Url) (gateway : SelectedGateway) where
  -- A grant past the caller's ceiling, but of at most 120 seconds, is not reported as refused: once
  -- its deletion is confirmed, the creation is a success with no refusal.
  pub adopt_or_refuse-overlong :
      (parts : MapParts) (parsed : Parsed) (turn : Turn)
      → lacks_address parts.protocol parsed.assigned_ip ≡ false
      → parts.reservation_authorizes_delete ≡ true
      → parts.ceiling < parsed.lifetime
      → parsed.lifetime ≤ 120
      → (adopt_or_refuse parse_url (answered parts parsed) parts parsed gateway turn).0.cleanup
        ≡ TraversalCleanup.confirmed_deleted
      → IsPlainSuccess
          (adopt_or_refuse parse_url (answered parts parsed) parts parsed gateway turn).0
  unfolding adopt_or_refuse
  adopt_or_refuse-overlong parts parsed turn has authorized past most e =
      let h =
        correlated_handle parts parsed.assigned_port parsed.lifetime parsed.epoch
          parts.reservation_authorizes_delete in
      let overlong : within parts.ceiling parsed.lifetime ≡ false = ground arith in
      let (done, unrefused) =
        send_delete-IsPlainSuccess parse_url gateway h (delete_packet h) (some parsed.epoch) turn 1
          (ground arith) most (ground arith) in
      (ground arith, ground arith)
