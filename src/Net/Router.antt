-- ===== src/Net/Router.antt =====
-- crates/clave-net/src/router.rs, with `route` and `route_dns` of lib.rs: where each open flow goes.
pub mod Laws
use clave.Prelude.{
  ℕ, nat_eq, Bool, not, Option, none, some, List, [], Text, Bytes, Map, lookup, insert, remove,
  length, if◌then◌else◌,
}
use clave.Platform.Types.{ProcId, Route}
use clave.Core.Zone.{ZoneRegistry}
use clave.Core.Net.{DnsSteering, classify_flow, classify_dns_flow}
use clave.Net.Tunnel.{Tunnel, TunnelOut, send_to_gateway, Inbound}

abbrev pub FlowId : Type 0
FlowId = ℕ

pub data FlowDisposition : Type 0 where
  tunnel direct block held_offline : FlowDisposition

-- `From<Route>`
abbrev pub of_route : Route → FlowDisposition
of_route Route.tunnel = tunnel
of_route Route.direct = direct
of_route Route.block = block

pub data Outbound : Type 0 where
  to_gateway : Bytes → Outbound
  pass_through idle dropped : Outbound

pub record SplitRouter (T : Type 0) : Type 0 where
  pub tunnel : T
  pub flows : Map FlowId FlowDisposition

abbrev pub new : {T : Type 0} → T → SplitRouter T
new t = record { tunnel = t; flows = [] }

-- `SplitRouter::resolve`, with whether the tunnel is established
abbrev pub resolve : Bool → Route → FlowDisposition
resolve up Route.tunnel = if not up then held_offline else FlowDisposition.tunnel
resolve up other = of_route other

module _ {T : Type 0} where
  -- `insert`, and the disposition that is returned
  abbrev pub opened : FlowId → FlowDisposition → SplitRouter T → SplitRouter T × FlowDisposition
  opened id d r = (record r { flows = insert id d r.flows }, d)

  abbrev pub disposition : FlowId → SplitRouter T → Option FlowDisposition
  disposition id r = lookup id r.flows

  abbrev pub open_flow_count : SplitRouter T → ℕ
  open_flow_count r = length r.flows

  unfoldable pub close_flow : FlowId → SplitRouter T → SplitRouter T
  close_flow id r = record r { flows = remove id r.flows }

module _ {T : Type 0} (calls : Tunnel T) where
  abbrev pub link_is_up : SplitRouter T → Bool
  link_is_up r = calls.is_established r.tunnel

  unfoldable pub open_flow :
      FlowId → ProcId → ZoneRegistry → Bool → SplitRouter T → SplitRouter T × FlowDisposition
  unfolding classify_flow
  open_flow id proc zones dst_blocked r =
      opened id (resolve (link_is_up r) (classify_flow proc zones dst_blocked)) r

  unfoldable pub open_dns_flow :
      FlowId
      → ProcId
      → ZoneRegistry
      → Text
      → Option DnsSteering
      → SplitRouter T
      → SplitRouter T × FlowDisposition
  unfolding classify_dns_flow
  open_dns_flow id proc zones qname steering r =
      opened id (resolve (link_is_up r) (classify_dns_flow proc zones qname steering)) r

  abbrev sent : TunnelOut → Outbound
  sent (send_to_gateway datagram) = to_gateway datagram
  sent TunnelOut.idle = idle

  abbrev encapsulated : SplitRouter T → T × TunnelOut → SplitRouter T × Outbound
  encapsulated r (t, out) = (record r { tunnel = t }, sent out)

  abbrev pub outbound_by : Option FlowDisposition → Bytes → SplitRouter T → SplitRouter T × Outbound
  outbound_by (some FlowDisposition.tunnel) ip_packet r =
      encapsulated r (calls.encapsulate ip_packet r.tunnel)
  outbound_by (some held_offline) ip_packet r =
      encapsulated r (calls.encapsulate ip_packet r.tunnel)
  outbound_by (some direct) ip_packet r = (r, pass_through)
  outbound_by (some block) ip_packet r = (r, dropped)
  outbound_by none ip_packet r = (r, dropped)

  unfoldable pub outbound : FlowId → Bytes → SplitRouter T → SplitRouter T × Outbound
  outbound id ip_packet r = outbound_by (lookup id r.flows) ip_packet r

  unfoldable pub inbound : Bytes → SplitRouter T → SplitRouter T × Inbound
  inbound datagram r =
      let (t, out) = calls.decapsulate datagram r.tunnel in (record r { tunnel = t }, out)

  unfoldable pub poll_outgoing : SplitRouter T → SplitRouter T × Option Bytes
  poll_outgoing r = let (t, out) = calls.poll_outgoing r.tunnel in (record r { tunnel = t }, out)

  unfoldable pub tick : SplitRouter T → SplitRouter T × Option Bytes
  tick r = let (t, out) = calls.update_timers r.tunnel in (record r { tunnel = t }, out)
