-- ===== src/Daemon/Flows.antt =====
-- What `Daemon` passes on to the router beside the opening of flows (Daemon/Control.antt).
use clave.Prelude.{Bool, Option, Bytes}
use clave.Net.Router.{FlowId}
use clave.Net.Tunnel.{Inbound}
use clave.Daemon.State.{Parts, Daemon}

module _ {T K B : Type 0} (x : Parts T K B) where
  unfoldable pub flow_inbound : Bytes → Daemon T K B → Daemon T K B × Inbound
  unfolding clave.Net.Router.inbound
  flow_inbound datagram d =
      let (r, out) = clave.Net.Router.inbound x.tunnel datagram d.router in
      (record d { router = r }, out)

  unfoldable pub tunnel_poll_outgoing : Daemon T K B → Daemon T K B × Option Bytes
  unfolding clave.Net.Router.poll_outgoing
  tunnel_poll_outgoing d =
      let (r, out) = clave.Net.Router.poll_outgoing x.tunnel d.router in
      (record d { router = r }, out)

  unfoldable pub tunnel_tick : Daemon T K B → Daemon T K B × Option Bytes
  unfolding clave.Net.Router.tick
  tunnel_tick d =
      let (r, out) = clave.Net.Router.tick x.tunnel d.router in (record d { router = r }, out)

  unfoldable pub close_flow : FlowId → Daemon T K B → Daemon T K B
  unfolding clave.Net.Router.close_flow
  close_flow id d = record d { router = clave.Net.Router.close_flow id d.router }

  unfoldable pub network_link_is_up : Daemon T K B → Bool
  network_link_is_up d = clave.Net.Router.link_is_up x.tunnel d.router
