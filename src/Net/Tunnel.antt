-- ===== src/Net/Tunnel.antt =====
-- crates/clave-net/src/lib.rs: the interface of a tunnel. The packets and the datagrams are bytes.
use clave.Prelude.{Bool, true, Option, none, Bytes}

pub data TunnelOut : Type 0 where
  send_to_gateway : Bytes → TunnelOut
  idle : TunnelOut

pub data Inbound : Type 0 where
  to_process to_gateway : Bytes → Inbound
  idle : Inbound

-- `Tunnel`: its calls, on a state `T` that they change
pub record Tunnel (T : Type 0) : Type 0 where
  pub encapsulate : Bytes → T → T × TunnelOut
  pub decapsulate : Bytes → T → T × Inbound
  pub poll_outgoing : T → T × Option Bytes
  pub update_timers : T → T × Option Bytes
  pub is_established : T → Bool

-- The calls that a tunnel need not write
abbrev pub with_defaults :
    {T : Type 0} → (Bytes → T → T × TunnelOut) → (Bytes → T → T × Inbound) → Tunnel T
with_defaults enc dec = record {
  encapsulate = enc;
  decapsulate = dec;
  poll_outgoing = λ t. (t, none);
  update_timers = λ t. (t, none);
  is_established = λ t. true;
}
