-- ===== src/Net/Loopback.antt =====
-- crates/clave-net/src/loopback.rs: a tunnel that returns what it is given, under a mask of one byte.
pub mod Laws
use clave.Prelude.{
  ℕ, zero, suc, nat_eq, ◌==◌, ◌+◌, ◌*◌, ◌/◌, ◌%◌, Bool, Bytes, is_empty, map, if◌then◌else◌,
}
use clave.Net.Tunnel.{Tunnel, TunnelOut, send_to_gateway, Inbound, to_process, with_defaults}

-- The lowest bits of the exclusive or
unfoldable pub xor_bits : ℕ → ℕ → ℕ → ℕ
xor_bits zero a b = 0
xor_bits (suc w) a b = (if a % 2 == b % 2 then 0 else 1) + 2 * xor_bits w (a / 2) (b / 2)

-- `^` on `u8`
unfoldable pub xor : ℕ → ℕ → ℕ
unfolding xor_bits
xor a b = xor_bits 8 a b

pub record LoopbackTunnel : Type 0 where
  pub key : ℕ

-- `LoopbackTunnel::encapsulate`
unfoldable pub encapsulate : Bytes → LoopbackTunnel → LoopbackTunnel × TunnelOut
unfolding xor
encapsulate ip_packet t =
    if is_empty ip_packet
    then (t, TunnelOut.idle)
    else (t, send_to_gateway (map (λ b. xor b t.key) ip_packet))

-- `LoopbackTunnel::decapsulate`
unfoldable pub decapsulate : Bytes → LoopbackTunnel → LoopbackTunnel × Inbound
unfolding xor
decapsulate datagram t =
    if is_empty datagram
    then (t, Inbound.idle)
    else (t, to_process (map (λ b. xor b t.key) datagram))

abbrev pub loopback : Tunnel LoopbackTunnel
loopback = with_defaults encapsulate decapsulate
