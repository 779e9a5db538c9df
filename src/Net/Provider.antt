-- ===== src/Net/Provider.antt =====
-- crates/clave-net/src/provider.rs: the way out for a network provider. Whether the WireGuard backend
-- is built in, and what it makes of its keys, is a parameter.
use clave.Prelude.{ℕ, Option, none, some, Text, Result, ok, err}
use clave.Core.Net.{
  ForwardMode, wireguard, ipsec, explicit_proxy, dns, Forwarding, ProviderError, NetworkProvider,
  forwarding,
}

pub data EgressSeam (T : Type 0) : Type 0 where
  packet : T → EgressSeam T
  dns_only : EgressSeam T

pub data SeamError : Type 0 where
  invalid : ProviderError → SeamError
  unsupported : ForwardMode → SeamError
  missing_keys : SeamError
  backend : Text → SeamError

-- `WireguardTunnel::new` on a gateway's keys and an index, where it is built in
abbrev pub Backend : Type 0 → Type 0 → Type 0
Backend C T = Option (C → ℕ → Result Text T)

module _ {C T : Type 0} (wg_backend : Backend C T) where
  abbrev packet_of : Result Text T → Result SeamError (EgressSeam T)
  packet_of (err e) = err (backend e)
  packet_of (ok tun) = ok (packet tun)

  abbrev pub build_wireguard_by : Backend C T → Option C → ℕ → Result SeamError (EgressSeam T)
  build_wireguard_by none wg index = err (unsupported wireguard)
  build_wireguard_by (some new) none index = err missing_keys
  build_wireguard_by (some new) (some cfg) index = packet_of (new cfg index)

  unfoldable pub build_wireguard : Option C → ℕ → Result SeamError (EgressSeam T)
  build_wireguard wg index = build_wireguard_by wg_backend wg index

  abbrev seam_by : ForwardMode → Option C → ℕ → Result SeamError (EgressSeam T)
  unfolding build_wireguard
  seam_by wireguard wg index = build_wireguard wg index
  seam_by dns wg index = ok dns_only
  seam_by ipsec wg index = err (unsupported ipsec)
  seam_by explicit_proxy wg index = err (unsupported explicit_proxy)

  abbrev checked :
      ForwardMode → Option C → ℕ → Result ProviderError Forwarding → Result SeamError (EgressSeam T)
  unfolding seam_by
  checked mode wg index (err e) = err (invalid e)
  checked mode wg index (ok f) = seam_by mode wg index

  unfoldable pub build_egress : NetworkProvider → Option C → ℕ → Result SeamError (EgressSeam T)
  unfolding checked forwarding
  build_egress provider wg index = checked provider.mode wg index (forwarding provider)
