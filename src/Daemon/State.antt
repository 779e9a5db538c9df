-- ===== src/Daemon/State.antt =====
-- The state of `Daemon`, and what it calls. The volume's gate is the daemon's registry: the programs
-- that start a daemon give both the same one.
use clave.Prelude.{ℕ, Option, List, [], ◌∷◌, ◌++◌, Bytes}
use clave.Platform.Types.{WindowId, Rgba}
use clave.Core.Zone.{ZoneRegistry}
use clave.Core.Policy.{UnixTime, PolicyBundle}
use clave.Core.Audit.{AuditAction, AuditEvent, new_event}
use clave.Core.Decide.{Verdict}
use clave.Proto.External.{Ed25519, Postcard}
use clave.Proto.Command.{Envelope, ProtoError}
use clave.Proto.Verify.{GatewayVerifier}
use clave.Proto.Audit.{AuditSpool, emit}
use clave.Volume.Types.{Fault, Ciphers, KeyStore, BackingStore}
use clave.Volume.Disk.{ClaveVolume}
use clave.Net.Tunnel.{Tunnel}
use clave.Net.Router.{SplitRouter}

-- The calls of the key store, the backing store and the tunnel, and of the other crates.
pub record Parts (T K B : Type 0) : Type 0 where
  pub keys : KeyStore K
  pub sectors : BackingStore B
  pub ciphers : Ciphers
  pub tunnel : Tunnel T
  pub sha256 : Bytes → Bytes
  pub events : Postcard AuditEvent
  pub ed25519 : Ed25519
  pub envelopes : Postcard Envelope

-- What the daemon asks of the platform: nothing comes back that it uses.
pub data PlatformCall : Type 0 where
  track : (w : WindowId) (color : Rgba) → PlatformCall
  untrack protect_window : (w : WindowId) → PlatformCall
  request_wipe : PlatformCall
  contain : (pid : ℕ) → PlatformCall

pub data PolicyError : Type 0 where
  rollback : (current offered : ℕ) → PolicyError

pub data GatewayError : Type 0 where
  rejected : ProtoError → GatewayError
  wrong_container : GatewayError
  bad_policy : PolicyError → GatewayError
  bad_volume : Fault → GatewayError

pub record Daemon (T K B : Type 0) : Type 0 where
  pub zones : ZoneRegistry
  pub policy : PolicyBundle
  pub audit : AuditSpool
  pub router : SplitRouter T
  pub volume : ClaveVolume K B
  pub gateway : GatewayVerifier
  pub last_audit : Option (AuditAction × UnixTime)
  -- The bundles that the policy observer has been given, if there is one.
  pub observed : Option (List PolicyBundle)
  -- The calls of the platform so far
  pub calls : List PlatformCall

module _ {T K B : Type 0} where
  -- The volume, with the registry as it is
  abbrev pub gated : Daemon T K B → ClaveVolume K B
  gated d = record d.volume { gate = d.zones }

  abbrev pub call : PlatformCall → Daemon T K B → Daemon T K B
  call p d = record d { calls = d.calls ++ (p ∷ []) }

module _ {T K B : Type 0} (x : Parts T K B) where
  -- `audit.emit(AuditEvent::new(..))`
  unfoldable pub report : UnixTime → AuditAction → Verdict → Daemon T K B → Daemon T K B
  unfolding emit
  report now action verdict d = record d {
    audit = emit x.sha256 x.events (new_event now action verdict) d.audit;
  }
