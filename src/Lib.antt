-- ===== src/Lib.antt =====
-- A model of Clave, a local secure enclave for work applications on an unmanaged computer.
--
-- The parts. `Platform` models crates/clave-platform/src: the value types of the platform seam
-- (types.rs) and the report of what a platform enforces (enforcement.rs). `Core` models
-- crates/clave-core/src, the policy brain: the zone registry (zone.rs: Core/Zone.antt), apps and launch
-- profiles (app.rs: Core/App.antt), web apps (web.rs), flow and DNS classification (net.rs), the policy
-- bundle and its validation (policy.rs: Core/Policy.antt, Core/Host.antt), path classification
-- (path.rs), the decision engine (decide.rs), audit events (audit.rs), the learn mode (learn.rs) and
-- the frames round the windows of work (overlay.rs: Core/Overlay.antt). `Proto` models
-- crates/clave-proto/src: signed commands and the device's verifier (command.rs, sign.rs, verify.rs:
-- Proto/Command.antt, Proto/Verify.antt) and the hash-chained audit spool (audit.rs: Proto/Audit.antt).
--
-- `Identity` models crates/clave-identity/src: addresses (lib.rs: Identity/Email.antt), workspaces
-- (model.rs) and who is let in (authz.rs). `Volume` models crates/clave-volume/src: the keys, their
-- store and sealing (keys.rs, store.rs, seal.rs: Volume/Keys.antt), the sectors in memory
-- (container.rs) and the volume that joins them under the gate of the registry (volume.rs, xts.rs:
-- Volume/Disk.antt). `Net` models crates/clave-net/src: the interface of a tunnel (lib.rs), the
-- loopback (loopback.rs), the choice of a provider (provider.rs) and the flow table (router.rs), which
-- asks Core/Net.antt for its routes. `Ipc` models crates/clave-ipc/src: frames (lib.rs), connections
-- over a stream that is given as its chunks (transport.rs: Ipc/Connection.antt), and the launcher's
-- messages and client (Ipc/Launcher.antt, Ipc/LauncherClient.antt) and the servers (Ipc/Serve.antt).
-- `Daemon` models crates/clave-daemon/src/lib.rs, which joins them: its state is Daemon/State.antt, its
-- operations are Daemon/Control.antt and Daemon/Flows.antt, what it does for shims and launchers is
-- Daemon/Launch.antt, which asks a record for the mount, the user and the spawning of a process, and
-- Daemon/Loop.antt has the event loop and the sync with the gateway over the loopback link
-- (crates/clave-proto/src/link.rs). The daemon's registry is the gate of its volume, as where the
-- programs start it, so every call of the volume is given the registry.
--
-- `Gateway` models crates/clave-gateway/src: the store in memory (store.rs: Gateway/Store.antt), the
-- identity provider, sessions and directory events (idp.rs, session.rs, scim.rs:
-- Gateway/Provider.antt), the audit ledger and the store of its chains (audit_ingest.rs:
-- Gateway/Ledger.antt), the policy issuer and its counters (policy.rs: Gateway/Policies.antt,
-- Gateway/Counter.antt), the key services (volume.rs), and gateway.rs, which joins them: logins and
-- requests are Gateway/Login.antt, the administration is Gateway/Admin.antt, and enrolment, audit and
-- policies are Gateway/Server.antt and its children. Gateway/Http.antt and its children are the
-- handlers of http.rs on requests that are decoded and whose session cookie is read. A handler of the
-- gateway is an action (Gateway/Action.antt): it reads and changes a state, and returns a value or an
-- error. `Enroll` models how a device enrols with it (crates/clave-daemon/src/enroll.rs,
-- enroll_client.rs and enrollment_store.rs): Enroll/Accept.antt checks what the gateway grants,
-- Enroll/Client.antt waits for the approval, and Enroll/Boot.antt keeps the record and boots from it.
--
-- How code and model correspond. A method that takes `&mut self`, or a lock, is a function from the
-- state to the state and its result. A `HashMap` is an association list with one entry for a key; a
-- string is the list of its code points, bytes are a list of numbers. `Result` is Prelude/Results.antt.
-- A definition has its function's name, with the type's name in it where two would clash
-- (`AppPolicy::rule` is `app_rule`). Signatures, hashes and encodings come from other crates: they are
-- the records and functions of Proto/External.antt and Volume/Types.antt, which the definitions take as
-- arguments, and what a theorem needs of them is one of its hypotheses.
--
-- Every loop is a recursion on the list that it walks or on the count of its rounds, but for the wait
-- for an approval (Enroll/Client.antt), which has fuel for `max_polls` + 1 polls: it makes at most
-- `max_polls`, or one; and the loops of the servers (Ipc/Serve.antt), which have fuel for each byte to
-- come. Sequence numbers of the audit spool and offsets of the volume wrap at 2 ^ 64, those of
-- rectangles at 2 ^ 32 as in a release build, and the theorems on them say how far they hold.
--
-- Not modelled: serialisation with serde, texts of `Display`, sockets, TLS, HTTP, SQL, the calls of the
-- operating systems, the spawning of processes, and the stores of the gateway that are in a database.
-- The interfaces between parts are records of calls on a state: KeyStore and BackingStore of
-- Volume/Types.antt, Tunnel of Net/Tunnel.antt.
mod Prelude
pub mod Platform
pub mod Core
pub mod Proto
pub mod Identity
pub mod Volume
pub mod Net
pub mod Ipc
pub mod Daemon
pub mod Gateway
pub mod Enroll
