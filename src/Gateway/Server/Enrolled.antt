-- ===== src/Gateway/Server/Enrolled.antt =====
-- What the gateway does for a device that it enrols.
use clave.Prelude.{
  ◌≡◌, refl, sym, ap, ◌∙◌, arith, Option, none, some, Bytes, Text, Result, ok, err, lookup, ◌⊎◌,
  inl, inr, Result-cases, lookup-insert, nat_eq, list_eq, pair_eq, nat_beq_iff,
}
use mathlib.Core.Path.{subst, subst₂}
use clave.Core.Policy.{UnixTime}
use clave.Identity.Email.{WorkspaceId, UserId, EmailAddr}
use clave.Identity.Model.{Role, Workspace}
use clave.Identity.Authz.{EnrollmentDecision, authorize_enrollment}
use clave.Identity.Authz.Laws.{IsActive, authorize_enrollment_iff}
use clave.Proto.External.{Ed25519, Postcard}
use clave.Proto.Command.{Envelope}
use clave.Proto.Audit.{genesis}
use clave.Volume.Types.{Ciphers}
use clave.Gateway.Action.{GatewayError, no_such_workspace, lift, require_some, ◌>>=◌}
use clave.Gateway.Store.{DeviceId, Inner, upsert_user, membership, user_or_new}
use clave.Gateway.Store.Devices.{record_device, known_or_new, set_device_fingerprint}
use clave.Proto.Enroll.{TlsCredentials}
use clave.Gateway.Provider.{VerifiedUser, IdentityProvider}
use clave.Gateway.Ledger.{register_device}
use clave.Gateway.Server.Handed.{
  IsRecorded, known_or_new-IsRecorded, IsSigned, sign_with-IsSigned, IsHanded, key_for-IsHanded,
}
use clave.Gateway.Server.{
  Gateway, Approval, EnrollmentCompletion, IssuedTls, DeviceCertIssuer, enter_device, sign_with,
  key_for, tls_for, with_certificate, initial_policy, enroll_approved, authorize_enrollment_poll,
  authorize_user, decide_enrollment, complete_enrollment, complete_by,
}

-- What an approval says and what it leaves behind.
pub record Enrolled (ed : Ed25519) (codec : Postcard Envelope) (c : Ciphers) (ws : WorkspaceId)
    (pubkey : Bytes) (wrapping_key : Option Bytes) (now : UnixTime) (user : UserId) (role : Role)
    (g h : Gateway) (a : Approval) : Type 0 where
  pub who : (a.user ≡ user) × (a.role ≡ role)
  pub recorded : IsRecorded ws user pubkey g.store h.store.devices_by_key h.store.devices a.device
  pub chain :
      lookup a.device h.audit.chains
      ≡ some (record { public_key = pubkey; next_seq = 1; head = genesis })
  pub policy : a.policy ≡ (sign_with ed codec ws now g.policy_issuer).0
  pub signed : IsSigned ed codec ws now g.policy_issuer a.policy h.policy_issuer
  pub volume_key : key_for c ws g.volume_keys wrapping_key ≡ ok a.volume_key
  pub handed : IsHanded c ws g.volume_keys wrapping_key a.volume_key

-- Certificates are issued, or not, without a failure, and change no more than the fingerprints.
tls_for-ok :
    (device : DeviceId) (o : Option DeviceCertIssuer) (g : Gateway)
    → (t : Option TlsCredentials) × (h : Gateway) × (tls_for device o g ≡ (ok t, h))
      × (h.audit ≡ g.audit)
      × (h.policy_issuer ≡ g.policy_issuer)
      × (h.store.devices ≡ g.store.devices)
      × (h.store.devices_by_key ≡ g.store.devices_by_key)
unfolding tls_for with_certificate set_device_fingerprint
tls_for-ok device none g = (none, g, refl, refl, refl, refl, refl)
tls_for-ok device (some issuer) g = by_issue (issuer.issue device)
  where
    by_issue :
        (r : Result GatewayError IssuedTls)
        → (t : Option TlsCredentials) × (h : Gateway) × (with_certificate device issuer r g
            ≡ (ok t, h))
          × (h.audit ≡ g.audit)
          × (h.policy_issuer ≡ g.policy_issuer)
          × (h.store.devices ≡ g.store.devices)
          × (h.store.devices_by_key ≡ g.store.devices_by_key)
    by_issue (err e) = (none, g, refl, refl, refl, refl, refl)
    by_issue (ok issued) = (_, _, refl, refl, refl, refl, refl)

module _ (ed : Ed25519) (codec : Postcard Envelope) (c : Ciphers) where
  -- For a user who may enrol a device, the gateway approves it, or the key service fails.
  enroll_approved-Enrolled :
      (ws : WorkspaceId) (pubkey : Bytes) (wrapping_key : Option Bytes) (now : UnixTime)
      (user : UserId) (role : Role) (g : Gateway)
      → let (r, h) = enroll_approved ed codec c ws pubkey wrapping_key now (user, role) g in
        ((x : GatewayError) × (r ≡ err x))
        ⊎ ((a : Approval) × (r ≡ ok (EnrollmentCompletion.approved a))
            × Enrolled ed codec c ws pubkey wrapping_key now user role g h a)
  unfolding enroll_approved record_device enter_device initial_policy register_device
  enroll_approved-Enrolled ws pubkey wrapping_key now user role g =
      let (id, s) =
        known_or_new ws user pubkey g.store (lookup (ws, pubkey) g.store.devices_by_key) in
      let (policy, issuer) = sign_with ed codec ws now g.policy_issuer in
      let g' = record (enter_device id pubkey (record g { store = s })) {
        policy_issuer = issuer;
      } in
      let (tls, h, e, same_audit, same_issuer, same_devices, same_keys) =
        tls_for-ok id g.device_ca g' in
      elim (Result-cases (key_for c ws g.volume_keys wrapping_key)) [
        | inl (x, failed) ↦ rw failed (inl (x, refl))
        | inr (volume_key, issued) ↦
            rw (issued, e)
              (inr (
                record {
                  device = id;
                  user = user;
                  role = role;
                  policy = policy;
                  volume_key = volume_key;
                  tls = tls;
                },
                refl,
                record {
                  who = (refl, refl);
                  recorded =
                      subst₂ (λ keys devices. IsRecorded ws user pubkey g.store keys devices id)
                        (sym same_keys) (sym same_devices)
                        (known_or_new-IsRecorded ws user pubkey g.store
                          (lookup (ws, pubkey) g.store.devices_by_key) refl);
                  chain = ground (
                    arith,
                    same_audit,
                    nat_beq_iff id id,
                    lookup-insert id id
                        (record { public_key = pubkey; next_seq = 1; head = genesis })
                        g.audit.chains,
                  );
                  policy = refl;
                  signed =
                      subst (IsSigned ed codec ws now g.policy_issuer policy) (sym same_issuer)
                        (sign_with-IsSigned ed codec ws now g.policy_issuer);
                  volume_key = issued;
                  handed = key_for-IsHanded c ws g.volume_keys wrapping_key volume_key issued;
                },
              ))
      ]

-- Taking in a user leaves the devices as they are.
user_or_new-devices :
    (email : EmailAddr) (s : Inner) (o : Option UserId)
    → ((user_or_new email s o).1.devices ≡ s.devices)
      × ((user_or_new email s o).1.devices_by_key ≡ s.devices_by_key)
user_or_new-devices email s none = (refl, refl)
user_or_new-devices email s (some user) = (refl, refl)

-- An enrolment that the gateway completed: the identity provider has approved the device code for a
-- user with an active membership of the workspace, and the device has been enrolled for this user.
pub record Completed (idp : IdentityProvider) (ed : Ed25519) (codec : Postcard Envelope)
    (c : Ciphers) (ws : WorkspaceId) (device_code : Text) (pubkey : Bytes)
    (wrapping_key : Option Bytes) (now : UnixTime) (g h : Gateway) (a : Approval) : Type 0 where
  pub vu : VerifiedUser
  pub code_approved : idp.poll_device_auth device_code ≡ ok (some vu)
  pub w : Workspace
  pub known : lookup ws g.store.workspaces ≡ some w
  pub taken_in : Inner
  pub upserted : upsert_user vu.email vu.idp_user_id g.store ≡ (ok a.user, taken_in)
  pub devices_kept :
      (taken_in.devices ≡ g.store.devices) × (taken_in.devices_by_key ≡ g.store.devices_by_key)
  pub member : IsActive w (lookup (ws, a.user) taken_in.memberships) a.role
  pub enrolled :
      Enrolled ed codec c ws pubkey wrapping_key now a.user a.role
        (record g { store = taken_in })
        h
        a

module _ (idp : IdentityProvider) (ed : Ed25519) (codec : Postcard Envelope) (c : Ciphers)
    (ws : WorkspaceId) (device_code : Text) (pubkey : Bytes) (wrapping_key : Option Bytes)
    (now : UnixTime) (g h : Gateway) (a : Approval) where
  abbrev IsThis : Result GatewayError (Option (UserId × Role)) × Inner → Type 0
  IsThis (r, s) =
      (do found ← lift r; complete_by ed codec c ws pubkey wrapping_key now found)
        (record g { store = s })
      ≡ (ok (EnrollmentCompletion.approved a), h)

  injected :
      (b : Approval)
      → Path
          (Result GatewayError EnrollmentCompletion)
          (ok (EnrollmentCompletion.approved b))
          (ok (EnrollmentCompletion.approved a))
      → b ≡ a
  injected b e = cc

  of_outcome :
      (user : UserId) (role : Role) (g' : Gateway)
      (out : Result GatewayError EnrollmentCompletion × Gateway)
      → out ≡ (ok (EnrollmentCompletion.approved a), h)
      → ((x : GatewayError) × (out.0 ≡ err x))
        ⊎ ((b : Approval) × (out.0 ≡ ok (EnrollmentCompletion.approved b))
            × Enrolled ed codec c ws pubkey wrapping_key now user role g' out.1 b)
      → Enrolled ed codec c ws pubkey wrapping_key now user role g' h a
  of_outcome user role g' out e (inl (x, failed)) = cc
  of_outcome user role g' out e (inr (b, said, enrolled)) =
      subst₂ (λ h a. Enrolled ed codec c ws pubkey wrapping_key now user role g' h a)
        (ap (λ (o : Result GatewayError EnrollmentCompletion × Gateway). o.1) e)
        (injected b
          (sym said ∙ ap (λ (o : Result GatewayError EnrollmentCompletion × Gateway). o.0) e))
        enrolled

  by_decision :
      (vu : VerifiedUser) (w : Workspace) (user : UserId) (s : Inner) (d : EnrollmentDecision)
      → idp.poll_device_auth device_code ≡ ok (some vu)
      → lookup ws g.store.workspaces ≡ some w
      → upsert_user vu.email vu.idp_user_id g.store ≡ (ok user, s)
      → (s.devices ≡ g.store.devices) × (s.devices_by_key ≡ g.store.devices_by_key)
      → authorize_enrollment w (lookup (ws, user) s.memberships) ≡ d
      → IsThis (decide_enrollment user d s)
      → Completed idp ed codec c ws device_code pubkey wrapping_key now g h a
  unfolding complete_by
  by_decision vu w user s (EnrollmentDecision.deny reason) said known upserted devices_kept judged
        e =
      ground arith
  by_decision vu w user s (EnrollmentDecision.allow id role) said known upserted devices_kept judged
        e =
      let here = (authorize_enrollment_iff w (lookup (ws, user) s.memberships) id role).0 judged in
      let enrolled =
        of_outcome user role (record g { store = s }) _ e
          (enroll_approved-Enrolled ed codec c ws pubkey wrapping_key now user role
            (record g { store = s })) in
      record {
        vu = vu;
        code_approved = said;
        w = w;
        known = known;
        taken_in = s;
        upserted = rw (enrolled.who.0) upserted;
        devices_kept = devices_kept;
        member = rw (enrolled.who.0, enrolled.who.1) here.1;
        enrolled =
            subst₂
              (λ u r.
                Enrolled ed codec c ws pubkey wrapping_key now u r (record g { store = s }) h a)
              (sym enrolled.who.0) (sym enrolled.who.1) enrolled;
      }

  by_workspace :
      (vu : VerifiedUser) (found : Option Workspace)
      → idp.poll_device_auth device_code ≡ ok (some vu)
      → lookup ws g.store.workspaces ≡ found
      → IsThis (
          (do
            w ← require_some no_such_workspace found
            user ← upsert_user vu.email vu.idp_user_id
            m ← membership ws user
            decide_enrollment user (authorize_enrollment w m))
            g.store)
      → Completed idp ed codec c ws device_code pubkey wrapping_key now g h a
  unfolding upsert_user complete_by
  by_workspace vu none said known e = ground arith
  by_workspace vu (some w) said known e =
      let (user, s) = user_or_new vu.email g.store (lookup vu.email g.store.users) in
      by_decision vu w user s (authorize_enrollment w (lookup (ws, user) s.memberships)) said known
        refl (user_or_new-devices vu.email g.store (lookup vu.email g.store.users)) refl e

  by_poll :
      (r : Result GatewayError (Option VerifiedUser))
      → idp.poll_device_auth device_code ≡ r
      → IsThis ((do vu ← lift r; authorize_user ws vu) g.store)
      → Completed idp ed codec c ws device_code pubkey wrapping_key now g h a
  unfolding authorize_user complete_by
  by_poll (err x) said e = ground arith
  by_poll (ok none) said e = ground arith
  by_poll (ok (some vu)) said e = by_workspace vu (lookup ws g.store.workspaces) said refl e

  -- The gateway approves an enrolment only if the identity provider has approved the device code for a
  -- user with an active membership of the workspace, and then the approval has the user and the role
  -- of this membership. A key that the workspace knows keeps its device, which becomes active again, and
  -- a new key gets a device of this user. The device's audit chain starts anew under its key. It gets
  -- the workspace's current policy, signed under the issuer's next count, if there is an issuer with a
  -- policy, and the workspace's data key, wrapped under the key it sent or under one exchanged with
  -- that, if there is a key service with a container and it has sent a key.
  pub complete_enrollment-Completed :
      complete_enrollment ed codec c idp ws device_code pubkey wrapping_key now g
        ≡ (ok (EnrollmentCompletion.approved a), h)
      → Completed idp ed codec c ws device_code pubkey wrapping_key now g h a
  unfolding complete_enrollment authorize_enrollment_poll
  complete_enrollment-Completed e = by_poll (idp.poll_device_auth device_code) refl e
