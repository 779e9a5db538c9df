-- ===== src/Gateway/Store/Enrolments.antt =====
-- Each enrolled key has its own device, for as long as the store lives.
use clave.Prelude.{
  ◌+◌, ◌%◌, ◌^◌, ◌<◌, ◌≤◌, ◌≡◌, refl, ◌∙◌, inl, inr, arith, Option, none, some, Bool-cases, List,
  [], ◌∷◌, length, Bytes, insert, lookup, lookup-insert, nat_eq, nat_beq_iff, list_eq, pair_eq,
  pair_beq, pair_beq_iff, ◌==◌,
}
use clave.Identity.Email.{WorkspaceId, UserId}
use clave.Gateway.Store.{DeviceId, DeviceStatus, active, StoredDevice, Inner, new_store}
use clave.Gateway.Store.Devices.{record_device, known_or_new, set_device_status, set_status}

-- The device of an enrolled key, and that it is stored with this key and workspace.
pub record IsOf (s : Inner) (w : WorkspaceId) (pubkey : Bytes) (id : DeviceId) : Type 0 where
  pub d : StoredDevice
  pub stored : lookup id s.devices ≡ some d
  pub place : d.workspace ≡ w
  pub key : d.pubkey ≡ pubkey
  pub old : id ≤ s.next_device

pub IsConsistent : Inner → Type 0
IsConsistent s =
    (w : WorkspaceId) (pubkey : Bytes) (id : DeviceId)
    → lookup (w, pubkey) s.devices_by_key ≡ some id
    → IsOf s w pubkey id

known_IsOf :
    (s : Inner) (w : WorkspaceId) (pubkey : Bytes) (id : DeviceId)
    → IsConsistent s
    → lookup (w, pubkey) s.devices_by_key ≡ some id
    → IsOf s w pubkey id
unfolding IsConsistent
known_IsOf s w pubkey id h known = h w pubkey id known

new_store-IsConsistent : IsConsistent new_store
unfolding IsConsistent lookup
new_store-IsConsistent w pubkey id known = ground arith

-- A change of a stored device that keeps its workspace and key.
keep-IsConsistent :
    (s : Inner) (id : DeviceId) (d e : StoredDevice)
    → lookup id s.devices ≡ some d
    → e.workspace ≡ d.workspace
    → e.pubkey ≡ d.pubkey
    → IsConsistent s
    → IsConsistent (record s { devices = insert id e s.devices })
unfolding IsConsistent
keep-IsConsistent s id d e found place key h w pubkey id' known =
    let was = h w pubkey id' known in
    elim (Bool-cases (id == id')) [
      | inl same ↦ record {
        d = e;
        stored = lookup-insert id id' e s.devices ∙ rw same refl;
        place = ground (arith, was.stored, was.place, nat_beq_iff id id');
        key = ground (arith, was.stored, was.key, nat_beq_iff id id');
        old = was.old;
      }
      | inr other ↦ record {
        d = was.d;
        stored = lookup-insert id id' e s.devices ∙ rw other was.stored;
        place = was.place;
        key = was.key;
        old = was.old;
      }
    ]

-- A new device, under an id that no device has.
add-IsConsistent :
    (s : Inner) (w : WorkspaceId) (pubkey : Bytes) (n : DeviceId) (d : StoredDevice)
    → s.next_device < n
    → d.workspace ≡ w
    → d.pubkey ≡ pubkey
    → IsConsistent s
    → IsConsistent (record s {
      next_device = n;
      devices_by_key = insert (w, pubkey) n s.devices_by_key;
      devices = insert n d s.devices;
    })
unfolding IsConsistent
add-IsConsistent s w pubkey n d fresh place key h w' pubkey' id known =
    let after = lookup-insert (w, pubkey) (w', pubkey') n s.devices_by_key in
    let there = lookup-insert n id d s.devices in
    elim (Bool-cases (pair_beq {A = WorkspaceId} {B = Bytes} (w, pubkey) (w', pubkey'))) [
      | inl same ↦
          let own : id ≡ n = ground arith in
          record {
            d = d;
            stored = ground (arith, nat_beq_iff n id);
            place = ground (arith, pair_beq_iff (w, pubkey) (w', pubkey'));
            key = ground (arith, pair_beq_iff (w, pubkey) (w', pubkey'));
            old = omega arith;
          }
      | inr other ↦
          let was = h w' pubkey' id (ground arith) in
          record {
            d = was.d;
            stored = ground (arith, was.stored, was.old, nat_beq_iff n id);
            place = was.place;
            key = was.key;
            old = omega (arith, was.old);
          }
    ]

record_device-IsConsistent :
    (w : WorkspaceId) (user : UserId) (pubkey : Bytes) (s : Inner)
    → s.next_device + 1 < 2 ^ 128
    → IsConsistent s
    → IsConsistent (record_device w user pubkey s).1
unfolding record_device
record_device-IsConsistent w user pubkey s room h =
    by_key (lookup (w, pubkey) s.devices_by_key) refl
  where
    by_key :
        (o : Option DeviceId)
        → lookup (w, pubkey) s.devices_by_key ≡ o
        → IsConsistent (known_or_new w user pubkey s o).1
    by_key (some id) known =
        let was = known_IsOf s w pubkey id h known in
        rw was.stored
          (keep-IsConsistent s id was.d (record was.d { status = active }) was.stored refl refl h)
    by_key none unknown =
        let n : (s.next_device + 1) % 2 ^ 128 ≡ s.next_device + 1 = omega arith in
        rw n (add-IsConsistent s w pubkey (s.next_device + 1) _ (omega arith) refl refl h)

set_device_status-IsConsistent :
    (w : WorkspaceId) (id : DeviceId) (status : DeviceStatus) (s : Inner)
    → IsConsistent s
    → IsConsistent (set_device_status w id status s).1
unfolding set_device_status set_status
set_device_status-IsConsistent w id status s h = by_id (lookup id s.devices) refl
  where
    by_id :
        (o : Option StoredDevice)
        → lookup id s.devices ≡ o
        → IsConsistent (set_status w id status o s).1
    by_id none found = h
    by_id (some d) found = elim (Bool-cases (d.workspace == w)) [
      | inl ours ↦
          rw ours (keep-IsConsistent s id d (record d { status = status }) found refl refl h)
      | inr theirs ↦ rw theirs h
    ]

-- What changes the devices of a store.
pub data Op : Type 0 where
  enrols : (w : WorkspaceId) (user : UserId) (pubkey : Bytes) → Op
  sets : (w : WorkspaceId) (id : DeviceId) (status : DeviceStatus) → Op

unfoldable pub run : List Op → Inner → Inner
unfolding record_device set_device_status
run [] s = s
run (enrols w user pubkey ∷ ops) s = run ops (record_device w user pubkey s).1
run (sets w id status ∷ ops) s = run ops (set_device_status w id status s).1

next-le :
    (w : WorkspaceId) (user : UserId) (pubkey : Bytes) (s : Inner)
    → (record_device w user pubkey s).1.next_device ≤ s.next_device + 1
unfolding record_device
next-le w user pubkey s = by_key (lookup (w, pubkey) s.devices_by_key)
  where
    by_key :
        (o : Option DeviceId) → (known_or_new w user pubkey s o).1.next_device ≤ s.next_device + 1
    by_key (some id) = omega arith
    by_key none = omega arith

next-set :
    (w : WorkspaceId) (id : DeviceId) (status : DeviceStatus) (s : Inner)
    → (set_device_status w id status s).1.next_device ≡ s.next_device
unfolding set_device_status set_status
next-set w id status s = by_id (lookup id s.devices)
  where
    by_id : (o : Option StoredDevice) → (set_status w id status o s).1.next_device ≡ s.next_device
    by_id none = refl
    by_id (some d) = elim (Bool-cases (d.workspace == w)) [
      | inl ours ↦ rw ours refl
      | inr theirs ↦ rw theirs refl
    ]

run-IsConsistent :
    (ops : List Op) (s : Inner)
    → s.next_device + length ops < 2 ^ 128
    → IsConsistent s
    → IsConsistent (run ops s)
unfolding run
run-IsConsistent [] s room h = h
run-IsConsistent (enrols w user pubkey ∷ ops) s room h =
    run-IsConsistent ops (record_device w user pubkey s).1 (omega (arith, next-le w user pubkey s))
      (record_device-IsConsistent w user pubkey s (omega arith) h)
run-IsConsistent (sets w id status ∷ ops) s room h =
    run-IsConsistent ops (set_device_status w id status s).1 (omega (arith, next-set w id status s))
      (set_device_status-IsConsistent w id status s h)

-- In a new store, after any enrolments and changes of a status (fewer than 2 ^ 128): the device of an
-- enrolled key is stored with this key and the workspace it was enrolled for, and no two keys, or
-- workspaces, have the same device.
pub run-IsOf :
    (ops : List Op) (w w' : WorkspaceId) (pubkey pubkey' : Bytes) (id : DeviceId)
    → length ops < 2 ^ 128
    → lookup (w, pubkey) (run ops new_store).devices_by_key ≡ some id
    → lookup (w', pubkey') (run ops new_store).devices_by_key ≡ some id
    → IsOf (run ops new_store) w pubkey id × (w' ≡ w) × (pubkey' ≡ pubkey)
unfolding IsConsistent
run-IsOf ops w w' pubkey pubkey' id room known known' =
    let all = run-IsConsistent ops new_store (omega arith) new_store-IsConsistent in
    let here = all w pubkey id known in
    let there = all w' pubkey' id known' in
    (
      here,
      ground (arith, here.stored, there.stored, here.place, there.place),
      ground (arith, here.stored, there.stored, here.key, there.key),
    )
