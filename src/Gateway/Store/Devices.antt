-- ===== src/Gateway/Store/Devices.antt =====
-- crates/clave-gateway/src/store.rs: the enrolled devices of `MemStore`.
use clave.Prelude.{
  ◌+◌, ◌%◌, ◌^◌, ◌==◌, Option, none, some, List, [], ◌∷◌, Map, lookup, insert, Bytes, nat_eq,
  list_eq, pair_eq, leb, ok, err, if◌then◌else◌,
}
use clave.Identity.Email.{WorkspaceId, UserId}
use clave.Gateway.Action.{Action, gets, modify, not_found, no_such_device}
use clave.Gateway.Store.{
  DeviceId, DeviceStatus, active, DeviceRecord, StoredDevice, device_record, Inner, sort_by,
  update_at,
}

-- A device that enrols again with its key keeps its id and becomes active again.
abbrev pub known_or_new : WorkspaceId → UserId → Bytes → Inner → Option DeviceId → DeviceId × Inner
known_or_new w enrolled_by pubkey s (some id) =
    (id, record s { devices = update_at id (λ d. record d { status = active }) s.devices })
known_or_new w enrolled_by pubkey s none =
    let id = (s.next_device + 1) % 2 ^ 128 in
    (
      id,
      record s {
        next_device = id;
        devices_by_key = insert (w, pubkey) id s.devices_by_key;
        devices =
            insert id
              (record {
                workspace = w;
                enrolled_by = enrolled_by;
                pubkey = pubkey;
                status = active;
              })
              s.devices;
      },
    )

unfoldable pub record_device : WorkspaceId → UserId → Bytes → Action Inner DeviceId
record_device w enrolled_by pubkey s =
    let (id, s') = known_or_new w enrolled_by pubkey s (lookup (w, pubkey) s.devices_by_key) in
    (ok id, s')

abbrev records_of : WorkspaceId → Map DeviceId StoredDevice → List DeviceRecord
records_of w [] = []
records_of w (entry ∷ rest) =
    let later = records_of w rest in
    if entry.1.workspace == w then device_record entry.0 entry.1 ∷ later else later

unfoldable pub list_devices : WorkspaceId → Action Inner (List DeviceRecord)
list_devices w = gets (λ s. sort_by (λ a b. leb a.id b.id) (records_of w s.devices))

abbrev record_in : WorkspaceId → DeviceId → Option StoredDevice → Option DeviceRecord
record_in w id none = none
record_in w id (some d) = if d.workspace == w then some (device_record id d) else none

unfoldable pub device : WorkspaceId → DeviceId → Action Inner (Option DeviceRecord)
device w id = gets (λ s. record_in w id (lookup id s.devices))

unfoldable pub set_status :
    WorkspaceId → DeviceId → DeviceStatus → Option StoredDevice → Action Inner (Unit {0})
set_status w id status none s = (err (not_found no_such_device), s)
set_status w id status (some d) s =
    if d.workspace == w
    then (ok tt, record s { devices = insert id (record d { status = status }) s.devices })
    else (err (not_found no_such_device), s)

unfoldable pub set_device_status : WorkspaceId → DeviceId → DeviceStatus → Action Inner (Unit {0})
unfolding set_status
set_device_status w id status s = set_status w id status (lookup id s.devices) s

unfoldable pub set_device_fingerprint : DeviceId → Bytes → Action Inner (Unit {0})
set_device_fingerprint id fingerprint =
    modify λ s. record s { device_fingerprints = insert fingerprint id s.device_fingerprints }

unfoldable pub device_by_fingerprint : Bytes → Action Inner (Option DeviceId)
device_by_fingerprint fingerprint = gets (λ s. lookup fingerprint s.device_fingerprints)
