-- ===== src/Service/Device.antt =====
-- daemon/internal/service/device.go.
use shell_sync.Base.{String, List, [], ◌∷◌, ◌++◌}
use shell_sync.Store.{Database, Result, Done, ok, failed}
use shell_sync.Store.Devices
use shell_sync.Service.{State, Reply, accepted, refused, committed, device_event, delete_event}

pub list : State → String → List shell_sync.Store.Device
list s user = Devices.list_by_user s.db user

-- The event of a revocation needs the row once more.
abbrev pub announced : State → Result shell_sync.Store.Device → State
announced s (failed f) = s
announced s (ok d) = record s { published = s.published ++ device_event "updated" d ∷ [] }

abbrev pub revoked_in : State → String → Database × Done → State × Reply (Unit {0})
revoked_in s id (db, failed f) = (record s { db = db }, refused f)
revoked_in s id (db, ok done) =
    (announced (record s { db = db }) (Devices.get db id), accepted done)

unfoldable pub revoke : State → String → State × Reply (Unit {0})
revoke s id = revoked_in s id (Devices.revoke s.db id)

unfoldable pub remove : State → String → State × Reply (Unit {0})
remove s id = committed (λ done. delete_event "device" id) s (Devices.remove s.db id)
