-- ===== src/Store/Settings.antt =====
-- daemon/internal/repository/settings_repo.go, and the update of daemon/internal/service/settings.go.
use shell_sync.Base.{string_key, Bool, true, false, String, Option, [], ◌∷◌, if◌then◌else◌}
use shell_sync.Base.Dict.{Dict, lookup, insert, delete}
use shell_sync.Store.{Database}

unfoldable pub get : Database → String → Option String
get db key = lookup key db.settings

-- INSERT ... ON CONFLICT(key) DO UPDATE
unfoldable pub set : Database → String → String → Database
set db key value = record db { settings = insert key value db.settings }

unfoldable pub remove : Database → String → Database
remove db key = record db { settings = delete key db.settings }

-- SettingsService.Patch: Go visits the map in any order, and stops at the first key whose write fails; accepts
-- says which writes the database takes. The keys written before it stay.
unfoldable pub patch : (String → Bool) → Database → Dict String String → Database × Bool
patch accepts db [] = (db, true)
patch accepts db ((k, v) ∷ kv) = if accepts k then patch accepts (set db k v) kv else (db, false)
