-- ===== src/Store/Devices.antt =====
-- daemon/internal/repository/device_repo.go.
use shell_sync.Base.{
  string_key, ℕ, Bool, true, false, ◌&&◌, ◌||◌, not, String, Option, none, some, List, [], ◌∷◌, leb,
  if◌then◌else◌, ◌==◌,
}
use shell_sync.Base.Order.{sort_by}
use shell_sync.Base.Dict.{Dict, lookup, insert, delete}
use shell_sync.Store.{
  Database, Device, Result, Done, ok, failed, no_rows, constraint, found, first, select, has_key,
}

unfoldable pub get : Database → String → Result Device
get db id = found (lookup id db.devices)

-- Whether a row has the session token, which the schema keeps unique.
abbrev pub token_used : Dict String Device → String → Bool
token_used t token = elim (select (λ d. d.session_token == token) t) [ [] ↦ false | d ∷ ds ↦ true ]

-- The row that Create inserts.
abbrev pub new_device : String → String → String → String → String → ℕ → Device
new_device id user name platform token now = record {
  id = id;
  user_id = user;
  name = name;
  platform = platform;
  session_token = token;
  last_seen_at = now;
  created_at = now;
  revoked = false;
}

unfoldable pub create :
    Database → String → String → String → String → String → ℕ → Database × Result Device
create db id user name platform token now =
    if has_key id db.devices || token_used db.devices token || not (has_key user db.users)
    then (db, failed constraint)
    else (
      record db { devices = insert id (new_device id user name platform token now) db.devices },
      ok (new_device id user name platform token now),
    )

-- The device that is not revoked and has the token.
unfoldable pub get_by_token : Database → String → Result Device
get_by_token db token = first (select (λ d. d.session_token == token && not d.revoked) db.devices)

pub list_by_user : Database → String → List Device
list_by_user db user =
    sort_by (λ a b. leb a.created_at b.created_at) (select (λ d. d.user_id == user) db.devices)

-- UPDATE of one row, with sql.ErrNoRows if there is none.
abbrev pub change : (Device → Device) → Option Device → Database → String → Database × Done
change f none db id = (db, failed no_rows)
change f (some d) db id = (record db { devices = insert id (f d) db.devices }, ok tt)

unfoldable pub touch_last_seen : Database → String → ℕ → Database
touch_last_seen db id now =
    (change (λ d. record d { last_seen_at = now }) (lookup id db.devices) db id).0

unfoldable pub revoke : Database → String → Database × Done
revoke db id = change (λ d. record d { revoked = true }) (lookup id db.devices) db id

unfoldable pub remove : Database → String → Database × Done
remove db id =
    if has_key id db.devices
    then (record db { devices = delete id db.devices }, ok tt)
    else (db, failed no_rows)
