-- ===== src/Auth.antt =====
-- daemon/internal/auth/auth.go and the middleware of daemon/internal/transport/http: who a bearer token
-- stands for. Pairing (service/pair.go) and the device service issue and revoke the tokens.
pub mod Unique
pub mod Tokens
pub mod Pairing
mod Tests
use shell_sync.Base.{
  string_key, ℕ, Bool, true, false, not, String, Option, none, some, List, [], ◌∷◌, if◌then◌else◌,
  ◌==◌,
}
use shell_sync.Store.{Database, Device, Result, ok, failed, Done}
use shell_sync.Store.Devices.{get, get_by_token, create, revoke, remove, touch_last_seen}
use shell_sync.Pair.{PairService, VerifyResult, verified, refused, not_stored, check_code, verify}

abbrev pub default_user_id : String
default_user_id = "00000000-0000-0000-0000-000000000001"

abbrev pub owner : Result Device → Option String
owner (ok d) = if d.id == "" then none else some d.user_id
owner (failed e) = none

-- Verifier.Verify; lock_token is the daemon's local token.
pub verify_token : String → Database → String → Option String
verify_token lock_token db token =
    if token == ""
    then none
    else if token == lock_token
    then some default_user_id
    else owner (get_by_token db token)

-- authMiddleware: a request goes on with its user, or is answered 401.
pub data Gate : Type 0 where
  unauthorized : Gate
  authorized : String → Gate

pub gate : String → Database → String → Gate
gate lock_token db token = elim (verify_token lock_token db token) [
  | none ↦ unauthorized
  | some user ↦ authorized user
]

-- What the repository answers to PairService.Verify.
abbrev pub issued : Result Device → String → Option Device
issued (ok d) token = some d
issued (failed e) token = none

-- The database changes only when the device table was reached.
unfoldable pub settle :
    Database
    → Database
    → PairService × VerifyResult Device
    → PairService × Database × VerifyResult Device
settle db db' (s, verified token d) = (s, db', verified token d)
settle db db' (s, refused o) = (s, db, refused o)
settle db db' (s, not_stored) = (s, db', not_stored)

-- PairService.Verify over the device table.
unfoldable pub pair_device :
    PairService
    → Database
    → ℕ
    → String
    → String
    → String
    → String
    → String
    → String
    → ℕ
    → PairService × Database × VerifyResult Device
pair_device s db now code user name platform token id stamp =
    let stored = create db id user name platform token stamp in
    settle db stored.0 (verify (issued stored.1) s now code token)
