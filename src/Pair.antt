-- ===== src/Pair.antt =====
-- daemon/internal/service/pair.go: pairing codes, the lockout after wrong codes, and the QR payload. Times
-- are nanoseconds. The clock, the random code and token, the address of the host, the decimal print of a
-- number, the relay link and the device table are parameters.
pub mod Guessing
pub mod Codes
mod Tests
use shell_sync.Base.{
  string_key, ℕ, ◌+◌, ◌*◌, Bool, true, false, ◌&&◌, not, String, Option, none, some, List, [], ◌∷◌,
  ltb, leb, ◌==◌, if◌then◌else◌, ◌/◌, ◌↔◌,
}
use shell_sync.Base.Dict.{Dict, lookup, insert, delete, retain}
use Prim.Native.String.{◌++◌}

abbrev pub pair_ttl : ℕ
pair_ttl = 2 * 60 * 1000000000

abbrev pub max_verify_fails : ℕ
max_verify_fails = 3

abbrev pub lock_duration : ℕ
lock_duration = 5 * 60 * 1000000000

pub data Outcome : Type 0 where
  paired pairing_locked invalid_pairing : Outcome

-- The mutable part of PairService: code ↦ expiresAt, failCount and lockedUntil.
pub record PairService : Type 0 where
  pub codes : Dict String ℕ
  pub fail_count : ℕ
  pub locked_until : ℕ

abbrev pub new_service : PairService
new_service = record { codes = []; fail_count = 0; locked_until = 0 }

pub purge : ℕ → Dict String ℕ → Dict String ℕ
purge now codes = retain (λ expires. not (ltb expires now)) codes

pub record RelayLink : Type 0 where
  pub online : Bool
  pub cloud_host : String → String
  pub dev_id : String

pub qr_payload : (ℕ → String) → Option RelayLink → ℕ → String → String → String
qr_payload decimal relay port ip code =
    let v1 = "shellsync://pair?ip=" ++ ip ++ "&port=" ++ decimal port ++ "&code=" ++ code in
    elim relay [
      | none ↦ v1
      | some r ↦
          if r.online && not (r.cloud_host ip == "")
          then "shellsync://pair?v=2&code="
            ++ code
            ++ "&lan="
            ++ ip
            ++ ":"
            ++ decimal port
            ++ "&cloud="
            ++ r.cloud_host ip
            ++ "&dev="
            ++ r.dev_id
          else v1
    ]

pub record PairInitResult : Type 0 where
  pub pairing_code : String
  pub qr : String
  pub expires_at : ℕ

-- What the relay link is asked to report.
abbrev pub report : Option RelayLink → String → Option (String × ℕ)
report none code = none
report (some r) code = if r.online then some (code, pair_ttl) else none

-- Init, with the random code and the time at hand.
pub init :
    (ℕ → String)
    → Option RelayLink
    → ℕ
    → String
    → PairService
    → ℕ
    → String
    → PairService × Option (String × ℕ) × PairInitResult
init decimal relay port ip s now code = (
  record s { codes = purge now (insert code (now + pair_ttl) s.codes) },
  report relay code,
  record {
    pairing_code = code;
    qr = qr_payload decimal relay port ip code;
    expires_at = (now + pair_ttl) / 1000000;
  },
)

-- The end of checkCode: a wrong code counts, and the third one locks.
unfoldable pub wrong_code : PairService → ℕ → PairService
wrong_code s now =
    if leb max_verify_fails (s.fail_count + 1)
    then record s { fail_count = 0; locked_until = now + lock_duration }
    else record s { fail_count = s.fail_count + 1 }

-- checkCode once the lock is off and the code has been looked up.
unfoldable pub consume : PairService → ℕ → String → Option ℕ → PairService × Outcome
consume s now code none = (wrong_code s now, invalid_pairing)
consume s now code (some expires) =
    let used = record s { codes = delete code s.codes } in
    if ltb expires now
    then (wrong_code used now, invalid_pairing)
    else (record used { fail_count = 0 }, paired)

unfoldable pub check_code : PairService → ℕ → String → PairService × Outcome
check_code s now code =
    if ltb now s.locked_until then (s, pairing_locked) else consume s now code (lookup code s.codes)

pub data VerifyResult (Device : Type 0) : Type 0 where
  verified : String → Device → VerifyResult Device
  refused : Outcome → VerifyResult Device
  not_stored : VerifyResult Device

-- The end of Verify: the device table is asked only after the code was consumed.
unfoldable pub conclude :
    {Device : Type 0}
    → (String → Option Device)
    → String
    → PairService × Outcome
    → PairService × VerifyResult Device
conclude create token (s, paired) =
    (s, elim (create token) [ none ↦ not_stored | some device ↦ verified token device ])
conclude create token (s, pairing_locked) = (s, refused pairing_locked)
conclude create token (s, invalid_pairing) = (s, refused invalid_pairing)

unfoldable pub verify :
    {Device : Type 0}
    → (String → Option Device)
    → PairService
    → ℕ
    → String
    → String
    → PairService × VerifyResult Device
verify create s now code token = conclude create token (check_code s now code)
