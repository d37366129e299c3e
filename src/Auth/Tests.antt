-- ===== src/Auth/Tests.antt =====
-- Runs of the device table and of a pairing.
use shell_sync.Base.{
  string_key, ℕ, ◌+◌, ◌≡◌, ◌≢◌, refl, String, true, false, none, some, List, [], ◌∷◌, arith,
}
use shell_sync.Base.Dict.{lookup, insert, ne_of_beq}
use shell_sync.Store.{Database, Device, empty_db}
use shell_sync.Store.Devices.{create, new_device, revoke, touch_last_seen, get_by_token}
use shell_sync.Pair.{PairService, check_code, consume, paired, verified}
use shell_sync.Auth.{verify_token, pair_device}
use shell_sync.Auth.Unique.{DeviceEvent, creates, removes, touches, step, run, NotIssued, Spares}
use shell_sync.Auth.Tokens.{revoked_refused}
use shell_sync.Auth.Pairing.{Fresh, paired_token_accepted}

abbrev one_user : Database
one_user = record empty_db { users = ("u", "Local") ∷ [] }

abbrev two_devices : List DeviceEvent
two_devices =
    creates "d1" "u" "phone" "ios" "t1" 5
    ∷ creates "d2" "u" "desk" "desktop" "t2" 6
    ∷ touches "d1" 7
    ∷ []

abbrev afterwards : List DeviceEvent
afterwards = touches "d1" 9 ∷ creates "d3" "u" "tablet" "android" "t3" 10 ∷ removes "d2" ∷ []

abbrev phone : Device
phone = record (new_device "d1" "u" "phone" "ios" "t1" 5) { last_seen_at = 7 }

phone_there : lookup "d1" (run one_user two_devices).devices ≡ some phone
unfolding run step create touch_last_seen lookup insert
phone_there = refl

not_issued : NotIssued "t1" afterwards
unfolding NotIssued Spares
not_issued = (tt, (ne_of_beq "t3" "t1" refl, (tt, tt)))

revoked_refused_example :
    verify_token "lock" (run (revoke (run one_user two_devices) "d1").0 afterwards) "t1" ≡ none
revoked_refused_example =
    revoked_refused "lock" "d1" one_user two_devices afterwards phone refl phone_there
      (ne_of_beq "t1" "lock" refl) not_issued

-- Before it is revoked, the phone is let in.
phone_accepted : verify_token "lock" (run one_user two_devices) "t1" ≡ some "u"
unfolding verify_token get_by_token run step create touch_last_seen lookup insert
phone_accepted = refl

abbrev code_out : PairService
code_out = record { codes = ("123456", 10) ∷ []; fail_count = 2; locked_until = 0 }

abbrev code_used : PairService
code_used = record { codes = []; fail_count = 0; locked_until = 0 }

Fresh-one_user : Fresh "lock" one_user "d1" "u" "t1"
unfolding lookup
Fresh-one_user = record {
  new_id = refl;
  new_token = refl;
  known_user = refl;
  named = ne_of_beq "d1" "" refl;
  not_empty = ne_of_beq "t1" "" refl;
  not_local = ne_of_beq "t1" "lock" refl;
}

check_ok : check_code code_out 7 "123456" ≡ (code_used, paired)
unfolding check_code consume lookup shell_sync.Base.Dict.delete
check_ok = refl

abbrev new_phone : Device
new_phone = new_device "d1" "u" "phone" "ios" "t1" 5

paired_token_accepted_example :
    (pair_device code_out one_user 7 "123456" "u" "phone" "ios" "t1" "d1" 5 ≡ (
      code_used,
      record one_user { devices = insert "d1" new_phone one_user.devices },
      verified "t1" new_phone,
    ))
    × (verify_token "lock"
          (pair_device code_out one_user 7 "123456" "u" "phone" "ios" "t1" "d1" 5).1
          "t1"
        ≡ some "u")
    × ((other : String)
        → other ≢ "t1"
        → verify_token "lock"
            (pair_device code_out one_user 7 "123456" "u" "phone" "ios" "t1" "d1" 5).1
            other
          ≡ verify_token "lock" one_user other)
paired_token_accepted_example =
    paired_token_accepted "lock" one_user "d1" "u" "phone" "ios" "t1" 5 Fresh-one_user code_out
      code_used 7 "123456" check_ok
