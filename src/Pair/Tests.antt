-- ===== src/Pair/Tests.antt =====
-- A pairing service that is guessed at, and one that pairs.
use shell_sync.Base.{
  string_key, ℕ, ◌+◌, ◌*◌, ◌-◌, ◌≤◌, ◌≡◌, refl, ◌≢◌, String, none, some, List, [], ◌∷◌, arith,
}
use shell_sync.Base.Dict.{ne_of_beq, lookup, delete}
use shell_sync.Pair.{
  PairService, conclude, new_service, paired, pairing_locked, invalid_pairing, wrong_code, consume,
  check_code, init, pair_ttl, lock_duration, verify, verified,
}
use shell_sync.Pair.Guessing.{attempts, wrong, NonePaired, Between, guesses_bounded}
use shell_sync.Pair.Codes.{check_code_once, init_then_pair}

abbrev issued : PairService
issued = record { codes = ("123456", 200) ∷ []; fail_count = 0; locked_until = 0 }

abbrev guesses : List (ℕ × String)
guesses = (1, "000000") ∷ (2, "000001") ∷ (3, "000002") ∷ (4, "123456") ∷ []

-- The valid code comes too late: the third guess has locked the service.
guesses_locked :
    attempts issued guesses
    ≡ invalid_pairing ∷ invalid_pairing ∷ invalid_pairing ∷ pairing_locked ∷ []
unfolding attempts check_code consume wrong_code lookup
guesses_locked = refl

guesses_bounded_example :
    lock_duration * wrong (attempts issued guesses) ≤ 3 * (10 - 0) + 3 * lock_duration
unfolding attempts check_code consume wrong_code lookup Between NonePaired
guesses_bounded_example = guesses_bounded issued 0 10 guesses (omega arith) intime unpaired
  where
    intime : Between 0 10 guesses
    intime = (omega arith, (omega arith, (omega arith, (omega arith, omega arith))))

    unpaired : NonePaired (attempts issued guesses)
    unpaired = ((λ e. cc), ((λ e. cc), ((λ e. cc), ((λ e. cc), tt))))

abbrev used : PairService
used = record { codes = []; fail_count = 0; locked_until = 0 }

check_code_once_example :
    (0 ≤ 7)
    × ((expires : ℕ) × ((lookup "123456" issued.codes ≡ some expires) × (7 ≤ expires)))
    × (lookup "654321" used.codes ≡ lookup "654321" issued.codes)
    × (used.fail_count ≡ 0)
    × ((check_code used 8 "123456").1 ≢ paired)
unfolding check_code consume lookup delete
check_code_once_example =
    check_code_once issued used 7 8 "123456" "654321" (ne_of_beq "123456" "654321" refl) refl

abbrev launched : PairService
launched = (init (λ n. "8080") none 8080 "10.0.0.1" new_service 5 "123456").0

init_then_pair_example :
    check_code launched pair_ttl "123456"
    ≡ (record launched { codes = delete "123456" launched.codes; fail_count = 0 }, paired)
init_then_pair_example =
    init_then_pair (λ n. "8080") none 8080 "10.0.0.1" new_service 5 pair_ttl "123456" (omega arith)
      (omega arith)

-- A device that pairs is stored under its token.
verified_token :
    verify {Device = String} (λ token. some token) issued 7 "123456" "t0"
    ≡ (used, verified "t0" "t0")
unfolding verify conclude check_code consume lookup delete
verified_token = refl
