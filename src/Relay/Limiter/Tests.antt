-- ===== src/Relay/Limiter/Tests.antt =====
-- The limiter at a burst of claims.
use shell_sync.Base.{ℕ, ◌*◌, ◌≤◌, ◌≡◌, refl, true, false, List, [], ◌∷◌, length, keep_if, arith}
use shell_sync.Relay.Limiter.{Limiter, new_limiter, allow, recent, second, minute}
use shell_sync.Relay.Limiter.Window.{run, within, run-limited, allow_blacklists}

abbrev burst : List ℕ
burst = 1 ∷ 2 ∷ 3 ∷ 4 ∷ 5 ∷ 6 ∷ 700 * second ∷ []

burst_permitted : (run new_limiter burst []).1 ≡ 1 ∷ 2 ∷ 3 ∷ 4 ∷ 5 ∷ 700 * second ∷ []
unfolding run new_limiter allow recent
burst_permitted = refl

run-limited_example : length (keep_if (within minute 10) (run new_limiter burst []).1) ≤ 5
run-limited_example = run-limited burst 10 (omega arith)

abbrev full : Limiter
full = record {
  window = minute;
  max_events = 5;
  black_for = 10 * minute;
  events = 1 ∷ 2 ∷ 3 ∷ 4 ∷ 5 ∷ [];
  blacklist = 0;
}

allow_blacklists_example :
    ((allow full 6).1 ≡ false)
    × (allow (allow full 6).0 7 ≡ ((allow full 6).0, false))
    × ((allow (allow full 6).0 (700 * second)).1 ≡ true)
unfolding recent
allow_blacklists_example =
    allow_blacklists full 6 7 (700 * second) (omega arith) (omega arith) (omega arith) (omega arith)
      (omega arith)
