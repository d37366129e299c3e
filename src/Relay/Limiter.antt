-- ===== src/Relay/Limiter.antt =====
-- server/relay/limiter.go: the sliding-window limiter of claims, with its blacklist. Times and durations
-- are nanoseconds; time zero is Go's zero time.
pub mod Window
mod Tests
use shell_sync.Base.{
  ℕ, ◌+◌, ◌-◌, ◌*◌, ◌<◌, Bool, true, false, List, [], ◌∷◌, ◌++◌, length, keep_if, ltb, leb,
  if◌then◌else◌,
}

abbrev pub second : ℕ
second = 1_000_000_000

abbrev pub minute : ℕ
minute = 60 * second

pub record Limiter : Type 0 where
  pub window : ℕ
  pub max_events : ℕ
  pub black_for : ℕ
  pub events : List ℕ
  pub blacklist : ℕ

unfoldable pub new_limiter : Limiter
new_limiter = record {
  window = minute;
  max_events = 5;
  black_for = 10 * minute;
  events = [];
  blacklist = 0;
}

-- The loop that drops events older than the window; now.Sub(e) of a later e is negative, and below it.
unfoldable pub recent : ℕ → ℕ → List ℕ → List ℕ
recent window now = keep_if (λ e. ltb (now - e) window)

unfoldable pub allow : Limiter → ℕ → Limiter × Bool
allow l now =
    if ltb now l.blacklist
    then (l, false)
    else (let events = recent l.window now l.events in
        if leb l.max_events (length events)
        then (record l { blacklist = now + l.black_for; events = [] }, false)
        else (record l { events = events ++ now ∷ [] }, true))

unfoldable pub blacklisted : Limiter → ℕ → Bool
blacklisted l now = ltb now l.blacklist
