-- ===== src/Client/Backoff.antt =====
-- The waits between two connections (client.go Run).
use shell_sync.Base.{ℕ, suc, ◌*◌, ◌^◌, ◌≡◌, refl, sym, ap, ◌∙◌, String, List, [], ◌∷◌, arith}
use Prim.Native.Nat.{min}
use Prim.Native.Nat.pow
use shell_sync.Client.{Client, Event, Handshake, run, next_backoff, retry_min, retry_max}

-- Each wait, from the n-th on, is one second doubled n times, and a minute at most.
unfoldable pub Doubling : ℕ → List ℕ → Type 0
Doubling n [] = Unit {0}
Doubling n (w ∷ ws) = (w ≡ min (2 ^ n * retry_min) retry_max) × Doubling (suc n) ws

next_backoff-min :
    (x : ℕ) → next_backoff (min (x * retry_min) retry_max) ≡ min (x * 2 * retry_min) retry_max
unfolding next_backoff
next_backoff-min x = ground arith

run-Doubling :
    (n backoff : ℕ) (c : Client) (rest : List (Handshake × List Event × String))
    → backoff ≡ min (2 ^ n * retry_min) retry_max
    → Doubling n (run backoff c rest).1
unfolding run Doubling
run-Doubling n backoff c [] e = tt
run-Doubling n backoff c ((h, es, err) ∷ rest) e = (
  e,
  run-Doubling (suc n) (next_backoff backoff) _ rest (
      ap next_backoff e
      ∙ next_backoff-min (2 ^ n)
      ∙ ap (λ (x : ℕ). min (x * retry_min) retry_max) (sym (pow.suc 2 n))),
)

-- However the connections end, and however long each of them was served, the waits between them, before
-- the jitter, are one second, doubled from one connection to the next and held at a minute.
pub waits_double :
    (c : Client) (cycles : List (Handshake × List Event × String))
    → Doubling 0 (run retry_min c cycles).1
waits_double c cycles = run-Doubling 0 retry_min c cycles first
  where
    first : retry_min ≡ min (2 ^ 0 * retry_min) retry_max
    first = refl
