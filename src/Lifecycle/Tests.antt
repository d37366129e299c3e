-- ===== src/Lifecycle/Tests.antt =====
-- Two daemons on one machine.
use shell_sync.Base.{
  nat_key, ℕ, zero, suc, ◌+◌, ◌≡◌, refl, ap, ◌∙◌, true, false, String, none, some, List, [], ◌∷◌,
  nat_eqb, if◌then◌else◌, arith,
}
use Prim.Native.Char.{code}
use Prim.Native.String as S
use shell_sync.Base.Dict.{lookup, insert, delete}
use shell_sync.Log.Strokes.{put}
use shell_sync.Lifecycle.{
  LockData, System, Lock, Machine, process_alive, is_alive, read_lock, atomic_write, acquire,
  acquire_check, acquire_write, set_port, release,
}
use shell_sync.Lifecycle.Runs.{
  LockEvent, starts, ends, acquires, binds, releases, lock_step, lock_run, orderly,
}
use shell_sync.Lifecycle.Exclusive.{one_daemon}

abbrev get : String → ℕ → ℕ × String
get S.[] acc = (acc, S.[])
get (S.◌∷◌ c s) acc = if nat_eqb (code c) b'a' then get s (suc acc) else (acc, s)

get-put : (n acc : ℕ) (s : String) → get (put n s) acc ≡ (acc + n, s)
get-put zero acc s = ap (λ (m : ℕ). (m, s)) (omega arith)
get-put (suc n) acc s = get-put n (suc acc) s ∙ ap (λ (m : ℕ). (m, s)) (omega arith)

abbrev strokes : System
strokes = record {
  marshal = λ d. put d.pid (put d.port (put d.started_at d.token));
  unmarshal = λ s.
      let a = get s 0 in
      let b = get a.1 0 in
      let c = get b.1 0 in some (record { pid = a.0; port = b.0; token = c.1; started_at = c.0 });
  may_signal = λ me pid. true;
}

zero_plus : (n : ℕ) → 0 + n ≡ n
zero_plus n = omega arith

get0-put : (n : ℕ) (s : String) → get (put n s) 0 ≡ (n, s)
get0-put n s = get-put n 0 s ∙ ap (λ (m : ℕ). (m, s)) (zero_plus n)

reads_back : (d : LockData) → strokes.unmarshal (strokes.marshal d) ≡ some d
reads_back d =
    rw
      (
        get0-put d.pid (put d.port (put d.started_at d.token)),
        get0-put d.port (put d.started_at d.token),
        get0-put d.started_at d.token,
      )
      refl

abbrev bare : Machine
bare = record { file = none; running = []; locks = [] }

abbrev day : List LockEvent
day =
    starts 7
    ∷ acquires 7 "t7" 1 true
    ∷ binds 7 8080 true
    ∷ starts 8
    ∷ acquires 8 "t8" 2 true
    ∷ ends 7
    ∷ acquires 8 "t8" 3 true
    ∷ []

abbrev last_lock : LockData
last_lock = record { pid = 8; port = 0; token = "t8"; started_at = 3 }

abbrev its_lock : Lock
its_lock = record { own = last_lock; released = false }

events_in_order : orderly strokes bare day ≡ true
unfolding orderly lock_step acquire acquire_check process_alive acquire_write set_port release
    read_lock atomic_write lookup insert delete
events_in_order = refl

taken_over : lookup 8 (lock_run strokes bare day).locks ≡ some its_lock
unfolding lock_run lock_step acquire acquire_check process_alive acquire_write set_port release
    read_lock atomic_write lookup insert delete
taken_over = refl

one_daemon_example :
    (◌≡◌ {A = ℕ} 8 8)
    × (is_alive (lock_run strokes bare day).running 8 ≡ true)
    × ((d : LockData) × (read_lock strokes (lock_run strokes bare day).file ≡ some d) × (d.pid ≡ 8))
one_daemon_example =
    one_daemon strokes (λ p q. refl) reads_back bare day 8 8 its_lock its_lock refl events_in_order
      taken_over taken_over refl refl

-- When both check before either writes, both have the lock.
abbrev apart : Machine
apart =
    let m = record bare { running = 7 ∷ 8 ∷ [] } in
    let m1 = (acquire_write strokes m none (record last_lock { pid = 7 }) true).0 in
    (acquire_write strokes m1 none last_lock true).0

both_checked : acquire_check strokes (record bare { running = 7 ∷ 8 ∷ [] }) 8 ≡ some none
unfolding acquire_check read_lock
both_checked = refl

both_have_it :
    (lookup 7 apart.locks ≡ some (record { own = record last_lock { pid = 7 }; released = false }))
    × (lookup 8 apart.locks ≡ some its_lock)
unfolding acquire_write lookup insert
both_have_it = (refl, refl)

-- A daemon of another user is not seen, and its lock is taken.
unseen :
    (acquire
      (record strokes { may_signal = λ me pid. false })
      (lock_run strokes bare day)
      (record last_lock { pid = 9 })
      true).1
    ≡ true
unfolding acquire acquire_check process_alive acquire_write lock_run lock_step set_port release
    read_lock atomic_write lookup insert delete
unseen = refl

-- A port that is set after Release writes the file of the released lock again.
abbrev late : List LockEvent
late =
    starts 7
    ∷ acquires 7 "t7" 1 true
    ∷ releases 7
    ∷ binds 7 80 true
    ∷ starts 8
    ∷ acquires 8 "t8" 2 true
    ∷ []

late_port :
    (orderly strokes bare late ≡ false) × (lookup 8 (lock_run strokes bare late).locks ≡ none)
unfolding orderly lock_run lock_step acquire acquire_check process_alive acquire_write set_port
    release read_lock atomic_write lookup insert delete
late_port = (refl, refl)
