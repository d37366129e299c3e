-- ===== src/Lifecycle/Runs.antt =====
-- Processes that start, end and use their locks, one step after the other (daemon/internal/lifecycle/lock.go).
use shell_sync.Base.{
  nat_key, ℕ, Bool, true, not, ◌&&◌, String, Option, none, some, List, [], ◌∷◌, if◌then◌else◌,
  nat_eqb, keep_if,
}
use shell_sync.Base.Dict.{lookup, delete}
use shell_sync.Lifecycle.{System, Lock, Machine, is_alive, acquire, set_port, release}

-- A process starts, ends with or without Release, or uses its lock.
pub data LockEvent : Type 0 where
  starts ends : ℕ → LockEvent
  acquires : ℕ → String → ℕ → Bool → LockEvent
  binds : ℕ → ℕ → Bool → LockEvent
  releases : ℕ → LockEvent

abbrev pub unreleased : Option Lock → Bool
unreleased none = true
unreleased (some l) = not l.released

module _ (c : System) where
  -- Only a process that is alive acts; one that ends leaves the file.
  unfoldable pub lock_step : Machine → LockEvent → Machine
  lock_step m (starts pid) = record m { running = pid ∷ m.running }
  lock_step m (ends pid) = record m {
    running = keep_if (λ p. not (nat_eqb p pid)) m.running;
    locks = delete pid m.locks;
  }
  lock_step m (acquires pid token now written) =
      if is_alive m.running pid
      then (acquire c m (record { pid = pid; port = 0; token = token; started_at = now }) written).0
      else m
  lock_step m (binds pid port written) = set_port c m pid port written
  lock_step m (releases pid) = release c m pid

  unfoldable pub lock_run : Machine → List LockEvent → Machine
  lock_run m [] = m
  lock_run m (e ∷ es) = lock_run (lock_step m e) es

  -- The port is set on a lock that has not been released.
  abbrev pub binds_well : Machine → LockEvent → Bool
  binds_well m (binds pid port written) = unreleased (lookup pid m.locks)
  binds_well m _ = true

  unfoldable pub orderly : Machine → List LockEvent → Bool
  orderly m [] = true
  orderly m (e ∷ es) = binds_well m e && orderly (lock_step m e) es
