-- ===== src/Lifecycle.antt =====
-- daemon/internal/lifecycle/lock.go and alive_unix.go. Processes share one lock file. The JSON coder, and whether the system
-- lets a process send signal 0 to another, are parameters; whether a write of the file succeeds is an argument. A file
-- that cannot be read is one that is not there, and removing it succeeds. Tokens and times are arguments.
pub mod Runs
pub mod Guard
pub mod Exclusive
mod Tests
use shell_sync.Base.{
  nat_key, ℕ, Bool, true, false, ◌&&◌, not, String, Option, none, some, List, [], ◌∷◌,
  if◌then◌else◌, nat_eqb, keep_if,
}
use shell_sync.Base.Dict.{Dict, lookup, insert}
use shell_sync.Store.{is_some}

pub record LockData : Type 0 where
  pub pid : ℕ
  pub port : ℕ
  pub token : String
  pub started_at : ℕ

-- Marshal, Unmarshal, and whether kill(pid, 0) by the first process is permitted on the second, which lives.
pub record System : Type 0 where
  pub marshal : LockData → String
  pub unmarshal : String → Option LockData
  pub may_signal : ℕ → ℕ → Bool

-- A Lock; released tells that Release was called on it, which the object itself does not remember.
pub record Lock : Type 0 where
  pub own : LockData
  pub released : Bool

-- The lock file, the processes that are alive, and the last Lock of each process that has acquired one.
pub record Machine : Type 0 where
  pub file : Option String
  pub running : List ℕ
  pub locks : Dict ℕ Lock

abbrev pub is_alive : List ℕ → ℕ → Bool
is_alive [] pid = false
is_alive (p ∷ ps) pid = if nat_eqb p pid then true else is_alive ps pid

module _ (c : System) where
  -- processAlive, as the process me asks: a process that me may not signal (EPERM) counts as dead.
  unfoldable pub process_alive : Machine → ℕ → ℕ → Bool
  process_alive m me pid = is_alive m.running pid && c.may_signal me pid

  unfoldable pub read_lock : Option String → Option LockData
  read_lock none = none
  read_lock (some text) = c.unmarshal text

  -- atomicWrite: the old file stays when the write fails.
  unfoldable pub atomic_write : Option String → LockData → Bool → Option String
  atomic_write file own written = if written then some (c.marshal own) else file

  -- The check of Acquire by the process me: the file that is left when no other daemon is seen to run.
  abbrev pub checked_in : Option LockData → Machine → ℕ → Option (Option String)
  checked_in none m me = some m.file
  checked_in (some existing) m me = if process_alive m me existing.pid then none else some none

  unfoldable pub acquire_check : Machine → ℕ → Option (Option String)
  acquire_check m me = checked_in (read_lock m.file) m me

  -- The rest of Acquire, by a process, over the file that the check has left.
  unfoldable pub acquire_write : Machine → Option String → LockData → Bool → Machine × Bool
  acquire_write m file own written =
      if written
      then (
        record m {
          file = atomic_write file own true;
          locks = insert own.pid (record { own = own; released = false }) m.locks;
        },
        true,
      )
      else (record m { file = file }, false)

  abbrev pub acquire_on : Option (Option String) → Machine → LockData → Bool → Machine × Bool
  acquire_on none m own written = (m, false)
  acquire_on (some file) m own written = acquire_write m file own written

  unfoldable pub acquire : Machine → LockData → Bool → Machine × Bool
  acquire m own written = acquire_on (acquire_check m own.pid) m own written

  -- SetPort: the port is kept in the object even when the write fails, and the file is written even after Release.
  abbrev pub port_in : Option Lock → Machine → ℕ → ℕ → Bool → Machine
  port_in none m pid port written = m
  port_in (some l) m pid port written =
      let moved = record (l.own) { port = port } in
      record m {
        file = atomic_write m.file moved written;
        locks = insert pid (record l { own = moved }) m.locks;
      }

  unfoldable pub set_port : Machine → ℕ → ℕ → Bool → Machine
  set_port m pid port written = port_in (lookup pid m.locks) m pid port written

  -- The file is removed when it is still the process's own.
  abbrev pub file_after : Option LockData → LockData → Option String → Option String
  file_after none own file = file
  file_after (some current) own file = if nat_eqb current.pid own.pid then none else file

  -- Release; the process keeps the object.
  abbrev pub release_in : Option Lock → Machine → ℕ → Machine
  release_in none m pid = m
  release_in (some l) m pid = record m {
    file = file_after (read_lock m.file) l.own m.file;
    locks = insert pid (record l { released = true }) m.locks;
  }

  unfoldable pub release : Machine → ℕ → Machine
  release m pid = release_in (lookup pid m.locks) m pid
