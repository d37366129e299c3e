-- ===== src/Terminal/Managing.antt =====
-- daemon/internal/terminal/manager.go, with the deletion of service/terminal.go. Whether a shell can be
-- spawned and an environment text can be read is a parameter; the id, the time and what Wait returns are
-- arguments.
use shell_sync.Base.{
  string_key, nat_key, ℕ, ◌+◌, Bool, true, false, ◌&&◌, ◌||◌, String, Option, none, some, List, [],
  ◌∷◌, if◌then◌else◌, ◌==◌,
}
use shell_sync.Base.Order.{ℤ}
use shell_sync.Base.Dict.{Dict, lookup, insert}
use shell_sync.Store.{Database, Result, Done, ok, failed, is_some, has_key, or_default}
use shell_sync.Store.Terminals
use shell_sync.Store.Terminals.{TerminalCreate}
use shell_sync.Log.{Log, Backend, register, set_pending_resize}
use shell_sync.Terminal.{Session, Manager, new_session, to_grid, log_of, log_to}
use shell_sync.Terminal.Sessions.{request_stop, finalize}

-- pty.Spawn, and reading back the environment of a row.
pub record Host : Type 0 where
  pub windows : Bool
  pub default_name : String → ℕ → String
  pub spawns : String → String → ℤ → ℤ → String → Bool
  pub reads_env : String → Bool

abbrev register_session : Manager → String → Session → Manager
register_session m id s = record m {
  heap = insert m.next_handle s m.heap;
  next_handle = m.next_handle + 1;
  sessions = insert id m.next_handle m.sessions;
}

-- Register of the log, the new session with its size, its entry in the map, and start.
unfoldable pub start_session : Manager → String → ℤ → ℤ → Manager
start_session m id cols rows =
    let m1 = log_to m id (register (log_of m id)) in
    let m2 = register_session m1 id (new_session id cols rows) in
    log_to m2 id (set_pending_resize (log_of m2 id) (to_grid cols) (to_grid rows))

unfoldable pub get : Manager → String → Option ℕ
get m id = lookup id m.sessions

module _ (host : Host) where
  abbrev default_shell_name : String
  default_shell_name = if host.windows then "cmd" else "bash"

  -- The options with their defaults.
  abbrev pub filled : TerminalCreate → ℕ → TerminalCreate
  filled c now =
      let shell = or_default c.shell_type default_shell_name in
      record c {
        shell_type = shell;
        name = or_default c.name (host.default_name shell now);
        status = "running";
      }

  abbrev pub created_in :
      Manager
      → String
      → TerminalCreate
      → Database × Result shell_sync.Store.Terminal
      → Manager × Bool
  created_in m id c (db, failed f) = (record m { db = db }, false)
  created_in m id c (db, ok t) = (start_session (record m { db = db }) t.id c.cols c.rows, true)

  unfoldable pub create : Manager → String → String → TerminalCreate → ℕ → Manager × Bool
  create m id user opts now =
      let c = filled opts now in
      if host.spawns c.shell_type c.cwd c.cols c.rows c.env
      then created_in m id c (Terminals.create m.db id user c now)
      else (m, false)

  -- Restart up to its spawn: no live session, and a row whose environment can be read.
  abbrev pub row_in : Option shell_sync.Store.Terminal → Option shell_sync.Store.Terminal
  row_in none = none
  row_in (some t) =
      if (t.env == "" || host.reads_env t.env) && host.spawns t.shell_type t.cwd t.cols t.rows t.env
      then some t
      else none

  unfoldable pub restart_check : Manager → String → Option shell_sync.Store.Terminal
  restart_check m id =
      if is_some (lookup id m.sessions) then none else row_in (lookup id m.db.terminals)

  abbrev pub restarted_in :
      Manager → String → shell_sync.Store.Terminal → Database × Done → Manager × Bool
  restarted_in m id t (db, failed f) = (record m { db = db }, false)
  restarted_in m id t (db, ok done) = (start_session (record m { db = db }) id t.cols t.rows, true)

  -- Restart from the update of the status on, with the row that it has read.
  unfoldable pub restart_finish : Manager → String → shell_sync.Store.Terminal → ℕ → Manager × Bool
  restart_finish m id t now =
      restarted_in m id t (Terminals.update_status m.db id "running" none now)

  abbrev pub restart_with : Manager → String → Option shell_sync.Store.Terminal → ℕ → Manager × Bool
  restart_with m id none now = (m, false)
  restart_with m id (some t) now = restart_finish m id t now

  unfoldable pub restart : Manager → String → ℕ → Manager × Bool
  restart m id now = restart_with m id (restart_check m id) now

-- Stop waits for the session to be finalised.
abbrev pub stop_in : Backend → Option ℕ → Manager → Option ℤ → ℕ → Manager
stop_in b none m code now = m
stop_in b (some h) m code now = finalize b (request_stop m h) h code now

unfoldable pub stop : Backend → Manager → String → Option ℤ → ℕ → Manager
stop b m id code now = stop_in b (lookup id m.sessions) m code now

-- TerminalService.Restart stops a live session first.
unfoldable pub service_restart : Host → Backend → Manager → String → Option ℤ → ℕ → Manager × Bool
service_restart host b m id code now = restart host (stop b m id code now) id now

-- TerminalService.Delete; the chunks go with the row.
abbrev pub deleted_in : Manager → String → Database × Done → Manager × Bool
deleted_in m id (db, failed f) = (record m { db = db }, false)
deleted_in m id (db, ok done) =
    (record m { db = db; logs = insert id (record (log_of m id) { rows = [] }) m.logs }, true)

unfoldable pub delete_terminal : Backend → Manager → String → Option ℤ → ℕ → Manager × Bool
delete_terminal b m id code now =
    let m' = stop b m id code now in deleted_in m' id (Terminals.remove m'.db id)

-- A daemon that starts has no session; RecoverOnStartup settles the rows.
unfoldable pub recover : Database → Dict String Log → ℕ → Manager
recover db logs now = record {
  db = (Terminals.mark_running_as_crashed db now).0;
  logs = logs;
  heap = [];
  next_handle = 0;
  sessions = [];
  calls = [];
}

-- CloseAll over the ids that it has listed, with what each Wait returns.
unfoldable pub close_all : Backend → Manager → List (String × Option ℤ) → ℕ → Manager
close_all b m [] now = m
close_all b m ((id, code) ∷ ids) now = close_all b (stop b m id code now) ids now
