-- ===== src/Store/Links.antt =====
-- The references between the tables (daemon/internal/repository over migrations/0001_init.sql).
pub mod Kept
pub mod Runs
pub mod Whole
use shell_sync.Base.{string_key, ℕ, ◌≡◌, Bool, true, false, String, Option, List, [], ◌∷◌, All}
use shell_sync.Base.Order.{ℤ}
use shell_sync.Base.Dict.{Dict}
use shell_sync.Log.{Row}
use shell_sync.Store.{Database, Device, Task, Terminal, Todo, rows_of, has_key, refers}
use shell_sync.Store.Devices
use shell_sync.Store.Tasks
use shell_sync.Store.Tasks.{TaskCreate, TaskPatch}
use shell_sync.Store.Terminals
use shell_sync.Store.Terminals.{TerminalCreate, TerminalPatch}
use shell_sync.Store.Todos
use shell_sync.Store.Todos.{TodoCreate, TodoPatch}
use shell_sync.Store.Settings
use shell_sync.Store.Logs.{append_chunk, delete_before, delete_by_terminal}

-- A statement that changes the database, with the new id and the time that it uses.
pub data Statement : Type 0 where
  add_device : String → String → String → String → String → ℕ → Statement
  revoke_device remove_device : String → Statement
  touch_device : String → ℕ → Statement
  add_task : String → String → TaskCreate → ℕ → Statement
  update_task : String → TaskPatch → ℕ → Statement
  remove_task : String → Statement
  add_terminal : String → String → TerminalCreate → ℕ → Statement
  update_terminal : String → TerminalPatch → ℕ → Statement
  end_terminal : String → String → Option ℤ → ℕ → Statement
  advance_terminal : String → ℕ → ℕ → Statement
  crash_terminals : ℕ → Statement
  remove_terminal : String → Statement
  add_todo : String → String → TodoCreate → ℕ → Statement
  update_todo : String → TodoPatch → ℕ → Statement
  remove_todo : String → Statement
  add_chunk : String → Row → Statement
  drop_chunks_before : String → ℕ → Statement
  drop_chunks : String → Statement
  set_setting : String → String → Statement
  remove_setting : String → Statement

unfoldable pub execute : Database → Statement → Database
execute db (add_device id user name platform token now) =
    (Devices.create db id user name platform token now).0
execute db (revoke_device id) = (Devices.revoke db id).0
execute db (remove_device id) = (Devices.remove db id).0
execute db (touch_device id now) = Devices.touch_last_seen db id now
execute db (add_task id user c now) = (Tasks.create db id user c now).0
execute db (update_task id p now) = (Tasks.update db id p now).0
execute db (remove_task id) = (Tasks.remove db id).0
execute db (add_terminal id user c now) = (Terminals.create db id user c now).0
execute db (update_terminal id p now) = (Terminals.update db id p now).0
execute db (end_terminal id status code now) = (Terminals.update_status db id status code now).0
execute db (advance_terminal id seq now) = Terminals.set_last_seq db id seq now
execute db (crash_terminals now) = (Terminals.mark_running_as_crashed db now).0
execute db (remove_terminal id) = (Terminals.remove db id).0
execute db (add_todo id user c now) = (Todos.create db id user c now).0
execute db (update_todo id p now) = (Todos.update db id p now).0
execute db (remove_todo id) = (Todos.remove db id).0
execute db (add_chunk id r) = (append_chunk db id r).0
execute db (drop_chunks_before id cutoff) = (delete_before db id cutoff).0
execute db (drop_chunks id) = (delete_by_terminal db id).0
execute db (set_setting key value) = Settings.set db key value
execute db (remove_setting key) = Settings.remove db key

unfoldable pub execute_all : Database → List Statement → Database
execute_all db [] = db
execute_all db (s ∷ ss) = execute_all (execute db s) ss

-- What each row owes to the other tables.
abbrev pub TerminalOk : Dict String String → Dict String Task → Terminal → Type 0
TerminalOk users tasks t = (has_key t.user_id users ≡ true) × (refers t.task_id tasks ≡ true)

abbrev pub TodoOk : Dict String String → Dict String Task → Dict String Terminal → Todo → Type 0
TodoOk users tasks terminals t =
    (has_key t.user_id users ≡ true)
    × (refers t.task_id tasks ≡ true)
    × (refers t.terminal_id terminals ≡ true)

abbrev pub LogsOk : Dict String (List Row) → Dict String Terminal → Type 0
LogsOk logs terminals = (id : String) → has_key id logs ≡ true → has_key id terminals ≡ true

-- No row refers to a row that is not there.
pub record Linked (db : Database) : Type 0 where
  pub devices : All (λ (d : Device). has_key d.user_id db.users ≡ true) (rows_of db.devices)
  pub tasks : All (λ (t : Task). has_key t.user_id db.users ≡ true) (rows_of db.tasks)
  pub terminals : All (TerminalOk db.users db.tasks) (rows_of db.terminals)
  pub todos : All (TodoOk db.users db.tasks db.terminals) (rows_of db.todos)
  pub logs : LogsOk db.logs db.terminals
