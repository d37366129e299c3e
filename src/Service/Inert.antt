-- ===== src/Service/Inert.antt =====
-- Statements that fail and change nothing (daemon/internal/repository).
use shell_sync.Base.{
  string_key, ℕ, ◌≡◌, refl, Bool, true, false, ◌||◌, not, String, Option, none, some, if◌then◌else◌,
  ◌==◌,
}
use shell_sync.Base.Dict.{lookup}
use shell_sync.Store.{
  Database, Result, Done, Failure, ok, failed, has_key, refers, no_rows, constraint, required,
}
use shell_sync.Store.Devices
use shell_sync.Store.Tasks
use shell_sync.Store.Todos
use shell_sync.Store.Terminals
use shell_sync.Store.Tasks.{TaskCreate, TaskPatch}
use shell_sync.Store.Todos.{TodoCreate, TodoPatch, refers_well}
use shell_sync.Store.Terminals.{TerminalPatch}

-- A statement that fails leaves the database as it was.
unfoldable pub Inert : {A : Type 0} → Database → Database × Result A → Type 0
Inert db (db', ok x) = Unit {0}
Inert db (db', failed f) = db' ≡ db

Inert-if :
    {A : Type 0} (b : Bool) (db : Database) (f : Failure) (other : Database × Result A)
    → Inert db other
    → Inert db (if b then (db, failed f) else other)
unfolding Inert
Inert-if true db f other h = refl
Inert-if false db f other h = h

Inert-unless :
    {A : Type 0} (b : Bool) (db db' : Database) (f : Failure) (x : A)
    → Inert db (if b then (db', ok x) else (db, failed f))
unfolding Inert
Inert-unless true db db' f x = tt
Inert-unless false db db' f x = refl

Inert-read :
    {A : Type 0} (b : Bool) (db : Database) (r : Result A) (other : Database × Result A)
    → Inert db other
    → Inert db (if b then (db, r) else other)
unfolding Inert
Inert-read true db (ok x) other h = tt
Inert-read true db (failed f) other h = refl
Inert-read false db r other h = h

pub task_create :
    (db : Database) (id user : String) (c : TaskCreate) (now : ℕ)
    → Inert db (Tasks.create db id user c now)
unfolding Inert Tasks.create
task_create db id user c now =
    Inert-if (c.name == "") db required _
      (Inert-if (has_key id db.tasks || not (has_key user db.users)) db constraint _ tt)

pub task_update :
    (db : Database) (id : String) (p : TaskPatch) (now : ℕ) → Inert db (Tasks.update db id p now)
unfolding Inert Tasks.update
task_update db id p now =
    Inert-read (Tasks.empty_patch p) db (Tasks.get db id) _ (row (lookup id db.tasks))
  where
    row :
        (o : Option shell_sync.Store.Task)
        → Inert db (Tasks.set_task (Tasks.apply_patch p now) o db id)
    row none = refl
    row (some t) = tt

pub task_remove : (db : Database) (id : String) → Inert db (Tasks.remove db id)
unfolding Tasks.remove
task_remove db id = Inert-unless (has_key id db.tasks) db _ no_rows tt

pub todo_create :
    (db : Database) (id user : String) (c : TodoCreate) (now : ℕ)
    → Inert db (Todos.create db id user c now)
unfolding Inert Todos.create
todo_create db id user c now = Inert-if (c.title == "") db required _ (
    Inert-if
      (has_key id db.todos
        || not (has_key user db.users)
        || not (refers_well db c.task_id c.terminal_id))
      db constraint _ tt)

pub todo_update :
    (db : Database) (id : String) (p : TodoPatch) (now : ℕ) → Inert db (Todos.update db id p now)
unfolding Inert Todos.update Todos.set_todo
todo_update db id p now =
    Inert-read (Todos.empty_patch p) db (Todos.get db id) _ (row (lookup id db.todos))
  where
    row :
        (o : Option shell_sync.Store.Todo)
        → Inert db (Todos.set_todo (Todos.apply_patch p now) o db id)
    row none = refl
    row (some t) =
        let v = Todos.apply_patch p now t in
        Inert-unless (refers_well db v.task_id v.terminal_id) db _ constraint v

pub todo_remove : (db : Database) (id : String) → Inert db (Todos.remove db id)
unfolding Todos.remove
todo_remove db id = Inert-unless (has_key id db.todos) db _ no_rows tt

pub terminal_update :
    (db : Database) (id : String) (p : TerminalPatch) (now : ℕ)
    → Inert db (Terminals.update db id p now)
unfolding Inert Terminals.update Terminals.set_terminal
terminal_update db id p now =
    Inert-read (Terminals.empty_patch p) db (Terminals.get db id) _ (row (lookup id db.terminals))
  where
    row :
        (o : Option shell_sync.Store.Terminal)
        → Inert db (Terminals.set_terminal (Terminals.apply_patch p now) o db id)
    row none = refl
    row (some t) =
        let v = Terminals.apply_patch p now t in
        Inert-unless (refers v.task_id db.tasks) db _ constraint v

pub device_remove : (db : Database) (id : String) → Inert db (Devices.remove db id)
unfolding Devices.remove
device_remove db id = Inert-unless (has_key id db.devices) db _ no_rows tt
