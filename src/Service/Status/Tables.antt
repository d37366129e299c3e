-- ===== src/Service/Status/Tables.antt =====
-- What every request does to one task (daemon/internal/service).
use shell_sync.Base.{
  string_key, ℕ, ◌≡◌, refl, sym, ap, subst, ◌∙◌, ◌≢◌, Bool, true, false, if◌then◌else◌, ◌||◌, not,
  String, Option, none, some, [], ◌∷◌, ◌==◌, Bool-cases, inl, inr,
}
use shell_sync.Base.Dict.{Dict, lookup, insert, lookup-delete_ne}
use shell_sync.Store.{Database, Result, Done, Failure, ok, failed, has_key, refers, or_default}
use shell_sync.Store.Devices
use shell_sync.Store.Tasks
use shell_sync.Store.Todos
use shell_sync.Store.Terminals
use shell_sync.Store.Settings
use shell_sync.Store.Tasks.{TaskCreate, TaskPatch, new_task}
use shell_sync.Store.Todos.{TodoCreate, TodoPatch, refers_well}
use shell_sync.Store.Terminals.{TerminalPatch}
use shell_sync.Service.{State, Event, committed}
use shell_sync.Service.Task
use shell_sync.Service.Todo
use shell_sync.Service.Device
use shell_sync.Service.Terminal
use shell_sync.Service.Status.Steps.{
  Carried, same_table, db_of_commit, tasks_if, Carried-create, Carried-guarded,
}
use shell_sync.Service.Requests.{
  Request, Answer, fine, error, answer, patched, handle, create_task, update_task, delete_task,
  create_todo, update_todo, delete_todo, update_terminal, revoke_device, delete_device, set_setting,
  delete_setting, patch_settings,
}

-- A statement that leaves the tasks as they are.
Carried-committed :
    {A : Type 0} (id : String) (event : A → Event) (s : State) (out : Database × Result A)
    → Carried id s.db.tasks out.0.tasks
    → Carried id s.db.tasks (answer (committed event s out)).0.db.tasks
Carried-committed id event s out h =
    subst (λ (d : Database). Carried id s.db.tasks d.tasks) (sym (db_of_commit event s out)) h

todo_create_same :
    (db : Database) (id user : String) (c : TodoCreate) (now : ℕ)
    → (Todos.create db id user c now).0.tasks ≡ db.tasks
unfolding Todos.create
todo_create_same db id user c now = tasks_if (c.title == "") db.tasks _ _ refl (
    tasks_if
      (has_key id db.todos
        || not (has_key user db.users)
        || not (refers_well db c.task_id c.terminal_id))
      db.tasks _ _ refl refl)

todo_update_same :
    (db : Database) (id : String) (p : TodoPatch) (now : ℕ)
    → (Todos.update db id p now).0.tasks ≡ db.tasks
unfolding Todos.update Todos.set_todo
todo_update_same db id p now =
    tasks_if (Todos.empty_patch p) db.tasks _ _ refl (row (lookup id db.todos))
  where
    row :
        (o : Option shell_sync.Store.Todo)
        → (Todos.set_todo (Todos.apply_patch p now) o db id).0.tasks ≡ db.tasks
    row none = refl
    row (some t) =
        let v = Todos.apply_patch p now t in
        tasks_if (refers_well db v.task_id v.terminal_id) db.tasks _ _ refl refl

todo_remove_same : (db : Database) (id : String) → (Todos.remove db id).0.tasks ≡ db.tasks
unfolding Todos.remove
todo_remove_same db id = tasks_if (has_key id db.todos) db.tasks _ _ refl refl

terminal_update_same :
    (db : Database) (id : String) (p : TerminalPatch) (now : ℕ)
    → (Terminals.update db id p now).0.tasks ≡ db.tasks
unfolding Terminals.update Terminals.set_terminal
terminal_update_same db id p now =
    tasks_if (Terminals.empty_patch p) db.tasks _ _ refl (row (lookup id db.terminals))
  where
    row :
        (o : Option shell_sync.Store.Terminal)
        → (Terminals.set_terminal (Terminals.apply_patch p now) o db id).0.tasks ≡ db.tasks
    row none = refl
    row (some t) =
        tasks_if (refers (Terminals.apply_patch p now t).task_id db.tasks) db.tasks _ _ refl refl

device_remove_same : (db : Database) (id : String) → (Devices.remove db id).0.tasks ≡ db.tasks
unfolding Devices.remove
device_remove_same db id = tasks_if (has_key id db.devices) db.tasks _ _ refl refl

device_revoke_same :
    (s : State) (id : String) → (answer (Device.revoke s id)).0.db.tasks ≡ s.db.tasks
unfolding Device.revoke Devices.revoke
device_revoke_same s id = row (lookup id s.db.devices)
  where
    spoken :
        (s : State) (r : Result shell_sync.Store.Device)
        → (Device.announced s r).db.tasks ≡ s.db.tasks
    spoken s (failed f) = refl
    spoken s (ok d) = refl

    row :
        (o : Option shell_sync.Store.Device)
        → (answer (
            Device.revoked_in s id
              (Devices.change (λ d. record d { revoked = true }) o s.db id))).0.db.tasks
          ≡ s.db.tasks
    row none = refl
    row (some d) =
        let db = record s.db { devices = insert id (record d { revoked = true }) s.db.devices } in
        spoken (record s { db = db }) (Devices.get db id)

patch_same :
    (accepts : String → Bool) (db : Database) (kv : Dict String String)
    → (Settings.patch accepts db kv).0.tasks ≡ db.tasks
unfolding Settings.patch Settings.set
patch_same accepts db [] = refl
patch_same accepts db ((k, v) ∷ kv) =
    tasks_if (accepts k) db.tasks _ _ (patch_same accepts (Settings.set db k v) kv) refl

patched-tasks : (s : State) (out : Database × Bool) → (patched s out).0.db.tasks ≡ out.0.tasks
patched-tasks s (db, true) = refl
patched-tasks s (db, false) = refl

written_same :
    (s s' : State) (b : Bool)
    → s'.db.tasks ≡ s.db.tasks
    → (if◌then◌else◌ {A = State × Answer} b (s', fine) (s, error)).0.db.tasks ≡ s.db.tasks
written_same s s' true e = e
written_same s s' false e = refl

task_delete :
    (id j : String) (db : Database) → j ≢ id → Carried id db.tasks (Tasks.remove db j).0.tasks
unfolding Tasks.remove
task_delete id j db ne = elim (Bool-cases (has_key j db.tasks)) [
  | inl e ↦ rw e (λ x found. (x, lookup-delete_ne id j db.tasks ne ∙ found, inl refl))
  | inr e ↦ rw e (same_table id db.tasks db.tasks refl)
]

pub Carried-handle :
    (id : String) (s : State) (r : Request)
    → r ≢ delete_task id
    → Carried id s.db.tasks (handle s r).0.db.tasks
unfolding handle Task.create Task.remove Todo.create Todo.update Todo.remove Terminal.update
    Device.remove Settings.set Settings.remove
Carried-handle id s (create_task new user c now) n =
    Carried-committed id _ s _ (Carried-create id s.db new user c now)
Carried-handle id s (update_task j p now) n = Carried-guarded id j s p now
Carried-handle id s (delete_task j) n =
    Carried-committed id _ s _ (task_delete id j s.db (λ e. n (ap delete_task e)))
Carried-handle id s (create_todo new user c now) n =
    Carried-committed id _ s _ (same_table id s.db.tasks _ (todo_create_same s.db new user c now))
Carried-handle id s (update_todo j p now) n =
    Carried-committed id _ s _ (same_table id s.db.tasks _ (todo_update_same s.db j p now))
Carried-handle id s (delete_todo j) n =
    Carried-committed id _ s _ (same_table id s.db.tasks _ (todo_remove_same s.db j))
Carried-handle id s (update_terminal j p now) n =
    Carried-committed id _ s _ (same_table id s.db.tasks _ (terminal_update_same s.db j p now))
Carried-handle id s (revoke_device j) n = same_table id s.db.tasks _ (device_revoke_same s j)
Carried-handle id s (delete_device j) n =
    Carried-committed id _ s _ (same_table id s.db.tasks _ (device_remove_same s.db j))
Carried-handle id s (set_setting key value written) n =
    same_table id s.db.tasks _
      (written_same s (record s { db = Settings.set s.db key value }) written refl)
Carried-handle id s (delete_setting key written) n =
    same_table id s.db.tasks _
      (written_same s (record s { db = Settings.remove s.db key }) written refl)
Carried-handle id s (patch_settings accepts kv) n =
    same_table id s.db.tasks _
      (patched-tasks s (Settings.patch accepts s.db kv) ∙ patch_same accepts s.db kv)
