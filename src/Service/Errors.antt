-- ===== src/Service/Errors.antt =====
-- Requests that are refused (daemon/internal/service).
use shell_sync.Base.{
  string_key, ℕ, ◌≡◌, refl, ap, ◌∙◌, [], ◌∷◌, Bool, true, false, String, Option, none, some,
  if◌then◌else◌, Bool-cases, inl, inr,
}
use shell_sync.Base.Dict.{Dict, lookup, insert}
use shell_sync.Store.{
  Database, Result, Done, Failure, ok, failed, has_key, refers, no_rows, constraint, required,
}
use shell_sync.Store.Devices
use shell_sync.Store.Tasks
use shell_sync.Store.Todos
use shell_sync.Store.Terminals
use shell_sync.Store.Settings
use shell_sync.Store.Tasks.{TaskCreate, TaskPatch}
use shell_sync.Store.Todos.{TodoCreate, TodoPatch, refers_well}
use shell_sync.Store.Terminals.{TerminalPatch}
use shell_sync.Service.{State, Event, Reply, accepted, refused, invalid_transition, committed}
use shell_sync.Service.Task
use shell_sync.Service.Todo
use shell_sync.Service.Device
use shell_sync.Service.Terminal
use shell_sync.Service.Requests.{
  Request, Answer, fine, error, answer, patched, handle, create_task, update_task, delete_task,
  create_todo, update_todo, delete_todo, update_terminal, revoke_device, delete_device, set_setting,
  delete_setting, patch_settings,
}
use shell_sync.Service.Inert.{
  Inert, task_create, task_update, task_remove, todo_create, todo_update, todo_remove,
  terminal_update, device_remove,
}

no_error : fine ≡ error → ⊥
no_error e = cc

error_commit :
    {A : Type 0} (event : A → Event) (s : State) (out : Database × Result A)
    → Inert s.db out
    → (answer (committed event s out)).1 ≡ error
    → (answer (committed event s out)).0 ≡ s
unfolding Inert
error_commit event s (db, ok x) h e = absurd (no_error e)
error_commit event s (db, failed f) h e = ap (λ (d : Database). record s { db = d }) h

error_revoke :
    (s : State) (id : String)
    → (answer (Device.revoke s id)).1 ≡ error
    → (answer (Device.revoke s id)).0 ≡ s
unfolding Device.revoke Devices.revoke
error_revoke s id = row (lookup id s.db.devices)
  where
    row :
        (o : Option shell_sync.Store.Device)
        → (answer (
            Device.revoked_in s id (Devices.change (λ d. record d { revoked = true }) o s.db id))).1
          ≡ error
        → (answer (
            Device.revoked_in s id (Devices.change (λ d. record d { revoked = true }) o s.db id))).0
          ≡ s
    row none e = refl
    row (some d) e = absurd (no_error e)

error_update_task :
    (s : State) (id : String) (p : TaskPatch) (now : ℕ)
    → (answer (Task.update s id p now)).1 ≡ error
    → (answer (Task.update s id p now)).0 ≡ s
unfolding Task.update Task.guarded
error_update_task s id p now = by_status p.status (Tasks.get s.db id)
  where
    run :
        (answer (
            committed
              (λ t. shell_sync.Service.task_event "updated" t)
              s
              (Tasks.update s.db id p now))).1
          ≡ error
        → (answer (
            committed
              (λ t. shell_sync.Service.task_event "updated" t)
              s
              (Tasks.update s.db id p now))).0
          ≡ s
    run =
        error_commit (λ t. shell_sync.Service.task_event "updated" t) s (Tasks.update s.db id p now)
          (task_update s.db id p now)

    by_status :
        (o : Option String) (cur : Result shell_sync.Store.Task)
        → (answer (Task.guarded o cur s id p now)).1 ≡ error
        → (answer (Task.guarded o cur s id p now)).0 ≡ s
    by_status none cur = run
    by_status (some to) (failed f) = λ e. refl
    by_status (some to) (ok cur) = elim (Bool-cases (Task.allowed cur.status to)) [
      | inl y ↦ rw y run
      | inr n ↦ rw n (λ e. refl)
    ]

-- The entries of a patch in front of the first key that the database refuses.
unfoldable pub before_refused : (String → Bool) → Dict String String → Dict String String
before_refused accepts [] = []
before_refused accepts ((k, v) ∷ kv) = if accepts k then (k, v) ∷ before_refused accepts kv else []

-- The table with the entries written into it, one after the other.
unfoldable pub with_entries : Dict String String → Dict String String → Dict String String
with_entries t [] = t
with_entries t ((k, v) ∷ kv) = with_entries (insert k v t) kv

-- What a request that is answered with an error leaves.
unfoldable pub after_error : State → Request → State
after_error s (patch_settings accepts kv) = record s {
  db = record s.db { settings = with_entries s.db.settings (before_refused accepts kv) };
}
after_error s _ = s

patch-refused :
    (accepts : String → Bool) (db : Database) (kv : Dict String String)
    → (Settings.patch accepts db kv).1 ≡ false
    → (Settings.patch accepts db kv).0
      ≡ record db { settings = with_entries db.settings (before_refused accepts kv) }
unfolding Settings.patch Settings.set before_refused with_entries
patch-refused accepts db [] e = refl
patch-refused accepts db ((k, v) ∷ kv) e = elim (Bool-cases (accepts k)) [
  | inl y ↦ rw y (patch-refused accepts (Settings.set db k v) kv (rw y at e))
  | inr n ↦ rw n refl
]

error_patched :
    (s : State) (out : Database × Bool)
    → (patched s out).1 ≡ error
    → (out.1 ≡ false) × ((patched s out).0 ≡ record s { db = out.0 })
error_patched s (db, true) e = absurd (no_error e)
error_patched s (db, false) e = (refl, refl)

error_written :
    (s s' : State) (b : Bool)
    → (if◌then◌else◌ {A = State × Answer} b (s', fine) (s, error)).1 ≡ error
    → (if◌then◌else◌ {A = State × Answer} b (s', fine) (s, error)).0 ≡ s
error_written s s' true e = absurd (no_error e)
error_written s s' false e = refl

-- A create, update or delete of a task or a todo, an update of the row of a terminal, a revocation or deletion of a
-- device, or a write or deletion of one setting that is answered with an error has changed no row of any table and has
-- published nothing. A patch of the settings that is answered with an error has published nothing and has written
-- exactly the keys that it reached before the first one that the database refused. Only the writes of settings meet a
-- database that fails; elsewhere an error is a missing row, an empty name, a violated constraint or a refused status.
pub handle-error :
    (s : State) (r : Request) → (handle s r).1 ≡ error → (handle s r).0 ≡ after_error s r
unfolding handle Task.create Task.remove Todo.create Todo.update Todo.remove Terminal.update
    Device.remove after_error
handle-error s (create_task id user c now) =
    error_commit _ s (Tasks.create s.db id user c now) (task_create s.db id user c now)
handle-error s (update_task id p now) = error_update_task s id p now
handle-error s (delete_task id) = error_commit _ s (Tasks.remove s.db id) (task_remove s.db id)
handle-error s (create_todo id user c now) =
    error_commit _ s (Todos.create s.db id user c now) (todo_create s.db id user c now)
handle-error s (update_todo id p now) =
    error_commit _ s (Todos.update s.db id p now) (todo_update s.db id p now)
handle-error s (delete_todo id) = error_commit _ s (Todos.remove s.db id) (todo_remove s.db id)
handle-error s (update_terminal id p now) =
    error_commit _ s (Terminals.update s.db id p now) (terminal_update s.db id p now)
handle-error s (revoke_device id) = error_revoke s id
handle-error s (delete_device id) =
    error_commit _ s (Devices.remove s.db id) (device_remove s.db id)
handle-error s (set_setting key value written) =
    error_written s (record s { db = Settings.set s.db key value }) written
handle-error s (delete_setting key written) =
    error_written s (record s { db = Settings.remove s.db key }) written
handle-error s (patch_settings accepts kv) = λ e.
    let (refused_one, left) = error_patched s (Settings.patch accepts s.db kv) e in
    left ∙ ap (λ (d : Database). record s { db = d }) (patch-refused accepts s.db kv refused_one)
