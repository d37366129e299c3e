-- ===== src/Store/Links/Whole.antt =====
-- Any run of statements keeps the references between the tables whole (daemon/internal/repository).
use shell_sync.Base.{
  ltb, string_key, ℕ, ◌≡◌, refl, ap, ◌∙◌, Bool, true, false, ◌||◌, not, String, Option, none, some,
  List, [], ◌∷◌, ◌++◌, if◌then◌else◌, ◌==◌, Bool-cases, inl, inr,
}
use shell_sync.Base.Dict.{Dict, lookup}
use shell_sync.Log.{Row}
use shell_sync.Store.{Database, Todo, has_key, refers, is_some}
use shell_sync.Store.Rows.{All-delete, All-lookup}
use shell_sync.Store.Devices
use shell_sync.Store.Tasks
use shell_sync.Store.Todos
use shell_sync.Store.Terminals
use shell_sync.Store.Links.Kept.{todo_set, logs_set, Linked-remove_task, Linked-remove_terminal}
use shell_sync.Store.Tasks.{TaskCreate, TaskPatch, new_task}
use shell_sync.Store.Terminals.{TerminalCreate, TerminalPatch, new_terminal}
use shell_sync.Store.Todos.{TodoCreate, TodoPatch, new_todo, refers_well}
use shell_sync.Store.Logs.{
  append_chunk, delete_before, delete_by_terminal, delete_rows, seq_used, chunks_of,
}
use shell_sync.Store.Settings
use shell_sync.Store.Links.Runs.{
  and_true, both_false, three_false, not-false, device_change, device_create, device_remove,
  task_create, task_update, terminal_create, terminal_touch, terminal_update, terminal_crash,
}
use shell_sync.Store.Links.{
  Statement, add_device, revoke_device, remove_device, touch_device, add_task, update_task,
  remove_task, add_terminal, update_terminal, end_terminal, advance_terminal, crash_terminals,
  remove_terminal, add_todo, update_todo, remove_todo, add_chunk, drop_chunks_before, drop_chunks,
  set_setting, remove_setting, execute, execute_all, Linked, TodoOk,
}

todo_create :
    (db : Database) (id user : String) (c : TodoCreate) (now : ℕ)
    → Linked db
    → Linked (Todos.create db id user c now).0
unfolding Todos.create
todo_create db id user c now l = elim (Bool-cases (c.title == "")) [
  | inl e ↦ rw e l
  | inr e ↦
      rw e
        (elim (Bool-cases (
          has_key id db.todos
          || not (has_key user db.users)
          || not (refers_well db c.task_id c.terminal_id))) [
            | inl e ↦ rw e l
            | inr e ↦
                let (u, r) =
                  three_false (has_key id db.todos) (not (has_key user db.users))
                    (not (refers_well db c.task_id c.terminal_id)) e in
                let (rt, rs) =
                  and_true (refers c.task_id db.tasks) (refers c.terminal_id db.terminals)
                    (not-false (refers_well db c.task_id c.terminal_id) r) in
                rw e (
                  todo_set db id (new_todo id user c now)
                    (not-false (has_key user db.users) u, rt, rs) l)
          ])
]

todo_update :
    (f : Todo → Todo) (db : Database) (id : String)
    → ((t : Todo) → (f t).user_id ≡ t.user_id)
    → Linked db
    → Linked (Todos.set_todo f (lookup id db.todos) db id).0
unfolding Todos.set_todo
todo_update f db id keeps l = by_row (lookup id db.todos) refl
  where
    by_row : (o : Option Todo) → lookup id db.todos ≡ o → Linked (Todos.set_todo f o db id).0
    by_row none e = l
    by_row (some t) e =
        let (u, _, _) =
          All-lookup (TodoOk db.users db.tasks db.terminals) id t db.todos e l.todos in
        elim (Bool-cases (refers_well db (f t).task_id (f t).terminal_id)) [
          | inl y ↦
              let (rt, rs) =
                and_true (refers (f t).task_id db.tasks) (refers (f t).terminal_id db.terminals)
                  y in
              rw y (
                todo_set db id (f t) (ap (λ (x : String). has_key x db.users) (keeps t) ∙ u, rt, rs)
                  l)
          | inr n ↦ rw n l
        ]

todo_remove : (db : Database) (id : String) → Linked db → Linked (Todos.remove db id).0
unfolding Todos.remove
todo_remove db id l = elim (Bool-cases (has_key id db.todos)) [
  | inl e ↦ rw e (record {
    devices = l.devices;
    tasks = l.tasks;
    terminals = l.terminals;
    todos = All-delete (TodoOk db.users db.tasks db.terminals) id db.todos l.todos;
    logs = l.logs;
  })
  | inr e ↦ rw e l
]

chunk_add : (db : Database) (id : String) (r : Row) → Linked db → Linked (append_chunk db id r).0
unfolding append_chunk
chunk_add db id r l =
    elim (Bool-cases
      (not (has_key id db.terminals) || seq_used r.seq (chunks_of (lookup id db.logs)))) [
        | inl e ↦ rw e l
        | inr e ↦ rw e (
            logs_set db id (chunks_of (lookup id db.logs) ++ r ∷ [])
              (not-false (has_key id db.terminals)
                (both_false (not (has_key id db.terminals))
                  (seq_used r.seq (chunks_of (lookup id db.logs))) e).0)
              l)
      ]

chunks_drop :
    (gone : Row → Bool) (db : Database) (id : String)
    → Linked db
    → Linked (delete_rows gone (lookup id db.logs) db id).0
chunks_drop gone db id l = by_row (lookup id db.logs) refl
  where
    by_row : (o : Option (List Row)) → lookup id db.logs ≡ o → Linked (delete_rows gone o db id).0
    by_row none e = l
    by_row (some rs) e = logs_set db id _ (l.logs id (ap is_some e)) l

settings_to :
    (db : Database) (t : Dict String String) → Linked db → Linked (record db { settings = t })
settings_to db t l = record {
  devices = l.devices;
  tasks = l.tasks;
  terminals = l.terminals;
  todos = l.todos;
  logs = l.logs;
}

-- An update whose patch sets nothing only reads.
unless_empty :
    {R : Type 0} (b : Bool) (db : Database) (r : R) (done : Database × R)
    → Linked db
    → Linked done.0
    → Linked (if b then (db, r) else done).0
unless_empty true db r done l m = l
unless_empty false db r done l m = m

execute-Linked : (db : Database) (s : Statement) → Linked db → Linked (execute db s)
unfolding execute Devices.revoke Devices.touch_last_seen Tasks.update Terminals.update
    Terminals.update_status Terminals.set_last_seq Todos.update delete_before delete_by_terminal
    Settings.set Settings.remove
execute-Linked db (add_device id user name platform token now) l =
    device_create db id user name platform token now l
execute-Linked db (revoke_device id) l =
    device_change (λ d. record d { revoked = true }) db id (λ d. refl) l
execute-Linked db (remove_device id) l = device_remove db id l
execute-Linked db (touch_device id now) l =
    device_change (λ d. record d { last_seen_at = now }) db id (λ d. refl) l
execute-Linked db (add_task id user c now) l = task_create db id user c now l
execute-Linked db (update_task id p now) l =
    unless_empty (Tasks.empty_patch p) db _ _ l
      (task_update (Tasks.apply_patch p now) db id (λ t. refl) l)
execute-Linked db (remove_task id) l = Linked-remove_task db id l
execute-Linked db (add_terminal id user c now) l = terminal_create db id user c now l
execute-Linked db (update_terminal id p now) l =
    unless_empty (Terminals.empty_patch p) db _ _ l
      (terminal_update (Terminals.apply_patch p now) db id (λ t. refl) l)
execute-Linked db (end_terminal id status code now) l =
    terminal_touch (λ t. record t { status = status; exit_code = code; updated_at = now }) db id
      (λ t. (refl, refl)) l
execute-Linked db (advance_terminal id seq now) l =
    terminal_touch (λ t. record t { last_seq = seq; last_active_at = now; updated_at = now }) db id
      (λ t. (refl, refl)) l
execute-Linked db (crash_terminals now) l = terminal_crash db now l
execute-Linked db (remove_terminal id) l = Linked-remove_terminal db id l
execute-Linked db (add_todo id user c now) l = todo_create db id user c now l
execute-Linked db (update_todo id p now) l =
    unless_empty (Todos.empty_patch p) db _ _ l
      (todo_update (Todos.apply_patch p now) db id (λ t. refl) l)
execute-Linked db (remove_todo id) l = todo_remove db id l
execute-Linked db (add_chunk id r) l = chunk_add db id r l
execute-Linked db (drop_chunks_before id cutoff) l =
    chunks_drop (λ r. ltb r.created_at cutoff) db id l
execute-Linked db (drop_chunks id) l = chunks_drop (λ r. true) db id l
execute-Linked db (set_setting key value) l = settings_to db _ l
execute-Linked db (remove_setting key) l = settings_to db _ l

-- Whatever statements the repositories run, in any order and with success or not, no row is left with a
-- reference to a row that is not there, if there was none at the start: devices, tasks, terminals and todos
-- have their user, tasks and terminals that are named exist or have been cleared by the removal, and
-- there are no log chunks of a terminal that is gone.
pub execute_all-Linked :
    (db : Database) (ss : List Statement) → Linked db → Linked (execute_all db ss)
unfolding execute_all
execute_all-Linked db [] l = l
execute_all-Linked db (s ∷ ss) l = execute_all-Linked (execute db s) ss (execute-Linked db s l)
