-- ===== src/Store/Links/Kept.antt =====
-- Statements keep the references between the tables whole (daemon/internal/repository).
use shell_sync.Base.{
  string_key, ◌≡◌, refl, sym, subst, ◌∙◌, true, false, String, List, ◌==◌, All, Bool-cases, inl,
  inr,
}
use shell_sync.Base.Dict.{Dict, insert, delete}
use shell_sync.Log.{Row}
use shell_sync.Store.{
  Database, Device, Task, Terminal, Todo, rows_of, has_key, refers, update_where,
}
use shell_sync.Store.Rows.{All-insert, All-delete, All-weaken, All-update_where}
use shell_sync.Store.Keys.{
  has_key-insert, has_key-delete, has_key-update_where, refers-grows, refers-delete,
  has_key-insert_other, has_key-delete_self, has_key-delete_other,
}
use shell_sync.Store.Tasks
use shell_sync.Store.Terminals
use shell_sync.Store.Links.{Linked, TerminalOk, TodoOk}

-- A new or changed device.
pub device_set :
    (db : Database) (id : String) (v : Device)
    → has_key v.user_id db.users ≡ true
    → Linked db
    → Linked (record db { devices = insert id v db.devices })
device_set db id v ok l = record {
  devices =
      All-insert (λ (d : Device). has_key d.user_id db.users ≡ true) id v db.devices ok l.devices;
  tasks = l.tasks;
  terminals = l.terminals;
  todos = l.todos;
  logs = l.logs;
}

pub task_set :
    (db : Database) (id : String) (v : Task)
    → has_key v.user_id db.users ≡ true
    → Linked db
    → Linked (record db { tasks = insert id v db.tasks })
task_set db id v ok l = record {
  devices = l.devices;
  tasks = All-insert (λ (t : Task). has_key t.user_id db.users ≡ true) id v db.tasks ok l.tasks;
  terminals =
      All-weaken (TerminalOk db.users db.tasks) (TerminalOk db.users tasks1)
        (λ t (u, r). (u, grown t.task_id r)) (rows_of db.terminals) l.terminals;
  todos =
      All-weaken (TodoOk db.users db.tasks db.terminals) (TodoOk db.users tasks1 db.terminals)
        (λ t (u, r, s). (u, grown t.task_id r, s)) (rows_of db.todos) l.todos;
  logs = l.logs;
}
  where
    tasks1 : Dict String Task
    tasks1 = insert id v db.tasks

    grown : (j : String) → refers j db.tasks ≡ true → refers j tasks1 ≡ true
    grown j = refers-grows j db.tasks tasks1 (λ k. has_key-insert k id v db.tasks)

-- Terminals that keep their references, in a table that keeps its keys.
pub terminals_to :
    (db : Database) (t' : Dict String Terminal)
    → ((k : String) → has_key k db.terminals ≡ true → has_key k t' ≡ true)
    → All (TerminalOk db.users db.tasks) (rows_of t')
    → Linked db
    → Linked (record db { terminals = t' })
terminals_to db t' grows ok l = record {
  devices = l.devices;
  tasks = l.tasks;
  terminals = ok;
  todos =
      All-weaken (TodoOk db.users db.tasks db.terminals) (TodoOk db.users db.tasks t')
        (λ t (u, r, s). (u, r, refers-grows t.terminal_id db.terminals t' grows s))
        (rows_of db.todos) l.todos;
  logs = λ id h. grows id (l.logs id h);
}

pub terminal_set :
    (db : Database) (id : String) (v : Terminal)
    → TerminalOk db.users db.tasks v
    → Linked db
    → Linked (record db { terminals = insert id v db.terminals })
terminal_set db id v ok l =
    terminals_to db (insert id v db.terminals) (λ k. has_key-insert k id v db.terminals)
      (All-insert (TerminalOk db.users db.tasks) id v db.terminals ok l.terminals) l

pub todo_set :
    (db : Database) (id : String) (v : Todo)
    → TodoOk db.users db.tasks db.terminals v
    → Linked db
    → Linked (record db { todos = insert id v db.todos })
todo_set db id v ok l = record {
  devices = l.devices;
  tasks = l.tasks;
  terminals = l.terminals;
  todos = All-insert (TodoOk db.users db.tasks db.terminals) id v db.todos ok l.todos;
  logs = l.logs;
}

pub logs_set :
    (db : Database) (id : String) (rs : List Row)
    → has_key id db.terminals ≡ true
    → Linked db
    → Linked (record db { logs = insert id rs db.logs })
logs_set db id rs known l = record {
  devices = l.devices;
  tasks = l.tasks;
  terminals = l.terminals;
  todos = l.todos;
  logs = λ j h. elim (Bool-cases (id == j)) [
    | inl e ↦
        subst (λ (k : String). has_key k db.terminals ≡ true) ((string_key.same_iff id j).0 e) known
    | inr e ↦ l.logs j (has_key-insert_other j id rs db.logs e h)
  ];
}

pub Linked-remove_task : (db : Database) (id : String) → Linked db → Linked (Tasks.remove db id).0
unfolding Tasks.remove
Linked-remove_task db id l = elim (Bool-cases (has_key id db.tasks)) [
  | inl e ↦ rw e (record {
    devices = l.devices;
    tasks = All-delete (λ (t : Task). has_key t.user_id db.users ≡ true) id db.tasks l.tasks;
    terminals =
        All-update_where (TerminalOk db.users db.tasks) (TerminalOk db.users (delete id db.tasks))
          (λ t. t.task_id == id) (λ t. record t { task_id = "" }) db.terminals
          (λ t (u, r) e. (u, refl)) (λ t (u, r) e. (u, refers-delete t.task_id id db.tasks e r))
          l.terminals;
    todos =
        All-update_where (TodoOk db.users db.tasks db.terminals)
          (TodoOk db.users (delete id db.tasks) terminals1) (λ t. t.task_id == id)
          (λ t. record t { task_id = "" }) db.todos
          (λ t (u, r, s) e. (u, refl, still t.terminal_id s))
          (λ t (u, r, s) e. (u, refers-delete t.task_id id db.tasks e r, still t.terminal_id s))
          l.todos;
    logs = λ j h. keeps j (l.logs j h);
  })
  | inr e ↦ rw e l
]
  where
    terminals1 : Dict String Terminal
    terminals1 =
        update_where (λ (t : Terminal). t.task_id == id) (λ t. record t { task_id = "" })
          db.terminals

    keeps : (j : String) → has_key j db.terminals ≡ true → has_key j terminals1 ≡ true
    keeps j =
        has_key-update_where j (λ (t : Terminal). t.task_id == id) (λ t. record t { task_id = "" })
          db.terminals

    still : (j : String) → refers j db.terminals ≡ true → refers j terminals1 ≡ true
    still j = refers-grows j db.terminals terminals1 keeps

pub Linked-remove_terminal :
    (db : Database) (id : String) → Linked db → Linked (Terminals.remove db id).0
unfolding Terminals.remove
Linked-remove_terminal db id l = elim (Bool-cases (has_key id db.terminals)) [
  | inl e ↦ rw e (record {
    devices = l.devices;
    tasks = l.tasks;
    terminals = All-delete (TerminalOk db.users db.tasks) id db.terminals l.terminals;
    todos =
        All-update_where (TodoOk db.users db.tasks db.terminals)
          (TodoOk db.users db.tasks (delete id db.terminals)) (λ t. t.terminal_id == id)
          (λ t. record t { terminal_id = "" }) db.todos (λ t (u, r, s) e. (u, r, refl))
          (λ t (u, r, s) e. (u, r, refers-delete t.terminal_id id db.terminals e s)) l.todos;
    logs = λ j h. elim (Bool-cases (id == j)) [
      | inl e ↦ absurd (clash (sym (has_key-delete_self j id db.logs e) ∙ h))
      | inr e ↦
          has_key-delete j id db.terminals (l.logs j (has_key-delete_other j id db.logs e h)) e
    ];
  })
  | inr e ↦ rw e l
]
  where
    clash : false ≡ true → ⊥
    clash h = cc
