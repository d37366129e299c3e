-- ===== src/Store/Links/Runs.antt =====
-- Statements on devices, tasks and terminals keep the references between the tables whole (daemon/internal/repository).
use shell_sync.Base.{
  string_key, ℕ, ◌≡◌, refl, ap, ◌∙◌, Bool, true, false, ◌&&◌, ◌||◌, not, String, Option, none, some,
  ◌==◌, Bool-cases, inl, inr,
}
use shell_sync.Base.Dict.{lookup}
use shell_sync.Store.{Database, Device, Task, Terminal, has_key, refers, update_where}
use shell_sync.Store.Rows.{All-delete, All-lookup, All-update_where}
use shell_sync.Store.Keys.{has_key-update_where}
use shell_sync.Store.Devices
use shell_sync.Store.Tasks
use shell_sync.Store.Terminals
use shell_sync.Store.Links.Kept.{device_set, task_set, terminals_to, terminal_set}
use shell_sync.Store.Tasks.{TaskCreate, TaskPatch, new_task}
use shell_sync.Store.Terminals.{TerminalCreate, TerminalPatch, new_terminal}
use shell_sync.Store.Links.{Linked, TerminalOk}

pub and_true : (a b : Bool) → a && b ≡ true → (a ≡ true) × (b ≡ true)
and_true true b h = (refl, h)
and_true false b h = cc

pub both_false : (a b : Bool) → a || b ≡ false → (a ≡ false) × (b ≡ false)
both_false true b h = cc
both_false false b h = (refl, h)

pub three_false : (a b c : Bool) → a || b || c ≡ false → (b ≡ false) × (c ≡ false)
three_false true b c h = cc
three_false false true c h = cc
three_false false false c h = (refl, h)

pub not-false : (a : Bool) → not a ≡ false → a ≡ true
not-false true h = refl
not-false false h = cc

pub device_change :
    (f : Device → Device) (db : Database) (id : String)
    → ((d : Device) → (f d).user_id ≡ d.user_id)
    → Linked db
    → Linked (Devices.change f (lookup id db.devices) db id).0
device_change f db id keeps l = by_row (lookup id db.devices) refl
  where
    by_row : (o : Option Device) → lookup id db.devices ≡ o → Linked (Devices.change f o db id).0
    by_row none e = l
    by_row (some d) e =
        device_set db id (f d)
          (ap (λ (u : String). has_key u db.users) (keeps d)
            ∙ All-lookup (λ (d : Device). has_key d.user_id db.users ≡ true) id d db.devices e
                l.devices)
          l

pub device_create :
    (db : Database) (id user name platform token : String) (now : ℕ)
    → Linked db
    → Linked (Devices.create db id user name platform token now).0
unfolding Devices.create
device_create db id user name platform token now l =
    elim (Bool-cases (
      has_key id db.devices
      || Devices.token_used db.devices token
      || not (has_key user db.users))) [
        | inl e ↦ rw e l
        | inr e ↦ rw e (
            device_set db id (Devices.new_device id user name platform token now)
              (not-false (has_key user db.users)
                (three_false (has_key id db.devices) (Devices.token_used db.devices token)
                  (not (has_key user db.users)) e).1)
              l)
      ]

pub device_remove : (db : Database) (id : String) → Linked db → Linked (Devices.remove db id).0
unfolding Devices.remove
device_remove db id l = elim (Bool-cases (has_key id db.devices)) [
  | inl e ↦ rw e (record {
    devices =
        All-delete (λ (d : Device). has_key d.user_id db.users ≡ true) id db.devices l.devices;
    tasks = l.tasks;
    terminals = l.terminals;
    todos = l.todos;
    logs = l.logs;
  })
  | inr e ↦ rw e l
]

pub task_create :
    (db : Database) (id user : String) (c : TaskCreate) (now : ℕ)
    → Linked db
    → Linked (Tasks.create db id user c now).0
unfolding Tasks.create
task_create db id user c now l = elim (Bool-cases (c.name == "")) [
  | inl e ↦ rw e l
  | inr e ↦ rw e (elim (Bool-cases (has_key id db.tasks || not (has_key user db.users))) [
    | inl e ↦ rw e l
    | inr e ↦ rw e (
        task_set db id (new_task id user c now)
          (not-false (has_key user db.users)
            (both_false (has_key id db.tasks) (not (has_key user db.users)) e).1)
          l)
  ])
]

pub task_update :
    (f : Task → Task) (db : Database) (id : String)
    → ((t : Task) → (f t).user_id ≡ t.user_id)
    → Linked db
    → Linked (Tasks.set_task f (lookup id db.tasks) db id).0
task_update f db id keeps l = by_row (lookup id db.tasks) refl
  where
    by_row : (o : Option Task) → lookup id db.tasks ≡ o → Linked (Tasks.set_task f o db id).0
    by_row none e = l
    by_row (some t) e =
        task_set db id (f t)
          (ap (λ (u : String). has_key u db.users) (keeps t)
            ∙ All-lookup (λ (t : Task). has_key t.user_id db.users ≡ true) id t db.tasks e l.tasks)
          l

pub terminal_create :
    (db : Database) (id user : String) (c : TerminalCreate) (now : ℕ)
    → Linked db
    → Linked (Terminals.create db id user c now).0
unfolding Terminals.create
terminal_create db id user c now l = elim (Bool-cases (c.shell_type == "")) [
  | inl e ↦ rw e l
  | inr e ↦
      rw e
        (elim (Bool-cases (
          has_key id db.terminals
          || not (has_key user db.users)
          || not (refers c.task_id db.tasks))) [
            | inl e ↦ rw e l
            | inr e ↦
                let (u, r) =
                  three_false (has_key id db.terminals) (not (has_key user db.users))
                    (not (refers c.task_id db.tasks)) e in
                rw e (
                  terminal_set db id (new_terminal id user c now)
                    (not-false (has_key user db.users) u, not-false (refers c.task_id db.tasks) r)
                    l)
          ])
]

-- A change of a terminal that keeps its references.
pub terminal_touch :
    (f : Terminal → Terminal) (db : Database) (id : String)
    → ((t : Terminal) → ((f t).user_id ≡ t.user_id) × ((f t).task_id ≡ t.task_id))
    → Linked db
    → Linked (Terminals.touch f (lookup id db.terminals) db id).0
terminal_touch f db id keeps l = by_row (lookup id db.terminals) refl
  where
    by_row :
        (o : Option Terminal) → lookup id db.terminals ≡ o → Linked (Terminals.touch f o db id).0
    by_row none e = l
    by_row (some t) e =
        let (u, r) = All-lookup (TerminalOk db.users db.tasks) id t db.terminals e l.terminals in
        terminal_set db id (f t)
          (
            ap (λ (x : String). has_key x db.users) (keeps t).0 ∙ u,
            ap (λ (x : String). refers x db.tasks) (keeps t).1 ∙ r,
          )
          l

pub terminal_update :
    (f : Terminal → Terminal) (db : Database) (id : String)
    → ((t : Terminal) → (f t).user_id ≡ t.user_id)
    → Linked db
    → Linked (Terminals.set_terminal f (lookup id db.terminals) db id).0
unfolding Terminals.set_terminal
terminal_update f db id keeps l = by_row (lookup id db.terminals) refl
  where
    by_row :
        (o : Option Terminal)
        → lookup id db.terminals ≡ o
        → Linked (Terminals.set_terminal f o db id).0
    by_row none e = l
    by_row (some t) e =
        let (u, r) = All-lookup (TerminalOk db.users db.tasks) id t db.terminals e l.terminals in
        elim (Bool-cases (refers (f t).task_id db.tasks)) [
          | inl y ↦ rw y (
              terminal_set db id (f t) (ap (λ (x : String). has_key x db.users) (keeps t) ∙ u, y) l)
          | inr n ↦ rw n l
        ]

pub terminal_crash :
    (db : Database) (now : ℕ) → Linked db → Linked (Terminals.mark_running_as_crashed db now).0
unfolding Terminals.mark_running_as_crashed
terminal_crash db now l =
    terminals_to db (update_where test f db.terminals)
      (λ k. has_key-update_where k test f db.terminals)
      (All-update_where (TerminalOk db.users db.tasks) (TerminalOk db.users db.tasks) test f
        db.terminals (λ t ok e. ok) (λ t ok e. ok) l.terminals)
      l
  where
    test : Terminal → Bool
    test = λ t. t.status == "running"

    f : Terminal → Terminal
    f = λ t. record t { status = "crashed"; updated_at = now }
