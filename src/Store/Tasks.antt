-- ===== src/Store/Tasks.antt =====
-- daemon/internal/repository/task_repo.go. The new id and the time are arguments.
use shell_sync.Base.{
  string_key, ℕ, Bool, true, false, ◌&&◌, ◌||◌, not, String, Option, none, some, List, length, ltb,
  leb, if◌then◌else◌, ◌==◌,
}
use shell_sync.Base.Order.{sort_by}
use shell_sync.Base.Dict.{lookup, insert, delete}
use shell_sync.Store.{
  Database, Task, Result, Done, ok, failed, no_rows, constraint, required, found, select, has_key,
  patched, absent, or_default, update_where,
}

pub record TaskFilter : Type 0 where
  pub status : String
  pub archived : Option Bool

pub record TaskCreate : Type 0 where
  pub name : String
  pub description : String
  pub color : String
  pub status : String

pub record TaskPatch : Type 0 where
  pub name : Option String
  pub description : Option String
  pub status : Option String
  pub color : Option String
  pub archived : Option Bool

abbrev same_bool : Bool → Bool → Bool
same_bool true b = b
same_bool false b = not b

abbrev matches : String → TaskFilter → Task → Bool
matches user f t =
    t.user_id == user
    && (f.status == "" || t.status == f.status)
    && (elim (f.archived) [ none ↦ true | some a ↦ same_bool t.archived a ])

-- List, newest first.
pub list : Database → String → TaskFilter → List Task
list db user f = sort_by (λ a b. leb b.updated_at a.updated_at) (select (matches user f) db.tasks)

unfoldable pub get : Database → String → Result Task
get db id = found (lookup id db.tasks)

abbrev pub new_task : String → String → TaskCreate → ℕ → Task
new_task id user c now = record {
  id = id;
  user_id = user;
  name = c.name;
  description = c.description;
  status = or_default c.status "pending";
  color = c.color;
  archived = false;
  created_at = now;
  updated_at = now;
}

unfoldable pub create : Database → String → String → TaskCreate → ℕ → Database × Result Task
create db id user c now =
    if c.name == ""
    then (db, failed required)
    else if has_key id db.tasks || not (has_key user db.users)
    then (db, failed constraint)
    else (
      record db { tasks = insert id (new_task id user c now) db.tasks },
      ok (new_task id user c now),
    )

-- Whether the patch sets no column.
abbrev pub empty_patch : TaskPatch → Bool
empty_patch p =
    absent p.name && absent p.description && absent p.status && absent p.color && absent p.archived

abbrev pub apply_patch : TaskPatch → ℕ → Task → Task
apply_patch p now t = record t {
  name = patched p.name t.name;
  description = patched p.description t.description;
  status = patched p.status t.status;
  color = patched p.color t.color;
  archived = patched p.archived t.archived;
  updated_at = now;
}

abbrev pub set_task : (Task → Task) → Option Task → Database → String → Database × Result Task
set_task f none db id = (db, failed no_rows)
set_task f (some t) db id = (record db { tasks = insert id (f t) db.tasks }, ok (f t))

unfoldable pub update : Database → String → TaskPatch → ℕ → Database × Result Task
update db id p now =
    if empty_patch p
    then (db, get db id)
    else set_task (apply_patch p now) (lookup id db.tasks) db id

-- ON DELETE SET NULL of terminals.task_id and todos.task_id.
unfoldable pub remove : Database → String → Database × Done
remove db id =
    if has_key id db.tasks
    then (
      record db {
        tasks = delete id db.tasks;
        terminals =
            update_where (λ t. t.task_id == id) (λ t. record t { task_id = "" }) db.terminals;
        todos = update_where (λ t. t.task_id == id) (λ t. record t { task_id = "" }) db.todos;
      },
      ok tt,
    )
    else (db, failed no_rows)

pub list_since : Database → String → ℕ → List Task
list_since db user since =
    sort_by (λ a b. leb a.updated_at b.updated_at)
      (select (λ t. t.user_id == user && ltb since t.updated_at) db.tasks)

pub count : Database → String → ℕ
count db user = length (select (λ t. t.user_id == user) db.tasks)
