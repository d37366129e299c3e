-- ===== src/Store/Todos.antt =====
-- daemon/internal/repository/todo_repo.go. The new id and the time are arguments.
use shell_sync.Base.{
  string_key, ℕ, Bool, ◌&&◌, ◌||◌, not, String, Option, none, some, List, ltb, leb, if◌then◌else◌,
  ◌==◌,
}
use shell_sync.Base.Order.{ℤ, pos, lebℤ, sort_by}
use shell_sync.Base.Dict.{lookup, insert, delete}
use shell_sync.Store.{
  Database, Todo, Result, Done, ok, failed, no_rows, constraint, required, found, select, has_key,
  refers, patched, absent, or_default,
}

pub record TodoFilter : Type 0 where
  pub task_id : String
  pub status : String

pub record TodoCreate : Type 0 where
  pub task_id : String
  pub terminal_id : String
  pub title : String
  pub content : String
  pub priority : ℤ
  pub status : String

pub record TodoPatch : Type 0 where
  pub title : Option String
  pub content : Option String
  pub status : Option String
  pub priority : Option ℤ
  pub task_id : Option String
  pub terminal_id : Option String
  pub sort_order : Option ℤ

-- ORDER BY sort_order ASC, created_at ASC
abbrev by_sort_order : Todo → Todo → Bool
by_sort_order a b =
    not (lebℤ b.sort_order a.sort_order)
    || (lebℤ a.sort_order b.sort_order && leb a.created_at b.created_at)

pub list : Database → String → TodoFilter → List Todo
list db user f = sort_by by_sort_order (
    select
      (λ t.
        t.user_id == user
        && (f.task_id == "" || t.task_id == f.task_id)
        && (f.status == "" || t.status == f.status))
      db.todos)

unfoldable pub get : Database → String → Result Todo
get db id = found (lookup id db.todos)

abbrev pub new_todo : String → String → TodoCreate → ℕ → Todo
new_todo id user c now = record {
  id = id;
  user_id = user;
  task_id = c.task_id;
  terminal_id = c.terminal_id;
  title = c.title;
  content = c.content;
  status = or_default c.status "pending";
  priority = c.priority;
  sort_order = pos 0;
  created_at = now;
  updated_at = now;
}

-- The two references of a todo name rows or are free.
abbrev pub refers_well : Database → String → String → Bool
refers_well db task_id terminal_id = refers task_id db.tasks && refers terminal_id db.terminals

unfoldable pub create : Database → String → String → TodoCreate → ℕ → Database × Result Todo
create db id user c now =
    if c.title == ""
    then (db, failed required)
    else if has_key id db.todos
        || not (has_key user db.users)
        || not (refers_well db c.task_id c.terminal_id)
    then (db, failed constraint)
    else (
      record db { todos = insert id (new_todo id user c now) db.todos },
      ok (new_todo id user c now),
    )

abbrev pub empty_patch : TodoPatch → Bool
empty_patch p =
    absent p.title
    && absent p.content
    && absent p.status
    && absent p.priority
    && absent p.task_id
    && absent p.terminal_id
    && absent p.sort_order

abbrev pub apply_patch : TodoPatch → ℕ → Todo → Todo
apply_patch p now t = record t {
  title = patched p.title t.title;
  content = patched p.content t.content;
  status = patched p.status t.status;
  priority = patched p.priority t.priority;
  task_id = patched p.task_id t.task_id;
  terminal_id = patched p.terminal_id t.terminal_id;
  sort_order = patched p.sort_order t.sort_order;
  updated_at = now;
}

-- The row is written unless one of its references would dangle.
unfoldable pub set_todo : (Todo → Todo) → Option Todo → Database → String → Database × Result Todo
set_todo f none db id = (db, failed no_rows)
set_todo f (some t) db id =
    if refers_well db (f t).task_id (f t).terminal_id
    then (record db { todos = insert id (f t) db.todos }, ok (f t))
    else (db, failed constraint)

unfoldable pub update : Database → String → TodoPatch → ℕ → Database × Result Todo
update db id p now =
    if empty_patch p
    then (db, get db id)
    else set_todo (apply_patch p now) (lookup id db.todos) db id

unfoldable pub remove : Database → String → Database × Done
remove db id =
    if has_key id db.todos
    then (record db { todos = delete id db.todos }, ok tt)
    else (db, failed no_rows)

pub list_by_task : Database → String → List Todo
list_by_task db task = sort_by by_sort_order (select (λ t. t.task_id == task) db.todos)

pub list_since : Database → String → ℕ → List Todo
list_since db user since =
    sort_by (λ a b. leb a.updated_at b.updated_at)
      (select (λ t. t.user_id == user && ltb since t.updated_at) db.todos)
