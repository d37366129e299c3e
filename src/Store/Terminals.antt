-- ===== src/Store/Terminals.antt =====
-- daemon/internal/repository/terminal_repo.go. The new id and the time are arguments.
use shell_sync.Base.{
  string_key, ℕ, Bool, ◌&&◌, ◌||◌, not, String, Option, none, some, List, length, ltb, leb, nat_eqb,
  if◌then◌else◌, ◌==◌,
}
use shell_sync.Base.Order.{ℤ, pos, negsuc, sort_by}
use shell_sync.Base.Dict.{lookup, insert, delete}
use shell_sync.Store.{
  Database, Terminal, Result, Done, ok, failed, no_rows, constraint, required, found, select,
  has_key, refers, patched, absent, or_default, update_where,
}

pub record TerminalFilter : Type 0 where
  pub task_id : String
  pub status : String

pub record TerminalCreate : Type 0 where
  pub task_id : String
  pub name : String
  pub shell_type : String
  pub cwd : String
  pub cols : ℤ
  pub rows : ℤ
  pub env : String
  pub status : String

pub record TerminalPatch : Type 0 where
  pub name : Option String
  pub task_id : Option String

pub list : Database → String → TerminalFilter → List Terminal
list db user f =
    sort_by (λ a b. leb b.last_active_at a.last_active_at)
      (select
        (λ t.
          t.user_id == user
          && (f.task_id == "" || t.task_id == f.task_id)
          && (f.status == "" || t.status == f.status))
        db.terminals)

unfoldable pub get : Database → String → Result Terminal
get db id = found (lookup id db.terminals)

-- Only zero is replaced: a negative size is stored.
abbrev or_size : ℤ → ℕ → ℤ
or_size (pos n) default = if nat_eqb n 0 then pos default else pos n
or_size (negsuc n) default = negsuc n

abbrev pub new_terminal : String → String → TerminalCreate → ℕ → Terminal
new_terminal id user c now = record {
  id = id;
  user_id = user;
  task_id = c.task_id;
  name = or_default c.name "Terminal";
  shell_type = c.shell_type;
  cwd = c.cwd;
  cols = or_size c.cols 80;
  rows = or_size c.rows 24;
  env = c.env;
  status = or_default c.status "running";
  exit_code = none;
  last_seq = 0;
  created_at = now;
  last_active_at = now;
  updated_at = now;
}

unfoldable pub create : Database → String → String → TerminalCreate → ℕ → Database × Result Terminal
create db id user c now =
    if c.shell_type == ""
    then (db, failed required)
    else if has_key id db.terminals
        || not (has_key user db.users)
        || not (refers c.task_id db.tasks)
    then (db, failed constraint)
    else (
      record db { terminals = insert id (new_terminal id user c now) db.terminals },
      ok (new_terminal id user c now),
    )

abbrev pub apply_patch : TerminalPatch → ℕ → Terminal → Terminal
apply_patch p now t = record t {
  name = patched p.name t.name;
  task_id = patched p.task_id t.task_id;
  updated_at = now;
}

-- The row is written unless its reference would dangle.
unfoldable pub set_terminal :
    (Terminal → Terminal) → Option Terminal → Database → String → Database × Result Terminal
set_terminal f none db id = (db, failed no_rows)
set_terminal f (some t) db id =
    if refers (f t).task_id db.tasks
    then (record db { terminals = insert id (f t) db.terminals }, ok (f t))
    else (db, failed constraint)

abbrev pub empty_patch : TerminalPatch → Bool
empty_patch p = absent p.name && absent p.task_id

unfoldable pub update : Database → String → TerminalPatch → ℕ → Database × Result Terminal
update db id p now =
    if empty_patch p
    then (db, get db id)
    else set_terminal (apply_patch p now) (lookup id db.terminals) db id

-- Statements that leave the references as they are.
abbrev pub touch : (Terminal → Terminal) → Option Terminal → Database → String → Database × Done
touch f none db id = (db, failed no_rows)
touch f (some t) db id = (record db { terminals = insert id (f t) db.terminals }, ok tt)

unfoldable pub update_status : Database → String → String → Option ℤ → ℕ → Database × Done
update_status db id status exit_code now =
    touch (λ t. record t { status = status; exit_code = exit_code; updated_at = now })
      (lookup id db.terminals) db id

unfoldable pub set_last_seq : Database → String → ℕ → ℕ → Database
set_last_seq db id seq now =
    (touch (λ t. record t { last_seq = seq; last_active_at = now; updated_at = now })
      (lookup id db.terminals) db id).0

-- ON DELETE CASCADE of the log, ON DELETE SET NULL of todos.terminal_id.
unfoldable pub remove : Database → String → Database × Done
remove db id =
    if has_key id db.terminals
    then (
      record db {
        terminals = delete id db.terminals;
        logs = delete id db.logs;
        todos =
            update_where (λ t. t.terminal_id == id) (λ t. record t { terminal_id = "" }) db.todos;
      },
      ok tt,
    )
    else (db, failed no_rows)

pub list_by_task : Database → String → List Terminal
list_by_task db task =
    sort_by (λ a b. leb a.created_at b.created_at) (select (λ t. t.task_id == task) db.terminals)

pub list_since : Database → String → ℕ → List Terminal
list_since db user since =
    sort_by (λ a b. leb a.updated_at b.updated_at)
      (select (λ t. t.user_id == user && ltb since t.updated_at) db.terminals)

-- MarkRunningAsCrashed, with the number of rows that it changed.
unfoldable pub mark_running_as_crashed : Database → ℕ → Database × ℕ
mark_running_as_crashed db now = (
  record db {
    terminals =
        update_where (λ t. t.status == "running")
          (λ t. record t { status = "crashed"; updated_at = now }) db.terminals;
  },
  length (select (λ t. t.status == "running") db.terminals),
)
