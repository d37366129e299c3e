-- ===== src/Store/Tests.antt =====
-- Runs of statements over the tables.
use shell_sync.Base.{string_key, ◌≡◌, refl, String, List, [], ◌∷◌}
use shell_sync.Base.Order.{pos}
use shell_sync.Base.Dict.{lookup, insert, delete}
use shell_sync.Log.{Row, stdout}
use shell_sync.Store.{Database, Task, Terminal, Todo, empty_db, has_key, update_where}
use shell_sync.Store.Tasks.{TaskCreate}
use shell_sync.Store.Terminals.{TerminalCreate}
use shell_sync.Store.Todos.{TodoCreate, set_todo}
use shell_sync.Store.Logs.{append_chunk}
use shell_sync.Store.Links.{
  Statement, add_task, add_terminal, add_todo, add_chunk, remove_task, remove_terminal, execute,
  execute_all, Linked,
}
use shell_sync.Store.Links.Whole.{execute_all-Linked}

abbrev one_user : Database
one_user = record empty_db { users = ("u", "Local") ∷ [] }

abbrev work : TaskCreate
work = record { name = "work"; description = ""; color = ""; status = "" }

abbrev shell : TerminalCreate
shell = record {
  task_id = "k1";
  name = "";
  shell_type = "bash";
  cwd = "";
  cols = pos 0;
  rows = pos 0;
  env = "";
  status = "";
}

abbrev note : TodoCreate
note = record {
  task_id = "k1";
  terminal_id = "m1";
  title = "look";
  content = "";
  priority = pos 0;
  status = "";
}

abbrev chunk : Row
chunk = record { seq = 1; direction = stdout; content_b64 = "aGk="; created_at = 4 }

abbrev filled : List Statement
filled =
    add_task "k1" "u" work 1
    ∷ add_terminal "m1" "u" shell 2
    ∷ add_todo "o1" "u" note 3
    ∷ add_chunk "m1" chunk
    ∷ add_chunk "m9" chunk
    ∷ []

abbrev emptied : List Statement
emptied = remove_terminal "m1" ∷ remove_task "k1" ∷ []

Linked-one_user : Linked one_user
unfolding lookup
Linked-one_user = record { devices = tt; tasks = tt; terminals = tt; todos = tt; logs = λ id h. cc }

execute_all-Linked_example : Linked (execute_all (execute_all one_user filled) emptied)
execute_all-Linked_example =
    execute_all-Linked (execute_all one_user filled) emptied
      (execute_all-Linked one_user filled Linked-one_user)

-- A chunk of a terminal that does not exist is refused, the other is stored.
only_known : (execute_all one_user filled).logs ≡ ("m1", chunk ∷ []) ∷ []
unfolding execute_all execute shell_sync.Store.Tasks.create shell_sync.Store.Terminals.create
    shell_sync.Store.Todos.create append_chunk lookup insert
only_known = refl

-- The todo loses both references with the rows.
abbrev references : Database → List (String × String)
references db = elim (shell_sync.Store.rows_of db.todos) [
  | [] ↦ []
  | t ∷ ts ↦ (t.task_id, t.terminal_id) ∷ []
]

references_before : references (execute_all one_user filled) ≡ ("k1", "m1") ∷ []
unfolding execute_all execute shell_sync.Store.Tasks.create shell_sync.Store.Terminals.create
    shell_sync.Store.Todos.create append_chunk lookup insert
references_before = refl

references_after : references (execute_all (execute_all one_user filled) emptied) ≡ ("", "") ∷ []
unfolding execute_all execute shell_sync.Store.Tasks.create shell_sync.Store.Terminals.create
    shell_sync.Store.Todos.create append_chunk lookup insert shell_sync.Store.Tasks.remove
    shell_sync.Store.Terminals.remove update_where delete
references_after = refl
