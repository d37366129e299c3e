-- ===== src/Service/Todo.antt =====
-- daemon/internal/service/todo.go.
use shell_sync.Base.{ℕ, String, List}
use shell_sync.Store.{Result}
use shell_sync.Store.Todos
use shell_sync.Store.Todos.{TodoCreate, TodoPatch, TodoFilter}
use shell_sync.Service.{State, Reply, committed, todo_event, delete_event}

unfoldable pub create :
    State → String → String → TodoCreate → ℕ → State × Reply shell_sync.Store.Todo
create s id user c now = committed (todo_event "created") s (Todos.create s.db id user c now)

pub get : State → String → Result shell_sync.Store.Todo
get s id = Todos.get s.db id

pub list : State → String → TodoFilter → List shell_sync.Store.Todo
list s user f = Todos.list s.db user f

unfoldable pub update : State → String → TodoPatch → ℕ → State × Reply shell_sync.Store.Todo
update s id p now = committed (todo_event "updated") s (Todos.update s.db id p now)

unfoldable pub remove : State → String → State × Reply (Unit {0})
remove s id = committed (λ done. delete_event "todo" id) s (Todos.remove s.db id)
