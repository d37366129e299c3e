-- ===== src/Service/Task.antt =====
-- daemon/internal/service/task.go.
use shell_sync.Base.{
  string_key, ℕ, Bool, false, ◌||◌, String, Option, none, some, List, if◌then◌else◌, ◌==◌,
}
use shell_sync.Store.{Result, ok, failed}
use shell_sync.Store.Tasks
use shell_sync.Store.Tasks.{TaskCreate, TaskPatch, TaskFilter}
use shell_sync.Service.{
  State, Reply, refused, invalid_transition, committed, task_event, delete_event,
}

-- allowedTaskStatus
unfoldable pub allowed : String → String → Bool
allowed from to =
    if from == "pending"
    then to == "running" || to == "done"
    else if from == "running"
    then to == "paused" || to == "done" || to == "running"
    else if from == "paused"
    then to == "running" || to == "done"
    else if from == "done"
    then to == "running"
    else false

unfoldable pub create :
    State → String → String → TaskCreate → ℕ → State × Reply shell_sync.Store.Task
create s id user c now = committed (task_event "created") s (Tasks.create s.db id user c now)

pub get : State → String → Result shell_sync.Store.Task
get s id = Tasks.get s.db id

pub list : State → String → TaskFilter → List shell_sync.Store.Task
list s user f = Tasks.list s.db user f

-- The check of a new status, and the update behind it.
unfoldable pub guarded :
    Option String
    → Result shell_sync.Store.Task
    → State
    → String
    → TaskPatch
    → ℕ
    → State × Reply shell_sync.Store.Task
guarded none cur s id p now = committed (task_event "updated") s (Tasks.update s.db id p now)
guarded (some to) (failed f) s id p now = (s, refused f)
guarded (some to) (ok cur) s id p now =
    if allowed cur.status to
    then committed (task_event "updated") s (Tasks.update s.db id p now)
    else (s, invalid_transition)

unfoldable pub update : State → String → TaskPatch → ℕ → State × Reply shell_sync.Store.Task
update s id p now = guarded p.status (Tasks.get s.db id) s id p now

unfoldable pub remove : State → String → State × Reply (Unit {0})
remove s id = committed (λ done. delete_event "task" id) s (Tasks.remove s.db id)

pub count : State → String → ℕ
count s user = Tasks.count s.db user
