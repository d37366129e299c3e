-- ===== src/Service/Requests.antt =====
-- The requests that reach the services, and what each is answered (daemon/internal/service).
use shell_sync.Base.{ℕ, Bool, true, false, String, List, [], ◌∷◌, if◌then◌else◌}
use shell_sync.Base.Dict.{Dict}
use shell_sync.Store.{Database}
use shell_sync.Store.Tasks.{TaskCreate, TaskPatch}
use shell_sync.Store.Todos.{TodoCreate, TodoPatch}
use shell_sync.Store.Terminals.{TerminalPatch}
use shell_sync.Store.Settings
use shell_sync.Service.{State, Reply, accepted, refused, invalid_transition}
use shell_sync.Service.Task
use shell_sync.Service.Todo
use shell_sync.Service.Device
use shell_sync.Service.Terminal

-- A request with the new id and the time that it uses, and, for the settings, with what their writes meet: whether the
-- write of the key succeeds, or which keys of a patch the database takes.
pub data Request : Type 0 where
  create_task : String → String → TaskCreate → ℕ → Request
  update_task : String → TaskPatch → ℕ → Request
  delete_task : String → Request
  create_todo : String → String → TodoCreate → ℕ → Request
  update_todo : String → TodoPatch → ℕ → Request
  delete_todo : String → Request
  update_terminal : String → TerminalPatch → ℕ → Request
  revoke_device delete_device : String → Request
  set_setting : String → String → Bool → Request
  delete_setting : String → Bool → Request
  patch_settings : (String → Bool) → Dict String String → Request

pub data Answer : Type 0 where
  fine error : Answer

abbrev pub answer {ℓ} : {A : Type ℓ} → State × Reply A → State × Answer
answer (s, accepted x) = (s, fine)
answer (s, refused f) = (s, error)
answer (s, invalid_transition) = (s, error)

abbrev pub patched : State → Database × Bool → State × Answer
patched s (db, true) = (record s { db = db }, fine)
patched s (db, false) = (record s { db = db }, error)

unfoldable pub handle : State → Request → State × Answer
handle s (create_task id user c now) = answer (Task.create s id user c now)
handle s (update_task id p now) = answer (Task.update s id p now)
handle s (delete_task id) = answer (Task.remove s id)
handle s (create_todo id user c now) = answer (Todo.create s id user c now)
handle s (update_todo id p now) = answer (Todo.update s id p now)
handle s (delete_todo id) = answer (Todo.remove s id)
handle s (update_terminal id p now) = answer (Terminal.update s id p now)
handle s (revoke_device id) = answer (Device.revoke s id)
handle s (delete_device id) = answer (Device.remove s id)
handle s (set_setting key value written) =
    if written then (record s { db = Settings.set s.db key value }, fine) else (s, error)
handle s (delete_setting key written) =
    if written then (record s { db = Settings.remove s.db key }, fine) else (s, error)
handle s (patch_settings accepts kv) = patched s (Settings.patch accepts s.db kv)

unfoldable pub serve : State → List Request → State
serve s [] = s
serve s (r ∷ rs) = serve (handle s r).0 rs
