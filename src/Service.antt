-- ===== src/Service.antt =====
-- daemon/internal/service: the state that the services share, and the events that they publish
-- (service.go). The bus is the list of what was published.
pub mod Task
pub mod Todo
pub mod Device
pub mod Terminal
pub mod Requests
pub mod Inert
pub mod Errors
pub mod Status
mod Tests
use shell_sync.Base.{String, Option, none, some, List, [], ◌∷◌, ◌++◌}
use shell_sync.Store.{Database, Failure}

pub data Payload : Type 0 where
  device_row : shell_sync.Store.Device → Payload
  task_row : shell_sync.Store.Task → Payload
  todo_row : shell_sync.Store.Todo → Payload
  terminal_row : shell_sync.Store.Terminal → Payload
  id_only : String → Payload

-- The type of an event is the entity, a dot and the action.
pub record Event : Type 0 where
  pub entity : String
  pub action : String
  pub payload : Payload

pub record State : Type 0 where
  pub db : Database
  pub published : List Event

abbrev pub task_event : String → shell_sync.Store.Task → Event
task_event action t = record { entity = "task"; action = action; payload = task_row t }

abbrev pub todo_event : String → shell_sync.Store.Todo → Event
todo_event action t = record { entity = "todo"; action = action; payload = todo_row t }

abbrev pub terminal_event : String → shell_sync.Store.Terminal → Event
terminal_event action t = record { entity = "terminal"; action = action; payload = terminal_row t }

abbrev pub device_event : String → shell_sync.Store.Device → Event
device_event action d = record { entity = "device"; action = action; payload = device_row d }

abbrev pub delete_event : String → String → Event
delete_event entity id = record { entity = entity; action = "deleted"; payload = id_only id }

-- What a service returns: a result, an error of the repository, or ErrInvalidTransition.
pub data Reply {ℓ} (A : Type ℓ) : Type ℓ where
  accepted : A → Reply A
  refused : Failure → Reply A
  invalid_transition : Reply A

-- Publish the event of a statement that worked; one that failed publishes nothing.
abbrev pub committed {ℓ} :
    {A : Type ℓ} → (A → Event) → State → Database × shell_sync.Store.Result A → State × Reply A
committed event s (db, shell_sync.Store.ok x) =
    (record { db = db; published = s.published ++ event x ∷ [] }, accepted x)
committed event s (db, shell_sync.Store.failed f) = (record s { db = db }, refused f)
