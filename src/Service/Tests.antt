-- ===== src/Service/Tests.antt =====
-- Requests to the services.
use shell_sync.Base.{
  string_key, ◌≡◌, refl, true, not, ◌==◌, String, Option, none, some, List, [], ◌∷◌,
}
use shell_sync.Base.Dict.{lookup, insert, ne_of_beq}
use shell_sync.Store.{Database, Task, empty_db}
use shell_sync.Store.Tasks.{TaskCreate, TaskPatch, new_task}
use shell_sync.Service.{State}
use shell_sync.Service.Task.{allowed}
use shell_sync.Service.Status.{Keeps}
use shell_sync.Service.Status.Runs.{unknown_status_stuck}
use shell_sync.Service.Errors.{handle-error, after_error, before_refused, with_entries}
use shell_sync.Service.Requests.{
  Request, create_task, update_task, set_setting, patch_settings, fine, error, handle, serve,
}

abbrev one_user : Database
one_user = record empty_db { users = ("u", "Local") ∷ [] }

abbrev start_state : State
start_state = record { db = one_user; published = [] }

abbrev work : TaskCreate
work = record { name = "work"; description = ""; color = ""; status = "" }

abbrev to_status : String → TaskPatch
to_status w = record {
  name = none;
  description = none;
  status = some w;
  color = none;
  archived = none;
}

abbrev with_task : State
with_task = record {
  db = record one_user { tasks = ("k1", new_task "k1" "u" work 1) ∷ [] };
  published = [];
}

created_fine : (handle start_state (create_task "k1" "u" work 1)).0.db.tasks ≡ with_task.db.tasks
unfolding handle shell_sync.Service.Task.create shell_sync.Store.Tasks.create lookup insert
created_fine = refl

skip_refused : (handle with_task (update_task "k1" (to_status "paused") 2)).1 ≡ error
unfolding handle shell_sync.Service.Task.update shell_sync.Service.Task.guarded
    shell_sync.Store.Tasks.get lookup allowed
skip_refused = refl

-- The second key is refused after the first was written.
abbrev half_patch : Request
half_patch =
    patch_settings (λ k. not (k == "font")) (("theme", "dark") ∷ ("font", "mono") ∷ ("x", "y") ∷ [])

half_refused : (handle with_task half_patch).1 ≡ error
unfolding handle shell_sync.Store.Settings.patch
half_refused = refl

handle-error_example : (handle with_task half_patch).0 ≡ record with_task {
  db = record (with_task.db) { settings = insert "theme" "dark" with_task.db.settings };
}
unfolding after_error before_refused with_entries
handle-error_example = handle-error with_task half_patch half_refused

abbrev busy : List Request
busy =
    update_task "k1" (to_status "running") 2
    ∷ update_task "k1" (to_status "pending") 3
    ∷ set_setting "theme" "dark" true
    ∷ update_task "k1" (to_status "paused") 4
    ∷ []

kept : Keeps "k1" busy
unfolding Keeps
kept = ((λ e. cc), ((λ e. cc), ((λ e. cc), ((λ e. cc), tt))))

abbrev status_of : Option Task → String
status_of none = "gone"
status_of (some t) = t.status

-- The request to go back to pending is refused, the others are served.
ends_paused : status_of (lookup "k1" (serve with_task busy).db.tasks) ≡ "paused"
unfolding serve handle shell_sync.Service.Task.update shell_sync.Service.Task.guarded
    shell_sync.Store.Tasks.get shell_sync.Store.Tasks.update lookup insert allowed
    shell_sync.Store.Settings.set
ends_paused = refl

abbrev odd : TaskCreate
odd = record { name = "odd"; description = ""; color = ""; status = "blocked" }

unknown_status_stuck_example :
    ((handle start_state (create_task "k1" "u" odd 1)).1 ≡ fine)
    × ((t : Task) × (lookup "k1" (serve start_state (create_task "k1" "u" odd 1 ∷ busy)).db.tasks
          ≡ some t)
        × (t.status ≡ "blocked"))
unfolding lookup
unknown_status_stuck_example =
    unknown_status_stuck "k1" "u" odd 1 start_state busy refl refl refl
      (ne_of_beq "blocked" "" refl)
      (
        ne_of_beq "blocked" "pending" refl,
        ne_of_beq "blocked" "running" refl,
        ne_of_beq "blocked" "paused" refl,
        ne_of_beq "blocked" "done" refl,
      )
      kept
