-- ===== src/Service/Status/Runs.antt =====
-- What becomes of a task over any list of requests (daemon/internal/service).
use shell_sync.Base.{
  string_key, ℕ, ◌≡◌, refl, sym, subst, ◌≢◌, true, false, String, some, List, [], ◌∷◌, ◌==◌, inl,
  inr,
}
use shell_sync.Base.Dict.{lookup, lookup-insert_self, beq_ne}
use shell_sync.Store.{Database, Result, Done, Failure, ok, failed, has_key, refers, or_default}
use shell_sync.Store.Tasks
use shell_sync.Store.Tasks.{TaskCreate, new_task}
use shell_sync.Service.{State, Event}
use shell_sync.Service.Task
use shell_sync.Service.Status.{
  start, skip, pause, finish, again, resume, give_up, reopen, Edge, Moves, stay, go, Keeps, Near,
}
use shell_sync.Service.Requests.{Request, fine, handle, serve, create_task}
use shell_sync.Service.Status.Tables.{Carried-handle}

one_move : (a b c : String) → Near a b → Moves b c → Moves a c
one_move a b c (inl e) m = subst (λ x. Moves x c) (sym e) m
one_move a b c (inr e) m = go e m

serve-Moves :
    (id : String) (s : State) (rs : List Request) (t : shell_sync.Store.Task)
    → lookup id s.db.tasks ≡ some t
    → Keeps id rs
    → (t' : shell_sync.Store.Task) × (lookup id (serve s rs).db.tasks ≡ some t')
      × Moves t.status t'.status
unfolding serve Keeps
serve-Moves id s [] t found k = (t, found, stay)
serve-Moves id s (r ∷ rs) t found (n, k) =
    let (x, there, m) = Carried-handle id s r n t found in
    let (y, later, m') = serve-Moves id (handle s r).0 rs x there k in
    (y, later, one_move t.status x.status y.status m m')

-- A word that is not one of the four.
abbrev OffDiagram : String → Type 0
OffDiagram w = (w ≢ "pending") × (w ≢ "running") × (w ≢ "paused") × (w ≢ "done")

no-Edge : (a b : String) → OffDiagram a → Edge a b → ⊥
no-Edge a b (p, r, u, d) start = p refl
no-Edge a b (p, r, u, d) skip = p refl
no-Edge a b (p, r, u, d) pause = r refl
no-Edge a b (p, r, u, d) finish = r refl
no-Edge a b (p, r, u, d) again = r refl
no-Edge a b (p, r, u, d) resume = u refl
no-Edge a b (p, r, u, d) give_up = u refl
no-Edge a b (p, r, u, d) reopen = d refl

stuck : (a b : String) → OffDiagram a → Moves a b → b ≡ a
stuck a b u stay = refl
stuck a b u (go {b = x} e m) = absurd (no-Edge a x u e)

created :
    (id user : String) (c : TaskCreate) (now : ℕ) (s : State)
    → (c.name == "") ≡ false
    → has_key id s.db.tasks ≡ false
    → has_key user s.db.users ≡ true
    → ((handle s (create_task id user c now)).1 ≡ fine)
      × (lookup id (handle s (create_task id user c now)).0.db.tasks
          ≡ some (new_task id user c now))
unfolding handle Task.create Tasks.create
created id user c now s named fresh known =
    rw (named, fresh, known) (refl, lookup-insert_self id (new_task id user c now) s.db.tasks)

-- The service answers fine to the creation of a task with a name, a new id and a known user, whatever word it
-- gives for the status. When the word is not empty and is none of pending, running, paused and done, the task
-- keeps it through every list of requests that does not delete the task.
pub unknown_status_stuck :
    (id user : String) (c : TaskCreate) (now : ℕ) (s : State) (rs : List Request)
    → (c.name == "") ≡ false
    → has_key id s.db.tasks ≡ false
    → has_key user s.db.users ≡ true
    → c.status ≢ ""
    → OffDiagram c.status
    → Keeps id rs
    → ((handle s (create_task id user c now)).1 ≡ fine)
      × ((t : shell_sync.Store.Task) × (lookup id
              (serve s (create_task id user c now ∷ rs)).db.tasks
            ≡ some t)
          × (t.status ≡ c.status))
unfolding serve
unknown_status_stuck id user c now s rs named fresh known filled u k =
    let word : or_default c.status "pending" ≡ c.status = rw (beq_ne c.status "" filled) refl in
    let (accepted_it, made) = created id user c now s named fresh known in
    let (t, there, m) =
      serve-Moves id (handle s (create_task id user c now)).0 rs (new_task id user c now) made k in
    (
      accepted_it,
      (t, there, stuck c.status t.status u (subst (λ (w : String). Moves w t.status) word m)),
    )
