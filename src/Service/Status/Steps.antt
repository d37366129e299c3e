-- ===== src/Service/Status/Steps.antt =====
-- What a request does to one task (daemon/internal/service).
use shell_sync.Base.{
  string_key, ℕ, ◌≡◌, refl, sym, ap, subst, ◌∙◌, Bool, true, false, ◌||◌, not, String, Option, none,
  some, if◌then◌else◌, ◌==◌, Bool-cases, inl, inr,
}
use shell_sync.Base.Dict.{Dict, lookup, insert, lookup-insert_self, lookup-insert_ne, ne_of_beq}
use shell_sync.Store.{
  Database, Result, Done, Failure, ok, failed, has_key, refers, no_rows, is_some,
}
use shell_sync.Store.Links.Runs.{both_false}
use shell_sync.Store.Tasks
use shell_sync.Store.Tasks.{TaskCreate, TaskPatch}
use shell_sync.Service.{State, Event, Reply, accepted, refused, invalid_transition, committed}
use shell_sync.Service.Task
use shell_sync.Service.Status.{Near, Edge-allowed}
use shell_sync.Service.Requests.{answer}

abbrev pub TaskTable : Type 0
TaskTable = Dict String shell_sync.Store.Task

-- The task is still there, and its status is the same or one arrow further.
abbrev pub Carried : String → TaskTable → TaskTable → Type 0
Carried id t t' =
    (x : shell_sync.Store.Task)
    → lookup id t ≡ some x
    → (y : shell_sync.Store.Task) × (lookup id t' ≡ some y) × Near x.status y.status

pub same_table : (id : String) (t t' : TaskTable) → t' ≡ t → Carried id t t'
same_table id t t' e x found = (x, ap (lookup id) e ∙ found, inl refl)

pub db_of_commit :
    {A : Type 0} (event : A → Event) (s : State) (out : Database × Result A)
    → (answer (committed event s out)).0.db ≡ out.0
db_of_commit event s (db, ok x) = refl
db_of_commit event s (db, failed f) = refl

pub tasks_if :
    {R : Type 0} (b : Bool) (t : TaskTable) (x y : Database × R)
    → x.0.tasks ≡ t
    → y.0.tasks ≡ t
    → (if b then x else y).0.tasks ≡ t
tasks_if true t x y p q = p
tasks_if false t x y p q = q

-- An insertion carries a task when it replaces it with one whose status is near.
Carried-insert :
    (id j : String) (v : shell_sync.Store.Task) (t : TaskTable)
    → ((x : shell_sync.Store.Task) → lookup j t ≡ some x → Near x.status v.status)
    → Carried id t (insert j v t)
Carried-insert id j v t moved x found = elim (Bool-cases (j == id)) [
  | inl e ↦
      let same : j ≡ id = (string_key.same_iff j id).0 e in
      (
        v,
        subst (λ (k : String). lookup k (insert j v t) ≡ some v) same (lookup-insert_self j v t),
        moved x (ap (λ (k : String). lookup k t) same ∙ found),
      )
  | inr e ↦ (x, lookup-insert_ne id j v t (ne_of_beq j id e) ∙ found, inl refl)
]

pub Carried-create :
    (id : String) (db : Database) (new user : String) (c : TaskCreate) (now : ℕ)
    → Carried id db.tasks (Tasks.create db new user c now).0.tasks
unfolding Tasks.create
Carried-create id db new user c now = elim (Bool-cases (c.name == "")) [
  | inl e ↦ rw e (same_table id db.tasks db.tasks refl)
  | inr e ↦ rw e (elim (Bool-cases (has_key new db.tasks || not (has_key user db.users))) [
    | inl e ↦ rw e (same_table id db.tasks db.tasks refl)
    | inr e ↦
        let (free, _) = both_false (has_key new db.tasks) (not (has_key user db.users)) e in
        rw e (
          Carried-insert id new (Tasks.new_task new user c now) db.tasks
            (λ x found. absurd (clash (sym (ap is_some found) ∙ free))))
  ])
]
  where
    clash : true ≡ false → ⊥
    clash h = cc

Carried-update :
    (id j : String) (db : Database) (p : TaskPatch) (now : ℕ)
    → ((x : shell_sync.Store.Task)
        → lookup j db.tasks ≡ some x
        → Near x.status (Tasks.apply_patch p now x).status)
    → Carried id db.tasks (Tasks.update db j p now).0.tasks
unfolding Tasks.update
Carried-update id j db p now moved = by_empty (Tasks.empty_patch p)
  where
    by_row :
        (o : Option shell_sync.Store.Task)
        → lookup j db.tasks ≡ o
        → Carried id db.tasks (Tasks.set_task (Tasks.apply_patch p now) o db j).0.tasks
    by_row none e = same_table id db.tasks db.tasks refl
    by_row (some y) e = Carried-insert id j (Tasks.apply_patch p now y) db.tasks (λ x found.
        subst (λ (z : shell_sync.Store.Task). Near z.status (Tasks.apply_patch p now y).status)
          (unwrap y x (sym e ∙ found)) (moved y e))
      where
        unwrap :
            (a b : shell_sync.Store.Task)
            → ◌≡◌ {A = Option shell_sync.Store.Task} (some a) (some b)
            → a ≡ b
        unwrap a b h = cc

    by_empty :
        (b : Bool)
        → Carried id db.tasks
            (if b
              then (db, Tasks.get db j)
              else Tasks.set_task (Tasks.apply_patch p now) (lookup j db.tasks) db j).0.tasks
    by_empty true = same_table id db.tasks db.tasks refl
    by_empty false = by_row (lookup j db.tasks) refl

pub Carried-guarded :
    (id j : String) (s : State) (p : TaskPatch) (now : ℕ)
    → Carried id s.db.tasks (answer (Task.update s j p now)).0.db.tasks
unfolding Task.update Task.guarded Tasks.get
Carried-guarded id j s p now = by_status p.status refl (lookup j s.db.tasks) refl
  where
    run :
        ((x : shell_sync.Store.Task)
          → lookup j s.db.tasks ≡ some x
          → Near x.status (Tasks.apply_patch p now x).status)
        → Carried id s.db.tasks
            (answer (
              committed
                (λ t. shell_sync.Service.task_event "updated" t)
                s
                (Tasks.update s.db j p now))).0.db.tasks
    run moved =
        subst (λ (d : Database). Carried id s.db.tasks d.tasks)
          (sym (
            db_of_commit (λ t. shell_sync.Service.task_event "updated" t) s
              (Tasks.update s.db j p now)))
          (Carried-update id j s.db p now moved)

    by_status :
        (o : Option String)
        → p.status ≡ o
        → (cur : Option shell_sync.Store.Task) → lookup j s.db.tasks ≡ cur
        → Carried id s.db.tasks
            (answer (Task.guarded o (shell_sync.Store.found cur) s j p now)).0.db.tasks
    by_status none e cur g = run (λ x found.
        subst (λ (o : Option String). Near x.status (shell_sync.Store.patched o x.status)) (sym e)
          (inl refl))
    by_status (some to) e none g = same_table id s.db.tasks s.db.tasks refl
    by_status (some to) e (some cur) g = elim (Bool-cases (Task.allowed cur.status to)) [
      | inl y ↦ rw y (
          run (λ x found.
            subst (λ (o : Option String). Near x.status (shell_sync.Store.patched o x.status))
              (sym e)
              (inr (
                Edge-allowed x.status to (
                  ap (λ (z : shell_sync.Store.Task). Task.allowed z.status to)
                    (unwrap x cur (sym found ∙ g))
                  ∙ y)))))
      | inr n ↦ rw n (same_table id s.db.tasks s.db.tasks refl)
    ]
      where
        unwrap :
            (a b : shell_sync.Store.Task)
            → ◌≡◌ {A = Option shell_sync.Store.Task} (some a) (some b)
            → a ≡ b
        unwrap a b h = cc
