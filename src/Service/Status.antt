-- ===== src/Service/Status.antt =====
-- How the status of a task moves (daemon/internal/service/task.go).
pub mod Steps
pub mod Tables
pub mod Runs
use shell_sync.Base.{
  string_key, ◌≡◌, refl, sym, subst, ◌⊎◌, ◌≢◌, Bool, true, false, String, Option, none, some, List,
  [], ◌∷◌, ◌||◌, if◌then◌else◌, ◌==◌, Bool-cases, inl, inr,
}
use shell_sync.Service.Task.{allowed}
use shell_sync.Base.Dict.{lookup}
use shell_sync.Service.{State}
use shell_sync.Service.Requests.{Request, handle, delete_task}

-- The diagram of the task's life.
pub data Edge : String → String → Type 0 where
  start : Edge "pending" "running"
  skip : Edge "pending" "done"
  pause : Edge "running" "paused"
  finish : Edge "running" "done"
  again : Edge "running" "running"
  resume : Edge "paused" "running"
  give_up : Edge "paused" "done"
  reopen : Edge "done" "running"

-- A path in it.
pub data Moves : String → String → Type 0 where
  stay : {a : String} → Moves a a
  go : {a b c : String} → Edge a b → Moves b c → Moves a c

-- No request of the list deletes the task.
unfoldable pub Keeps : String → List Request → Type 0
Keeps id [] = Unit {0}
Keeps id (r ∷ rs) = (r ≢ delete_task id) × Keeps id rs

-- The status of the task that a query finds.
abbrev pub status_in : Option shell_sync.Store.Task → Option String
status_in none = none
status_in (some t) = some t.status

-- The status of the task after each request of a list, none when it is not there.
unfoldable pub statuses : String → State → List Request → List (Option String)
statuses id s [] = []
statuses id s (r ∷ rs) =
    let after = (handle s r).0 in status_in (lookup id after.db.tasks) ∷ statuses id after rs

-- The same word, or one arrow away.
abbrev pub Near : String → String → Type 0
Near a b = (a ≡ b) ⊎ Edge a b

-- The task is there all the time, and each status is near the one before it.
unfoldable pub Traced : String → List (Option String) → Type 0
Traced a [] = Unit {0}
Traced a (none ∷ ws) = ⊥
Traced a (some b ∷ ws) = Near a b × Traced b ws

pub allowed-Edge : (from to : String) → Edge from to → allowed from to ≡ true
unfolding allowed
allowed-Edge _ _ start = refl
allowed-Edge _ _ skip = refl
allowed-Edge _ _ pause = refl
allowed-Edge _ _ finish = refl
allowed-Edge _ _ again = refl
allowed-Edge _ _ resume = refl
allowed-Edge _ _ give_up = refl
allowed-Edge _ _ reopen = refl

text_eq : (a b : String) → (a == b) ≡ true → a ≡ b
text_eq a b e = (string_key.same_iff a b).0 e

one_of : (x a b : String) → (x == a) || (x == b) ≡ true → (x ≡ a) ⊎ (x ≡ b)
one_of x a b h = elim (Bool-cases (x == a)) [
  | inl e ↦ inl (text_eq x a e)
  | inr e ↦ inr (text_eq x b (rw e at h))
]

module _ (from to : String) where
  between : (a b : String) → from ≡ a → to ≡ b → Edge a b → Edge from to
  between a b p q e = subst (λ x. Edge x to) (sym p) (subst (λ y. Edge a y) (sym q) e)

  -- The table of the source is the diagram.
  pub Edge-allowed : allowed from to ≡ true → Edge from to
  unfolding allowed
  Edge-allowed h = elim (Bool-cases (from == "pending")) [
    | inl e ↦ elim (one_of to "running" "done" (rw e at h)) [
      | inl q ↦ between "pending" "running" (text_eq from "pending" e) q start
      | inr q ↦ between "pending" "done" (text_eq from "pending" e) q skip
    ]
    | inr e ↦ not_pending (rw e at h)
  ]
    where
      not_paused : (if from == "done" then to == "running" else false) ≡ true → Edge from to
      not_paused h = elim (Bool-cases (from == "done")) [
        | inl e ↦
            between "done" "running" (text_eq from "done" e) (text_eq to "running" (rw e at h))
              reopen
        | inr e ↦ absurd (clash (rw e at h))
      ]
        where
          clash : false ≡ true → ⊥
          clash h = cc

      not_running :
          (if from == "paused"
              then to == "running" || to == "done"
              else if from == "done"
              then to == "running"
              else false)
            ≡ true
          → Edge from to
      not_running h = elim (Bool-cases (from == "paused")) [
        | inl e ↦ elim (one_of to "running" "done" (rw e at h)) [
          | inl q ↦ between "paused" "running" (text_eq from "paused" e) q resume
          | inr q ↦ between "paused" "done" (text_eq from "paused" e) q give_up
        ]
        | inr e ↦ not_paused (rw e at h)
      ]

      not_pending :
          (if from == "running"
              then to == "paused" || to == "done" || to == "running"
              else if from == "paused"
              then to == "running" || to == "done"
              else if from == "done"
              then to == "running"
              else false)
            ≡ true
          → Edge from to
      not_pending h = elim (Bool-cases (from == "running")) [
        | inl e ↦ from_running e (rw e at h)
        | inr e ↦ not_running (rw e at h)
      ]
        where
          from_running :
              (from == "running") ≡ true
              → to == "paused" || to == "done" || to == "running" ≡ true
              → Edge from to
          from_running e h = elim (Bool-cases (to == "paused" || to == "done")) [
            | inl two ↦ elim (one_of to "paused" "done" two) [
              | inl q ↦ between "running" "paused" (text_eq from "running" e) q pause
              | inr q ↦ between "running" "done" (text_eq from "running" e) q finish
            ]
            | inr not_two ↦
                between "running" "running" (text_eq from "running" e)
                  (text_eq to "running" (rw not_two at h)) again
          ]
