-- ===== src/Terminal/Hearing/Inputs.antt =====
-- What happens to a session while it is live, and what its handler hears of it (session.go, manager.go).
use shell_sync.Base.{
  string_key, nat_key, ℕ, ◌≡◌, ◌≢◌, refl, sym, ap, ◌∙◌, Bool, String, List, [], ◌∷◌, ◌++◌, keep_if,
  nat_eqb, arith,
}
use mathlib.Core.List.{append-nil}
use shell_sync.Log.{Log, Direction, stdin, stdout, Backend}
use shell_sync.Log.Conserve.{Event, appends, timers, resizes, markers}
use shell_sync.Terminal.{Manager, to_grid, log_of}
use shell_sync.Terminal.Sessions.{read, write, tick, mark_grid, resize}
use shell_sync.Base.{not}
use shell_sync.Base.Order.{ℤ}
use shell_sync.Log.Conserve.{step}
use shell_sync.Terminal.Sessions.{add_output, subscribe_output, cancel_output}
use shell_sync.Terminal.Hearing.Moves.{
  Going, Moved, Moved-log_to, Moved-set_session, read_is, write_is, Moved-resize, Once-add,
  keep_if-part, Heard-joined,
}
use shell_sync.Log.Conserve.{run, appended}

-- What happens to a session: output and input of the shell, timers, sizes, and other handlers.
pub data Input : Type 0 where
  reads writes : List ℕ → Input
  ticks : Direction → Input
  resizes_to : ℤ → ℤ → Bool → Input
  marks joins : Input
  parts : ℕ → Input

unfoldable pub act : Backend → ℕ → String → ℕ → Manager → Input → Manager
act b max id h m (reads bytes) = read b max m h bytes
act b max id h m (writes bytes) = write b max m h bytes
act b max id h m (ticks dir) = tick b max m id dir
act b max id h m (resizes_to cols rows taken) = resize m h cols rows taken
act b max id h m marks = mark_grid b m id
act b max id h m joins = subscribe_output m h
act b max id h m (parts j) = cancel_output m h j

unfoldable pub act_all : Backend → ℕ → String → ℕ → Manager → List Input → Manager
act_all b max id h m [] = m
act_all b max id h m (i ∷ is) = act_all b max id h (act b max id h m i) is

-- The other handlers leave this one.
unfoldable pub Stays : ℕ → List Input → Type 0
Stays k [] = Unit {0}
Stays k (parts j ∷ is) = (j ≢ k) × Stays k is
Stays k (i ∷ is) = Stays k is

-- The bytes that the shell has put out.
unfoldable pub output_of : List Input → List ℕ
output_of [] = []
output_of (reads bytes ∷ is) = bytes ++ output_of is
output_of (i ∷ is) = output_of is

-- The calls on the log that the inputs make.
unfoldable pub events_of : List Input → List Event
events_of [] = []
events_of (reads bytes ∷ is) = appends stdout bytes ∷ events_of is
events_of (writes bytes ∷ is) = appends stdin bytes ∷ events_of is
events_of (ticks dir ∷ is) = timers dir ∷ events_of is
events_of (resizes_to cols rows taken ∷ is) = resizes (to_grid cols) (to_grid rows) ∷ events_of is
events_of (marks ∷ is) = markers ∷ events_of is
events_of (joins ∷ is) = events_of is
events_of (parts j ∷ is) = events_of is

pub appended-events_of : (is : List Input) → appended stdout (events_of is) ≡ output_of is
unfolding events_of output_of appended
appended-events_of [] = refl
appended-events_of (reads bytes ∷ is) = ap (◌++◌ bytes) (appended-events_of is)
appended-events_of (writes bytes ∷ is) = appended-events_of is
appended-events_of (ticks dir ∷ is) = appended-events_of is
appended-events_of (resizes_to cols rows taken ∷ is) = appended-events_of is
appended-events_of (marks ∷ is) = appended-events_of is
appended-events_of (joins ∷ is) = appended-events_of is
appended-events_of (parts j ∷ is) = appended-events_of is

module _ (b : Backend) (max : ℕ) (id : String) (h k : ℕ) where
  and_on :
      (m n : Manager) (l : Log) (is : List Input)
      → Moved b max id h k m n l
      → (Going id h k n
          → Moved b max id h k n (act_all b max id h n is) (run b max (log_of n id) (events_of is)))
      → Moved b max id h k m (act_all b max id h n is) (run b max l (events_of is))
  and_on m n l is (g, heard, log) more =
      let (g', heard', log') = more g in
      (
        g',
        Heard-joined id h k m n _ heard heard',
        log' ∙ ap (λ (x : Log). run b max x (events_of is)) log,
      )

  pub act_all-Moved :
      (is : List Input) (m : Manager)
      → Stays k is
      → Going id h k m
      → Moved b max id h k m (act_all b max id h m is) (run b max (log_of m id) (events_of is))
  unfolding act_all act Stays events_of run tick mark_grid step subscribe_output cancel_output
  act_all-Moved [] m st g = (g, ([], sym (append-nil _), sym (append-nil _)), refl)
  act_all-Moved (reads bytes ∷ is) m st g =
      and_on m _ _ is
        (Moved-log_to b max id h k m _ (appends stdout bytes) (read_is b max id h k m bytes g.0) g)
        (act_all-Moved is _ st)
  act_all-Moved (writes bytes ∷ is) m st g =
      and_on m _ _ is
        (Moved-log_to b max id h k m _ (appends stdin bytes) (write_is b max id h k m bytes g.0) g)
        (act_all-Moved is _ st)
  act_all-Moved (ticks dir ∷ is) m st g =
      and_on m _ _ is (Moved-log_to b max id h k m _ (timers dir) refl g) (act_all-Moved is _ st)
  act_all-Moved (resizes_to cols rows taken ∷ is) m st g =
      and_on m _ _ is (Moved-resize b max id h k m cols rows taken g) (act_all-Moved is _ st)
  act_all-Moved (marks ∷ is) m st g =
      and_on m _ _ is (Moved-log_to b max id h k m _ markers refl g) (act_all-Moved is _ st)
  act_all-Moved (joins ∷ is) m st (a, alive) =
      let s = a.session in
      and_on m _ _ is
        (Moved-set_session b max id h k m add_output (a, alive) refl refl
          (Once-add k s.next_sub s.output_subs a.known a.once) (omega (arith, a.known)))
        (act_all-Moved is _ st)
  act_all-Moved (parts j ∷ is) m (ne, st) (a, alive) =
      let s = a.session in
      and_on m _ _ is
        (Moved-set_session b max id h k m
          (λ s. record s { output_subs = keep_if (λ i. not (nat_eqb i j)) s.output_subs })
          (a, alive) refl refl (keep_if-part k j s.output_subs ne ∙ a.once) a.known)
        (act_all-Moved is _ st)
