-- ===== src/Terminal/Sound/Always.antt =====
-- Everything that happens to the terminals of a daemon, one thing after the other (daemon/internal/terminal).
use shell_sync.Base.{
  string_key, nat_key, ℕ, ◌+◌, refl, Bool, true, false, String, Option, none, some, List, [], ◌∷◌,
  if◌then◌else◌, Bool-cases, inl, inr,
}
use shell_sync.Base.Dict.{Dict, lookup}
use shell_sync.Terminal.{Session, Manager}
use shell_sync.Terminal.Sound.{Ok}
use shell_sync.Base.Order.{ℤ}
use shell_sync.Base.{◌++◌}
use shell_sync.Log.{Log, Direction, Backend}
use shell_sync.Store.{Database}
use shell_sync.Store.Terminals.{TerminalCreate, TerminalPatch}
use shell_sync.Terminal.{to_grid, log_of, log_to, dispatch, set_session, set_in, new_session}
use shell_sync.Terminal.Sessions.{
  read, write, tick, mark_grid, resize, subscribe_output, cancel_output, subscribe_status,
  cancel_status, request_stop, record_exit, close_log, unregister, finalize_session, finalize,
  mark_exited, final_status,
}
use shell_sync.Terminal.Managing.{
  Host, create, service_restart, stop, delete_terminal, close_all, recover,
}
use shell_sync.Terminal.Sound.Runs.{Ok-set_session, Ok-finalize, Ok-create, Ok-restart}
use shell_sync.Terminal.Sound.Ends.{Ok-stop, Ok-delete, Ok-close_all, rename, Ok-rename, Ok-recover}

pub data Step : Type 0 where
  creates : String → String → TerminalCreate → ℕ → Step
  restarts stops deletes : String → Option ℤ → ℕ → Step
  exits : ℕ → Option ℤ → ℕ → Step
  reads writes : ℕ → List ℕ → Step
  ticks : String → Direction → Step
  marks : String → Step
  resizes : ℕ → ℤ → ℤ → Bool → Step
  listens waits : ℕ → Step
  leaves gives_up : ℕ → ℕ → Step
  renames : String → TerminalPatch → ℕ → Step
  closes_all : List (String × Option ℤ) → ℕ → Step

module _ (host : Host) (b : Backend) (max : ℕ) where
  unfoldable pub step : Manager → Step → Manager
  step m (creates id user c now) = (create host m id user c now).0
  step m (restarts id code now) = (service_restart host b m id code now).0
  step m (stops id code now) = stop b m id code now
  step m (deletes id code now) = (delete_terminal b m id code now).0
  step m (exits h code now) = finalize b m h code now
  step m (reads h bytes) = read b max m h bytes
  step m (writes h bytes) = write b max m h bytes
  step m (ticks id dir) = tick b max m id dir
  step m (marks id) = mark_grid b m id
  step m (resizes h cols rows taken) = resize m h cols rows taken
  step m (listens h) = subscribe_output m h
  step m (waits h) = subscribe_status m h
  step m (leaves h k) = cancel_output m h k
  step m (gives_up h k) = cancel_status m h k
  step m (renames id p now) = rename m id p now
  step m (closes_all ids now) = close_all b m ids now

  unfoldable pub run : Manager → List Step → Manager
  run m [] = m
  run m (e ∷ es) = run (step m e) es

  Ok-read : (m : Manager) (h : ℕ) (bytes : List ℕ) → Ok m → Ok (read b max m h bytes)
  unfolding read log_to dispatch
  Ok-read m h bytes o = by_session (lookup h m.heap)
    where
      by_session : (x : Option Session) → Ok (shell_sync.Terminal.Sessions.read_in b max x m bytes)
      by_session none = o
      by_session (some s) = o

  Ok-write : (m : Manager) (h : ℕ) (bytes : List ℕ) → Ok m → Ok (write b max m h bytes)
  unfolding write log_to dispatch
  Ok-write m h bytes o = by_session (lookup h m.heap)
    where
      by_session : (x : Option Session) → Ok (shell_sync.Terminal.Sessions.write_in b max x m bytes)
      by_session none = o
      by_session (some s) = o

  Ok-resize :
      (m : Manager) (h : ℕ) (cols rows : ℤ) (taken : Bool) → Ok m → Ok (resize m h cols rows taken)
  unfolding resize log_to dispatch
  Ok-resize m h cols rows taken o = by_session (lookup h m.heap)
    where
      by_taken :
          (taken : Bool) (m' : Manager)
          → Ok m'
          → Ok (if taken then set_session m' h (λ s. record s { cols = cols; rows = rows }) else m')
      by_taken true m' o =
          Ok-set_session m' h (λ s. record s { cols = cols; rows = rows }) (λ s. refl) (λ s. refl) o
      by_taken false m' o = o

      by_session :
          (x : Option Session) → Ok (shell_sync.Terminal.Sessions.resized_in x m h cols rows taken)
      by_session none = o
      by_session (some s) =
          by_taken taken
            (log_to m s.id
              (shell_sync.Log.set_pending_resize (log_of m s.id) (to_grid cols) (to_grid rows)))
            o

  Ok-wait : (m : Manager) (h : ℕ) → Ok m → Ok (subscribe_status m h)
  unfolding subscribe_status
  Ok-wait m h o = by_session (lookup h m.heap)
    where
      more : Session → Session
      more = λ s. record s {
        next_sub = s.next_sub + 1;
        status_subs = s.status_subs ++ s.next_sub ∷ [];
      }

      by_session : (x : Option Session) → Ok (shell_sync.Terminal.Sessions.subscribe_in x m h)
      by_session none = o
      by_session (some s) = elim (Bool-cases s.exited) [
        | inl e ↦ rw e o
        | inr e ↦ rw e (Ok-set_session m h more (λ s. refl) (λ s. refl) o)
      ]

  Ok-step : (m : Manager) (e : Step) → Ok m → Ok (step m e)
  unfolding step service_restart tick mark_grid log_to dispatch subscribe_output cancel_output
      cancel_status
  Ok-step m (creates id user c now) o = Ok-create host m id user c now o
  Ok-step m (restarts id code now) o =
      Ok-restart host (stop b m id code now) id now (Ok-stop b m id code now o)
  Ok-step m (stops id code now) o = Ok-stop b m id code now o
  Ok-step m (deletes id code now) o = Ok-delete b m id code now o
  Ok-step m (exits h code now) o = Ok-finalize b m h code now o
  Ok-step m (reads h bytes) o = Ok-read m h bytes o
  Ok-step m (writes h bytes) o = Ok-write m h bytes o
  Ok-step m (ticks id dir) o = o
  Ok-step m (marks id) o = o
  Ok-step m (resizes h cols rows taken) o = Ok-resize m h cols rows taken o
  Ok-step m (listens h) o = Ok-set_session m h _ (λ s. refl) (λ s. refl) o
  Ok-step m (waits h) o = Ok-wait m h o
  Ok-step m (leaves h k) o = Ok-set_session m h _ (λ s. refl) (λ s. refl) o
  Ok-step m (gives_up h k) o = Ok-set_session m h _ (λ s. refl) (λ s. refl) o
  Ok-step m (renames id p now) o = Ok-rename m id p now o
  Ok-step m (closes_all ids now) o = Ok-close_all b m ids now o

  Ok-run : (m : Manager) (es : List Step) → Ok m → Ok (run m es)
  unfolding run
  Ok-run m [] o = o
  Ok-run m (e ∷ es) o = Ok-run (step m e) es (Ok-step m e o)

  -- Let a daemon start on any database and log, and then let anything happen to its terminals, one thing after the other:
  -- creation, restart, stop, deletion, the end of a shell, output, input, timers, resizing, subscriptions, renaming
  -- and the shutdown. Afterwards the map of sessions names exactly the sessions that have not exited, each
  -- under its terminal, and a terminal's row says running exactly when the map names a session for it.
  pub run-Sound :
      (db : Database) (logs : Dict String Log) (now : ℕ) (es : List Step)
      → Ok (run (recover db logs now) es)
  run-Sound db logs now es = Ok-run (recover db logs now) es (Ok-recover db logs now)
