-- ===== src/Terminal/Sound/Ends.antt =====
-- Stops, deletions, renaming and the start of a daemon (daemon/internal/terminal).
use shell_sync.Base.{
  string_key, nat_key, ℕ, ◌≡◌, ◌≢◌, refl, ap, ◌∙◌, true, false, String, Option, none, some, List,
  [], ◌∷◌, ◌==◌, Bool-cases, inl, inr,
}
use shell_sync.Base.Dict.{Dict, lookup, delete, lookup-insert_self, lookup-delete_self, ne_of_beq}
use shell_sync.Store.{is_some}
use shell_sync.Terminal.{Session, Manager}
use shell_sync.Terminal.Sound.{Ok, unwrap, clash_none}
use shell_sync.Base.Order.{ℤ}
use shell_sync.Log.{Log, Backend}
use shell_sync.Store.{Database, Result, Done, ok, failed, has_key, refers}
use shell_sync.Store.Terminals
use shell_sync.Store.Terminals.{TerminalCreate, TerminalPatch}
use shell_sync.Terminal.{log_of, log_to, dispatch, set_session, set_in, new_session}
use shell_sync.Terminal.Sessions.{
  read, write, tick, mark_grid, resize, subscribe_output, cancel_output, subscribe_status,
  cancel_status, request_stop, record_exit, close_log, unregister, finalize_session, finalize,
  mark_exited, final_status,
}
use shell_sync.Terminal.Managing.{
  Host, create, restart, service_restart, stop, delete_terminal, close_all, recover, start_session,
  restart_check, restart_finish,
}
use shell_sync.Terminal.Sound.Steps.{Sound-row, Sound-delete}
use shell_sync.Terminal.Sound.Runs.{Ok-set_session, Ok-finalize}
use shell_sync.Store.Rows.{All-update_where, All-lookup}
use shell_sync.Store.{rows_of, update_where}
use shell_sync.Base.{All}
use shell_sync.Store.Terminals.{apply_patch, empty_patch}

pub Ok-stop :
    (b : Backend) (m : Manager) (id : String) (code : Option ℤ) (now : ℕ)
    → Ok m
    → Ok (stop b m id code now)
unfolding stop request_stop
Ok-stop b m id code now o = by_session (lookup id m.sessions)
  where
    by_session : (x : Option ℕ) → Ok (shell_sync.Terminal.Managing.stop_in b x m code now)
    by_session none = o
    by_session (some h) =
        Ok-finalize b (request_stop m h) h code now
          (Ok-set_session m h (λ s. record s { force_stop = true }) (λ s. refl) (λ s. refl) o)

sessions-set_session :
    (m : Manager) (h : ℕ) (f : Session → Session) → (set_session m h f).sessions ≡ m.sessions
unfolding set_session
sessions-set_session m h f = by_session (lookup h m.heap)
  where
    by_session : (x : Option Session) → (set_in f x m h).sessions ≡ m.sessions
    by_session none = refl
    by_session (some s) = refl

pub finalize_forgets :
    (b : Backend) (m : Manager) (h : ℕ) (s : Session) (code : Option ℤ) (now : ℕ)
    → lookup h m.heap ≡ some s
    → s.exited ≡ false
    → (finalize b m h code now).sessions ≡ delete s.id m.sessions
unfolding finalize finalize_session close_log log_to dispatch record_exit unregister
finalize_forgets b m h s code now at_h alive = by_session (lookup h m.heap) at_h
  where
    by_session :
        (x : Option Session)
        → x ≡ some s
        → (shell_sync.Terminal.Sessions.finalize_in b x m h code now).sessions
          ≡ delete s.id m.sessions
    by_session none e = absurd (clash_none s e)
    by_session (some u) e =
        let us : u ≡ s = unwrap u s e in
        rw (ap (λ (z : Session). z.exited) us ∙ alive) (
          sessions-set_session (unregister (close_log b (record_exit m h u code now) u.id) u.id) h
            (λ s. record s { finished = true })
          ∙ ap (λ (z : Session). delete z.id m.sessions) us)

abbrev force : Session → Session
force s = record s { force_stop = true }

sessions-force : (m : Manager) (h : ℕ) → (request_stop m h).sessions ≡ m.sessions
unfolding request_stop
sessions-force m h = sessions-set_session m h force

heap-force :
    (m : Manager) (h : ℕ) (s : Session)
    → lookup h m.heap ≡ some s
    → lookup h (request_stop m h).heap ≡ some (force s)
unfolding request_stop set_session
heap-force m h s at_h = by_heap (lookup h m.heap) at_h
  where
    by_heap :
        (x : Option Session) → x ≡ some s → lookup h (set_in force x m h).heap ≡ some (force s)
    by_heap none e = absurd (clash_none s e)
    by_heap (some u) e =
        lookup-insert_self h (force u) m.heap ∙ ap (λ (z : Session). some (force z)) (unwrap u s e)

pub stop_forgets :
    (b : Backend) (m : Manager) (id : String) (code : Option ℤ) (now : ℕ)
    → Ok m
    → lookup id (stop b m id code now).sessions ≡ none
unfolding stop
stop_forgets b m id code now o = by_session (lookup id m.sessions) refl
  where
    by_session :
        (x : Option ℕ)
        → lookup id m.sessions ≡ x
        → lookup id (shell_sync.Terminal.Managing.stop_in b x m code now).sessions ≡ none
    by_session none e = e
    by_session (some h) e =
        let (s, there, named, alive) = o.live id h e in
        let forgets =
          finalize_forgets b (request_stop m h) h (force s) code now (heap-force m h s there)
            alive in
        ap (λ (t : Dict String ℕ). lookup id t)
          (forgets
            ∙ (ap (λ (t : Dict String ℕ). delete s.id t) (sessions-force m h)
                ∙ ap (λ (k : String). delete k m.sessions) named))
        ∙ lookup-delete_self id m.sessions

pub Ok-delete :
    (b : Backend) (m : Manager) (id : String) (code : Option ℤ) (now : ℕ)
    → Ok m
    → Ok (delete_terminal b m id code now).0
unfolding delete_terminal Terminals.remove
Ok-delete b m id code now o = elim (Bool-cases (has_key id (stop b m id code now).db.terminals)) [
  | inl e ↦ rw e (Sound-delete id (stop_forgets b m id code now o) (Ok-stop b m id code now o))
  | inr e ↦ rw e (Ok-stop b m id code now o)
]

pub Ok-close_all :
    (b : Backend) (m : Manager) (ids : List (String × Option ℤ)) (now : ℕ)
    → Ok m
    → Ok (close_all b m ids now)
unfolding close_all
Ok-close_all b m [] now o = o
Ok-close_all b m ((id, code) ∷ ids) now o =
    Ok-close_all b (stop b m id code now) ids now (Ok-stop b m id code now o)

-- TerminalService.Update.
pub rename : Manager → String → TerminalPatch → ℕ → Manager
rename m id p now = record m { db = (Terminals.update m.db id p now).0 }

pub Ok-rename :
    (m : Manager) (id : String) (p : TerminalPatch) (now : ℕ) → Ok m → Ok (rename m id p now)
unfolding rename Terminals.update Terminals.set_terminal
Ok-rename m id p now o = elim (Bool-cases (empty_patch p)) [
  | inl e ↦ rw e o
  | inr e ↦ rw e (by_row (lookup id m.db.terminals) refl)
]
  where
    by_row :
        (x : Option shell_sync.Store.Terminal)
        → lookup id m.db.terminals ≡ x
        → Ok (record m { db = (Terminals.set_terminal (apply_patch p now) x m.db id).0 })
    by_row none e = o
    by_row (some t) e = elim (Bool-cases (refers (apply_patch p now t).task_id m.db.tasks)) [
      | inl y ↦ rw y (Sound-row id t (apply_patch p now t) e refl o)
      | inr n ↦ rw n o
    ]

pub anything : (rs : List shell_sync.Store.Terminal) → All (λ t. Unit {0}) rs
anything [] = tt
anything (r ∷ rs) = (tt, anything rs)

pub Ok-recover : (db : Database) (logs : Dict String Log) (now : ℕ) → Ok (recover db logs now)
unfolding recover lookup Terminals.mark_running_as_crashed
Ok-recover db logs now = record {
  live = λ id h found. absurd (clash_none h found);
  shown = λ id h found. absurd (clash_none h found);
  running =
      λ id t found r. absurd (All-lookup (λ t. t.status ≢ "running") id t _ found none_running r);
  named = λ h s found alive. absurd (clash_none s found);
  bounded = λ h s found. absurd (clash_none s found);
}
  where
    none_running :
        All
          (λ (t : shell_sync.Store.Terminal). t.status ≢ "running")
          (rows_of (Terminals.mark_running_as_crashed db now).0.terminals)
    none_running =
        All-update_where (λ t. Unit {0}) (λ (t : shell_sync.Store.Terminal). t.status ≢ "running")
          (λ t. t.status == "running") (λ t. record t { status = "crashed"; updated_at = now })
          db.terminals (λ t u e. ne_of_beq "crashed" "running" refl)
          (λ t u e. ne_of_beq t.status "running" e) (anything (rows_of db.terminals))
