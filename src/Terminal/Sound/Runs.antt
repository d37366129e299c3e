-- ===== src/Terminal/Sound/Runs.antt =====
-- Ends and starts of sessions (daemon/internal/terminal).
use shell_sync.Base.{
  string_key, nat_key, ℕ, ◌≡◌, ◌≢◌, refl, sym, ap, ◌∙◌, Bool, true, false, String, Option, none,
  some, if◌then◌else◌, ◌==◌, Bool-cases, inl, inr,
}
use shell_sync.Base.Dict.{lookup, insert, delete, ne_of_beq}
use shell_sync.Store.{is_some}
use shell_sync.Terminal.{Session, Manager}
use shell_sync.Terminal.Sound.{Sound, Ok, clash_none}
use shell_sync.Base.Order.{ℤ}
use shell_sync.Base.{not, ◌||◌}
use shell_sync.Log.{Backend}
use shell_sync.Store.{Database, Result, Done, ok, failed, has_key, refers}
use shell_sync.Store.Terminals
use shell_sync.Store.Terminals.{TerminalCreate, TerminalPatch}
use shell_sync.Terminal.{log_of, log_to, dispatch, set_session, set_in, new_session}
use shell_sync.Terminal.Sessions.{
  read, write, tick, resize, subscribe_output, cancel_output, subscribe_status, cancel_status,
  request_stop, record_exit, close_log, unregister, finalize_session, finalize, mark_exited,
  final_status,
}
use shell_sync.Terminal.Managing.{
  Host, create, restart, service_restart, stop, delete_terminal, close_all, recover, start_session,
  restart_check, restart_finish,
}
use shell_sync.Terminal.Sound.Steps.{Sound-end, row_of}
use shell_sync.Terminal.Sound.{Sound-session, Sound-start}

pub Ok-set_session :
    (m : Manager) (h : ℕ) (f : Session → Session)
    → ((s : Session) → (f s).id ≡ s.id)
    → ((s : Session) → (f s).exited ≡ s.exited)
    → Ok m
    → Ok (set_session m h f)
unfolding set_session
Ok-set_session m h f same_id same_exited o = by_session (lookup h m.heap) refl
  where
    by_session : (x : Option Session) → lookup h m.heap ≡ x → Ok (set_in f x m h)
    by_session none e = o
    by_session (some s) e = Sound-session h s (f s) e (same_id s) (same_exited s) o

Ok-record_exit :
    (m : Manager) (h : ℕ) (s : Session) (code : Option ℤ) (now : ℕ)
    → lookup h m.heap ≡ some s
    → s.exited ≡ false
    → Ok m
    → Ok (unregister (record_exit m h s code now) s.id)
unfolding record_exit unregister Terminals.update_status
Ok-record_exit m h s code now at_h alive o =
    let (t, there, r) = row_of h s at_h alive o in by_row t (lookup s.id m.db.terminals) there
  where
    set : shell_sync.Store.Terminal → shell_sync.Store.Terminal
    set t = record t { status = final_status code s.force_stop; exit_code = code; updated_at = now }

    ended : (code : Option ℤ) (force : Bool) → final_status code force ≢ "running"
    ended (some c) force = ne_of_beq "exited" "running" refl
    ended none true = ne_of_beq "exited" "running" refl
    ended none false = ne_of_beq "crashed" "running" refl

    by_row :
        (t : shell_sync.Store.Terminal) (x : Option shell_sync.Store.Terminal)
        → x ≡ some t
        → Sound
            (Terminals.touch set x m.db s.id).0.terminals
            (insert h (mark_exited code s) m.heap)
            m.next_handle
            (delete s.id m.sessions)
    by_row t none e = absurd (clash_none t e)
    by_row t (some u) e =
        Sound-end h s (mark_exited code s) (set u) at_h alive refl (ended code s.force_stop) o

pub Ok-finalize :
    (b : Backend) (m : Manager) (h : ℕ) (code : Option ℤ) (now : ℕ)
    → Ok m
    → Ok (finalize b m h code now)
unfolding finalize finalize_session close_log unregister log_to dispatch record_exit
Ok-finalize b m h code now o = by_session (lookup h m.heap) refl
  where
    by_session :
        (x : Option Session)
        → lookup h m.heap ≡ x
        → Ok (shell_sync.Terminal.Sessions.finalize_in b x m h code now)
    by_session none e = o
    by_session (some s) e = elim (Bool-cases s.exited) [
      | inl gone ↦ rw gone o
      | inr alive ↦ rw alive (
          Ok-set_session (unregister (close_log b (record_exit m h s code now) s.id) s.id) h
            (λ s. record s { finished = true }) (λ s. refl) (λ s. refl)
            (Ok-record_exit m h s code now e alive o))
    ]

pub Ok-start :
    (m : Manager) (id : String) (v : shell_sync.Store.Terminal) (cols rows : ℤ)
    → lookup id m.sessions ≡ none
    → v.status ≡ "running"
    → Ok m
    → Ok (
        start_session
          (record m { db = record m.db { terminals = insert id v m.db.terminals } })
          id
          cols
          rows)
unfolding start_session log_to dispatch
Ok-start m id v cols rows free runs o =
    Sound-start id v (new_session id cols rows) free runs refl refl o

-- A terminal without a row has no session.
pub no_session :
    (m : Manager) (id : String)
    → has_key id m.db.terminals ≡ false
    → Ok m
    → lookup id m.sessions ≡ none
no_session m id missing o = by_session (lookup id m.sessions) refl
  where
    clash : true ≡ false → ⊥
    clash h = cc

    by_session : (x : Option ℕ) → lookup id m.sessions ≡ x → x ≡ none
    by_session none e = refl
    by_session (some h) e =
        let (t, there, _) = o.shown id h e in absurd (clash (sym (ap is_some there) ∙ missing))

pub Ok-create :
    (host : Host) (m : Manager) (id user : String) (c : TerminalCreate) (now : ℕ)
    → Ok m
    → Ok (create host m id user c now).0
unfolding create Terminals.create
Ok-create host m id user opts now o =
    elim (Bool-cases (host.spawns c.shell_type c.cwd c.cols c.rows c.env)) [
      | inr e ↦ rw e o
      | inl e ↦ rw e (elim (Bool-cases (c.shell_type == "")) [
        | inl e ↦ rw e o
        | inr e ↦
            rw e
              (elim (Bool-cases (
                has_key id m.db.terminals
                || not (has_key user m.db.users)
                || not (refers c.task_id m.db.tasks))) [
                  | inl e ↦ rw e o
                  | inr e ↦ rw e (
                      Ok-start m id (Terminals.new_terminal id user c now) c.cols c.rows
                        (no_session m id
                          (first_false (has_key id m.db.terminals) (not (has_key user m.db.users))
                            (not (refers c.task_id m.db.tasks)) e)
                          o)
                        refl o)
                ])
      ])
    ]
  where
    c : TerminalCreate
    c = shell_sync.Terminal.Managing.filled host opts now

    first_false : (x y z : Bool) → x || y || z ≡ false → x ≡ false
    first_false true y z h = cc
    first_false false y z h = refl

Ok-restart_finish :
    (host : Host) (m : Manager) (id : String) (t : shell_sync.Store.Terminal) (now : ℕ)
    → lookup id m.sessions ≡ none
    → Ok m
    → Ok (restart_finish host m id t now).0
unfolding restart_finish Terminals.update_status
Ok-restart_finish host m id t now free o = by_row (lookup id m.db.terminals)
  where
    set : shell_sync.Store.Terminal → shell_sync.Store.Terminal
    set t = record t { status = "running"; exit_code = none; updated_at = now }

    by_row :
        (x : Option shell_sync.Store.Terminal)
        → Ok
            (shell_sync.Terminal.Managing.restarted_in host m id t
              (Terminals.touch set x m.db id)).0
    by_row none = o
    by_row (some u) = Ok-start m id (set u) t.cols t.rows free refl o

pub Ok-restart :
    (host : Host) (m : Manager) (id : String) (now : ℕ) → Ok m → Ok (restart host m id now).0
unfolding restart restart_check
Ok-restart host m id now o = by_session (lookup id m.sessions) refl
  where
    by_row :
        (x : Option shell_sync.Store.Terminal)
        → lookup id m.sessions ≡ none
        → Ok (shell_sync.Terminal.Managing.restart_with host m id x now).0
    by_row none free = o
    by_row (some t) free = Ok-restart_finish host m id t now free o

    by_session :
        (x : Option ℕ)
        → lookup id m.sessions ≡ x
        → Ok
            (shell_sync.Terminal.Managing.restart_with host m id
              (if is_some x
                then none
                else shell_sync.Terminal.Managing.row_in host (lookup id m.db.terminals))
              now).0
    by_session (some h) e = o
    by_session none e =
        by_row (shell_sync.Terminal.Managing.row_in host (lookup id m.db.terminals)) e
