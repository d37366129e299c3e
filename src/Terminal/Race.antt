-- ===== src/Terminal/Race.antt =====
-- Two restarts of a terminal at once: the check of manager.go:149 and the registration at its end are two
-- critical sections.
use shell_sync.Base.{
  string_key, nat_key, ℕ, ◌+◌, ◌≡◌, ◌≢◌, refl, ap, ◌∙◌, true, false, String, Option, none, some,
  if◌then◌else◌, arith, Bool-cases, inl, inr,
}
use shell_sync.Base.Dict.{
  Dict, lookup, insert, lookup-insert_self, lookup-insert_ne, lookup-delete_self,
}
use shell_sync.Store.{is_some}
use shell_sync.Terminal.{Session, Manager}
use shell_sync.Terminal.Sound.{clash_none}
use shell_sync.Base.Order.{ℤ}
use shell_sync.Log.{Backend}
use shell_sync.Store.{Database, Result, Done, ok, failed, has_key, refers}
use shell_sync.Store.Terminals
use shell_sync.Store.Terminals.{TerminalCreate, TerminalPatch}
use shell_sync.Terminal.{log_of, log_to, dispatch, set_session, set_in, new_session}
use shell_sync.Terminal.Sessions.{
  read, write, tick, resize, subscribe_output, cancel_output, subscribe_status, cancel_status,
  request_stop, record_exit, close_log, unregister, finalize_session, finalize, mark_exited,
  final_status,
}
use shell_sync.Terminal.Managing.{
  Host, create, restart, service_restart, stop, delete_terminal, close_all, recover, start_session,
  restart_check, restart_finish,
}
use shell_sync.Store.{rows_of, update_where}
use shell_sync.Store.Terminals.{apply_patch, empty_patch}
use shell_sync.Terminal.Sound.Ends.{finalize_forgets}

-- What Restart does to the state once its row is there.
Started : Manager → String → shell_sync.Store.Terminal → Manager → Type 0
Started m id t m' =
    (m'.heap ≡ insert m.next_handle (new_session id t.cols t.rows) m.heap)
    × (m'.next_handle ≡ m.next_handle + 1)
    × (m'.sessions ≡ insert id m.next_handle m.sessions)
    × (is_some (lookup id m'.db.terminals) ≡ true)

Started-finish :
    (host : Host) (m : Manager) (id : String) (t : shell_sync.Store.Terminal) (now : ℕ)
    → is_some (lookup id m.db.terminals) ≡ true
    → Started m id t (restart_finish host m id t now).0
unfolding Started restart_finish Terminals.update_status start_session log_to dispatch
Started-finish host m id t now known = by_row (lookup id m.db.terminals) known
  where
    set : shell_sync.Store.Terminal → shell_sync.Store.Terminal
    set t = record t { status = "running"; exit_code = none; updated_at = now }

    clash : false ≡ true → ⊥
    clash h = cc

    by_row :
        (x : Option shell_sync.Store.Terminal)
        → is_some x ≡ true
        → Started m id t
            (shell_sync.Terminal.Managing.restarted_in host m id t
              (Terminals.touch set x m.db id)).0
    by_row none e = absurd (clash e)
    by_row (some u) e =
        (refl, refl, refl, ap is_some (lookup-insert_self id (set u) m.db.terminals))

-- The end of one session leaves the objects of the others.
heap-set_session :
    (m : Manager) (h k : ℕ) (f : Session → Session)
    → h ≢ k
    → lookup k (set_session m h f).heap ≡ lookup k m.heap
unfolding set_session
heap-set_session m h k f ne = by_session (lookup h m.heap)
  where
    by_session : (x : Option Session) → lookup k (set_in f x m h).heap ≡ lookup k m.heap
    by_session none = refl
    by_session (some s) = lookup-insert_ne k h (f s) m.heap ne

heap-finalize :
    (b : Backend) (m : Manager) (h k : ℕ) (code : Option ℤ) (now : ℕ)
    → h ≢ k
    → lookup k (finalize b m h code now).heap ≡ lookup k m.heap
unfolding finalize finalize_session close_log log_to dispatch record_exit unregister
heap-finalize b m h k code now ne = by_session (lookup h m.heap)
  where
    by_session :
        (x : Option Session)
        → lookup k (shell_sync.Terminal.Sessions.finalize_in b x m h code now).heap
          ≡ lookup k m.heap
    by_session none = refl
    by_session (some s) = elim (Bool-cases s.exited) [
      | inl e ↦ rw e refl
      | inr e ↦ rw e (
          heap-set_session (unregister (close_log b (record_exit m h s code now) s.id) s.id) h k
            (λ s. record s { finished = true }) ne
          ∙ lookup-insert_ne k h (mark_exited code s) m.heap ne)
    ]

checked :
    (host : Host) (m : Manager) (id : String) (t : shell_sync.Store.Terminal)
    → restart_check host m id ≡ some t
    → is_some (lookup id m.db.terminals) ≡ true
unfolding restart_check
checked host m id t h = by_session (lookup id m.sessions) (lookup id m.db.terminals) h
  where
    by_session :
        (x : Option ℕ) (y : Option shell_sync.Store.Terminal)
        → (if is_some x then none else shell_sync.Terminal.Managing.row_in host y) ≡ some t
        → is_some y ≡ true
    by_session (some k) y h = absurd (clash_none t h)
    by_session none none h = absurd (clash_none t h)
    by_session none (some u) h = refl

-- Two restarts of one terminal that have both passed the check, one behind the other.
abbrev pub twice : Host → Manager → String → shell_sync.Store.Terminal → ℕ → ℕ → Manager
twice host m id t now now' = (restart_finish host (restart_finish host m id t now).0 id t now').0

-- Let two restarts of a terminal both pass the check that it has no live session before either registers its new
-- session. When the shell of the first then ends, the manager has no session for the terminal any more, although the
-- second session goes on: its object is there and has not exited.
pub restarts_orphan :
    (host : Host) (b : Backend) (m : Manager) (id : String) (t : shell_sync.Store.Terminal)
    (code : Option ℤ) (now now' later : ℕ)
    → restart_check host m id ≡ some t
    → (lookup id (finalize b (twice host m id t now now') m.next_handle code later).sessions ≡ none)
      × ((s : Session) × (lookup
              (m.next_handle + 1)
              (finalize b (twice host m id t now now') m.next_handle code later).heap
            ≡ some s)
          × (s.id ≡ id)
          × (s.exited ≡ false))
unfolding Started
restarts_orphan host b m id t code now now' later passed =
    let m1 = (restart_finish host m id t now).0 in
    let m2 = twice host m id t now now' in
    let s = new_session id t.cols t.rows in
    let (heap1, next1, sessions1, known1) =
      Started-finish host m id t now (checked host m id t passed) in
    let (heap2, next2, sessions2, known2) = Started-finish host m1 id t now' known1 in
    let heap2' : m2.heap ≡ insert (m.next_handle + 1) s (insert m.next_handle s m.heap) =
      heap2
      ∙ (ap (λ (n : ℕ). insert n s m1.heap) next1
          ∙ ap (λ (x : Dict ℕ Session). insert (m.next_handle + 1) s x) heap1) in
    let first : lookup m.next_handle m2.heap ≡ some s =
      ap (lookup m.next_handle) heap2'
      ∙ (lookup-insert_ne m.next_handle (m.next_handle + 1) s (insert m.next_handle s m.heap)
            (λ e. omega (arith, e))
          ∙ lookup-insert_self m.next_handle s m.heap) in
    let second : lookup (m.next_handle + 1) m2.heap ≡ some s =
      ap (lookup (m.next_handle + 1)) heap2'
      ∙ lookup-insert_self (m.next_handle + 1) s (insert m.next_handle s m.heap) in
    (
      ap (lookup id) (finalize_forgets b m2 m.next_handle s code later first refl)
          ∙ lookup-delete_self id m2.sessions,
      (
        s,
        heap-finalize b m2 m.next_handle (m.next_handle + 1) code later (λ e. omega (arith, e))
            ∙ second,
        refl,
        refl,
      ),
    )
