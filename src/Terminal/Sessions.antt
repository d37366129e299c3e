-- ===== src/Terminal/Sessions.antt =====
-- daemon/internal/terminal/session.go.
use shell_sync.Base.{
  string_key, nat_key, ℕ, ◌+◌, Bool, true, false, not, String, Option, none, some, List, [], ◌∷◌,
  ◌++◌, keep_if, nat_eqb, if◌then◌else◌,
}
use shell_sync.Base.Order.{ℤ}
use shell_sync.Base.Dict.{lookup, insert, delete}
use shell_sync.Store.Terminals
use shell_sync.Log.{
  Direction, stdin, stdout, Backend, set_pending_resize, append, on_timer, flush_resize_marker,
  close,
}
use shell_sync.Terminal.{Session, Manager, Call, told, to_grid, log_of, log_to, set_session}

module _ (b : Backend) (max : ℕ) where
  -- A round of readLoop that has read bytes.
  abbrev pub read_in : Option Session → Manager → List ℕ → Manager
  read_in none m bytes = m
  read_in (some s) m bytes = log_to m s.id (append b max (log_of m s.id) stdout bytes)

  unfoldable pub read : Manager → ℕ → List ℕ → Manager
  read m h bytes = read_in (lookup h m.heap) m bytes

  -- The bytes also go to the shell.
  abbrev pub write_in : Option Session → Manager → List ℕ → Manager
  write_in none m bytes = m
  write_in (some s) m bytes = log_to m s.id (append b max (log_of m s.id) stdin bytes)

  unfoldable pub write : Manager → ℕ → List ℕ → Manager
  write m h bytes = write_in (lookup h m.heap) m bytes

  -- The timer of an aggregator of the terminal.
  unfoldable pub tick : Manager → String → Direction → Manager
  tick m id dir = log_to m id (on_timer b (log_of m id) dir)

-- FlushResizeMarker, which a client that subscribes asks for.
unfoldable pub mark_grid : Backend → Manager → String → Manager
mark_grid b m id = log_to m id (flush_resize_marker b (log_of m id))

-- The marker is left even when the pseudo terminal refuses the size.
abbrev pub resized_in : Option Session → Manager → ℕ → ℤ → ℤ → Bool → Manager
resized_in none m h cols rows taken = m
resized_in (some s) m h cols rows taken =
    let m' = log_to m s.id (set_pending_resize (log_of m s.id) (to_grid cols) (to_grid rows)) in
    if taken then set_session m' h (λ s. record s { cols = cols; rows = rows }) else m'

unfoldable pub resize : Manager → ℕ → ℤ → ℤ → Bool → Manager
resize m h cols rows taken = resized_in (lookup h m.heap) m h cols rows taken

-- SubscribeOutput, with the number of the handler.
abbrev pub add_output : Session → Session
add_output s = record s {
  next_sub = s.next_sub + 1;
  output_subs = s.output_subs ++ s.next_sub ∷ [];
}

unfoldable pub subscribe_output : Manager → ℕ → Manager
subscribe_output m h = set_session m h add_output

unfoldable pub cancel_output : Manager → ℕ → ℕ → Manager
cancel_output m h k =
    set_session m h (λ s. record s { output_subs = keep_if (λ j. not (nat_eqb j k)) s.output_subs })

-- SubscribeStatus: on a session that has exited the handler is called at once.
abbrev pub subscribe_in : Option Session → Manager → ℕ → Manager
subscribe_in none m h = m
subscribe_in (some s) m h =
    if s.exited
    then record m { calls = m.calls ++ told h s.next_sub s.status s.exit_code ∷ [] }
    else set_session m h (λ s. record s {
      next_sub = s.next_sub + 1;
      status_subs = s.status_subs ++ s.next_sub ∷ [];
    })

unfoldable pub subscribe_status : Manager → ℕ → Manager
subscribe_status m h = subscribe_in (lookup h m.heap) m h

unfoldable pub cancel_status : Manager → ℕ → ℕ → Manager
cancel_status m h k =
    set_session m h (λ s. record s { status_subs = keep_if (λ j. not (nat_eqb j k)) s.status_subs })

-- requestStop; closing the pseudo terminal ends the read loop.
unfoldable pub request_stop : Manager → ℕ → Manager
request_stop m h = set_session m h (λ s. record s { force_stop = true })

-- The status of a process that ended with a code, or for which the wait failed.
abbrev pub final_status : Option ℤ → Bool → String
final_status (some code) force = "exited"
final_status none true = "exited"
final_status none false = "crashed"

abbrev pub told_all : ℕ → List ℕ → String → Option ℤ → List Call
told_all h [] status code = []
told_all h (k ∷ ks) status code = told h k status code ∷ told_all h ks status code

-- finalize, step by step.
abbrev pub mark_exited : Option ℤ → Session → Session
mark_exited code s = record s {
  status = final_status code s.force_stop;
  exit_code = code;
  exited = true;
  status_subs = [];
}

unfoldable pub record_exit : Manager → ℕ → Session → Option ℤ → ℕ → Manager
record_exit m h s code now = record m {
  db = (Terminals.update_status m.db s.id (final_status code s.force_stop) code now).0;
  heap = insert h (mark_exited code s) m.heap;
  calls = m.calls ++ told_all h s.status_subs (final_status code s.force_stop) code;
}

unfoldable pub close_log : Backend → Manager → String → Manager
close_log b m id = log_to m id (close b (log_of m id))

unfoldable pub unregister : Manager → String → Manager
unregister m id = record m { sessions = delete id m.sessions }

-- The status is stored and told before the last chunks are flushed.
unfoldable pub finalize_session : Backend → Manager → ℕ → Session → Option ℤ → ℕ → Manager
finalize_session b m h s code now =
    set_session (unregister (close_log b (record_exit m h s code now) s.id) s.id) h
      (λ s. record s { finished = true })

-- It runs once.
abbrev pub finalize_in : Backend → Option Session → Manager → ℕ → Option ℤ → ℕ → Manager
finalize_in b none m h code now = m
finalize_in b (some s) m h code now = if s.exited then m else finalize_session b m h s code now

unfoldable pub finalize : Backend → Manager → ℕ → Option ℤ → ℕ → Manager
finalize b m h code now = finalize_in b (lookup h m.heap) m h code now
