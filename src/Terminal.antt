-- ===== src/Terminal.antt =====
-- daemon/internal/terminal: the state of manager.go and session.go. A session is an object with a handle,
-- which the map of live sessions names; two objects can exist for one terminal. Handlers are numbers,
-- and what they are called with is kept in `calls`. The log of a terminal is that of shell_sync.Log, with the
-- chunks it has stored. The screen mirror is left out.
pub mod Sessions
pub mod Managing
pub mod Sound
pub mod Hearing
pub mod Race
mod Tests
use shell_sync.Base.{
  string_key, nat_key, ℕ, zero, suc, ◌+◌, Bool, true, false, String, Option, none, some, List, [],
  ◌∷◌, ◌++◌, map, length, drop,
}
use shell_sync.Base.Order.{ℤ, pos, negsuc}
use shell_sync.Base.Dict.{Dict, lookup, insert}
use shell_sync.Store.{Database}
use shell_sync.Log.{Log, Row, idle}

-- `finished` is the closed channel `done`.
pub record Session : Type 0 where
  pub id : String
  pub cols : ℤ
  pub rows : ℤ
  pub force_stop : Bool
  pub exited : Bool
  pub status : String
  pub exit_code : Option ℤ
  pub next_sub : ℕ
  pub output_subs : List ℕ
  pub status_subs : List ℕ
  pub finished : Bool

-- A call of an output handler or of a status handler of a session.
pub data Call : Type 0 where
  hears : ℕ → ℕ → Row → Call
  told : ℕ → ℕ → String → Option ℤ → Call

pub record Manager : Type 0 where
  pub db : Database
  pub logs : Dict String Log
  pub heap : Dict ℕ Session
  pub next_handle : ℕ
  pub sessions : Dict String ℕ
  pub calls : List Call

-- A size for the log, which ignores those that are not positive.
abbrev pub to_grid : ℤ → ℕ
to_grid (pos n) = n
to_grid (negsuc n) = 0

abbrev pub new_session : String → ℤ → ℤ → Session
new_session id cols rows = record {
  id = id;
  cols = cols;
  rows = rows;
  force_stop = false;
  exited = false;
  status = "";
  exit_code = none;
  next_sub = 0;
  output_subs = [];
  status_subs = [];
  finished = false;
}

abbrev pub empty_log : Log
empty_log = record {
  registered = false;
  seq = 0;
  input = idle;
  output = idle;
  other = idle;
  pending = none;
  rows = [];
  flushed = [];
}

abbrev pub or_empty : Option Log → Log
or_empty none = empty_log
or_empty (some l) = l

unfoldable pub log_of : Manager → String → Log
log_of m id = or_empty (lookup id m.logs)

abbrev pub subs_of : Option Session → List ℕ
subs_of none = []
subs_of (some s) = s.output_subs

-- notifyOutput: each handler that is subscribed, in some order.
abbrev pub heard_by : ℕ → List ℕ → Row → List Call
heard_by h [] r = []
heard_by h (k ∷ ks) r = hears h k r ∷ heard_by h ks r

unfoldable pub heard_all : ℕ → List ℕ → List Row → List Call
heard_all h ks [] = []
heard_all h ks (r ∷ rs) = heard_by h ks r ++ heard_all h ks rs

-- onFlushedChunk for each chunk: the session that the map names for the terminal, if any.
abbrev pub to_session : Option ℕ → Manager → List Row → List Call
to_session none m rs = []
to_session (some h) m rs = heard_all h (subs_of (lookup h m.heap)) rs

unfoldable pub dispatch : Manager → String → List Row → Manager
dispatch m id rs = record m { calls = m.calls ++ to_session (lookup id m.sessions) m rs }

-- The log has changed, and the chunks that it has stored meanwhile are dispatched.
unfoldable pub log_to : Manager → String → Log → Manager
log_to m id l =
    dispatch (record m { logs = insert id l m.logs }) id
      (drop (length (log_of m id).flushed) l.flushed)

-- A change of a session, if there is one under the handle.
abbrev pub set_in : (Session → Session) → Option Session → Manager → ℕ → Manager
set_in f none m h = m
set_in f (some s) m h = record m { heap = insert h (f s) m.heap }

unfoldable pub set_session : Manager → ℕ → (Session → Session) → Manager
set_session m h f = set_in f (lookup h m.heap) m h
