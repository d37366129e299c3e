-- ===== src/Relay/Hub.antt =====
-- server/relay/hub.go and the parts of session.go that it drives: the relay's state, its handlers, and
-- the clean-up of a session that ends. Times and durations are nanoseconds. A *Session is a number,
-- the heap of sessions a dictionary. What the hub writes is kept in the order of the writes; whether the
-- n-th write to a session arrives is the network's choice, a parameter. A handler runs from start to end.
pub mod Net
pub mod Handlers
pub mod Links
pub mod Same
pub mod Closing
pub mod Leaks
pub mod Claims
pub mod Streams
mod Tests
pub mod Inv
pub mod Cleanup
pub mod Entries
pub mod Preserve
use shell_sync.Base.{
  ℕ, ◌+◌, ◌-◌, ◌*◌, ◌%◌, ◌^◌, ◌<◌, ◌≤◌, Bool, true, false, ◌&&◌, ◌||◌, not, String, Option, none,
  some, List, [], ◌∷◌, ◌++◌, length, ltb, leb, ◌==◌, nat_key, string_key, if◌then◌else◌,
}
use Prim.Native.Char.{code}
use Prim.Native.String.{len}
use shell_sync.Base.Dict.{Dict, lookup, insert, delete, retain, size}
use shell_sync.Wire.Control.{Frame, FrameType, frame}
use shell_sync.Wire.Control
use shell_sync.Relay.Limiter.{Limiter, new_limiter, allow, second, minute}

pub data Role : Type 0 where
  no_role daemon client : Role

pub record Session : Type 0 where
  pub role : Role
  pub dev_id : String
  pub remote_ip : String
  pub closed : Bool

pub record CodeEntry : Type 0 where
  pub owner : String
  pub expires_at : ℕ

pub record Pipe : Type 0 where
  pub phone : ℕ
  pub host : ℕ
  pub target : String

-- The Go field Conns is conns_opened - conns_ended.
pub record Metrics : Type 0 where
  pub conns_opened : ℕ
  pub conns_ended : ℕ
  pub code_reg : ℕ
  pub claims : ℕ
  pub claim_hit : ℕ
  pub relayed : ℕ

-- One WebSocket message that the hub wrote, with its receiver.
pub data Message : Type 0 where
  control : ℕ → Frame → Message
  payload : ℕ → ℕ → List ℕ → Message

pub record Hub : Type 0 where
  pub sessions : Dict ℕ Session
  pub daemons : Dict String ℕ
  pub codes : Dict String CodeEntry
  pub claimed : Dict ℕ String
  pub streams : Dict ℕ Pipe
  pub by_sess : Dict ℕ (List ℕ)
  pub next_id : ℕ
  pub limiters : Dict String Limiter
  pub metrics : Metrics
  pub writes : ℕ
  pub sent : List Message

abbrev pub max_code_len : ℕ
max_code_len = 16

abbrev pub max_code_ttl : ℕ
max_code_ttl = 10 * minute

abbrev pub max_dev_id_len : ℕ
max_dev_id_len = 64

abbrev pub max_sign_len : ℕ
max_sign_len = 256

abbrev pub max_streams_per_client : ℕ
max_streams_per_client = 16

abbrev pub max_streams_per_daemon : ℕ
max_streams_per_daemon = 64

unfoldable pub new_hub : Hub
new_hub = record {
  sessions = [];
  daemons = [];
  codes = [];
  claimed = [];
  streams = [];
  by_sess = [];
  next_id = 0;
  limiters = [];
  writes = 0;
  metrics = record {
    conns_opened = 0;
    conns_ended = 0;
    code_reg = 0;
    claims = 0;
    claim_hit = 0;
    relayed = 0;
  };
  sent = [];
}

-- A session that was never accepted counts as closed.
abbrev pub or_closed : Option Session → Session
or_closed (some x) = x
or_closed none = record { role = no_role; dev_id = ""; remote_ip = ""; closed = true }

pub session_at : Hub → ℕ → Session
session_at h s = or_closed (lookup s h.sessions)

-- What a Go map of lists gives at a missing key.
abbrev pub or_empty {ℓ} : {A : Type ℓ} → Option (List A) → List A
or_empty (some xs) = xs
or_empty none = []

pub stream_ids : Hub → ℕ → List ℕ
stream_ids h s = or_empty (lookup s h.by_sess)

abbrev pub is_daemon : Role → Bool
is_daemon daemon = true
is_daemon _ = false

abbrev pub is_client : Role → Bool
is_client client = true
is_client _ = false

printable : String → Bool
printable String.[] = true
printable (String.◌∷◌ c s) =
    let rest = printable s in if ltb (code c) 0x21 || ltb 0x7E (code c) then false else rest

pub valid_token : String → ℕ → Bool
unfolding printable
valid_token s max = if len s == 0 || ltb max (len s) then false else printable s

-- The end of the pipe that is not s, as handleClose, onData and onSessionClose compute it.
abbrev pub peer_of : ℕ → Pipe → ℕ
peer_of s p = if s == p.host then p.phone else p.host

-- removeSessionStreamLocked: without the first occurrence of the id.
pub remove_first : ℕ → List ℕ → List ℕ
remove_first id [] = []
remove_first id (v ∷ ids) = if v == id then ids else v ∷ remove_first id ids

remove_in : ℕ → ℕ → Option (List ℕ) → Dict ℕ (List ℕ) → Dict ℕ (List ℕ)
unfolding remove_first
remove_in s id none m = m
remove_in s id (some ids) m = insert s (remove_first id ids) m

pub remove_session_stream : ℕ → ℕ → Dict ℕ (List ℕ) → Dict ℕ (List ℕ)
unfolding remove_in
remove_session_stream s id m = remove_in s id (lookup s m) m

-- The loop of onSessionClose over the ids of the session: the pipes that were there, and the others.
pub take_pipes : List ℕ → Dict ℕ Pipe → List (ℕ × Pipe) × Dict ℕ Pipe
take_pipes [] m = ([], m)
take_pipes (id ∷ ids) m =
    let (rest, m') = take_pipes ids (delete id m) in
    (elim (lookup id m) [ none ↦ rest | some p ↦ (id, p) ∷ rest ], m')
