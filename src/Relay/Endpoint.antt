-- ===== src/Relay/Endpoint.antt =====
-- A connection of the relay from its first frame on: the hello handshake of endpoint.go (lines 16-84)
-- and the read loop of session.go (lines 132-219). A WebSocket message is its kind and its bytes; JSON
-- decoding and the network are parameters.
pub mod Reach
mod Tests
use shell_sync.Base.{
  ℕ, ◌+◌, ◌*◌, ◌^◌, Bool, true, false, ◌&&◌, not, String, Option, none, some, List, [], ◌∷◌, length,
  ltb, ◌==◌, nat_key, string_key, if◌then◌else◌,
}
use shell_sync.Base.Dict.{insert}
use shell_sync.Wire.Control.{
  Frame, FrameType, frame, Decoded, ok, err, ControlError, decode_control, protocol_version,
  max_control_size,
}
use shell_sync.Wire.Data.{DataResult, decode_data, max_chunk}
use shell_sync.Wire.Data
use shell_sync.Relay.Hub.{Hub, Session, Role, daemon, client, session_at}
use shell_sync.Relay.Hub.Net.{send, close_session, error_frame}
use shell_sync.Relay.Hub.Handlers.{attach, on_control, on_data}

pub data Kind : Type 0 where
  text binary : Kind

abbrev pub read_limit : ℕ
read_limit = max_chunk + 8 + 1024

-- The verdict of ServeWS on the first frame: the role of the session, or why it is rejected.
pub data Hello : Type 0 where
  welcome : Role → Hello
  reject : String → Hello

abbrev pub role_of : String → Option Role
role_of s = if s == "daemon" then some daemon else if s == "client" then some client else none

pub check_role : Option Role → ℕ → Hello
check_role none ver = reject "bad role"
check_role (some r) ver =
    if ltb protocol_version ver && ltb ver (2 ^ 63)
    then reject "unsupported protocol version"
    else welcome r

pub check_hello : Decoded Frame → Hello
check_hello (err e) = reject "first frame must be hello"
check_hello (ok f) = elim f.t [
  | FrameType.hello ↦ check_role (role_of f.role) f.ver
  | _ ↦ reject "first frame must be hello"
]

module _ (unmarshal : List ℕ → Option Frame) where
  -- readControlFrame: a binary message, one that is too large and one that does not decode are errors.
  pub read_control_frame : Kind → List ℕ → Decoded Frame
  read_control_frame binary bytes = err ControlError.bad_json
  read_control_frame text bytes =
      if ltb max_control_size (length bytes)
      then err ControlError.too_large
      else decode_control unmarshal bytes

module _ (up : ℕ → ℕ → Bool) (unmarshal : List ℕ → Option Frame) where
  -- A rejected connection is told why and closed; it was never attached to the hub.
  pub serve_hello : Hello → Hub → ℕ → String → Hub
  serve_hello (reject why) h s ip = send up h s (error_frame "protocol" why)
  serve_hello (welcome r) h s ip =
      attach (send up h s (record (frame FrameType.hello) { ver = protocol_version })) s
        (record { role = r; dev_id = ""; remote_ip = ip; closed = false })

  pub serve : Hub → ℕ → String → Kind → List ℕ → Hub
  serve h s ip kind bytes =
      serve_hello (check_hello (read_control_frame unmarshal kind bytes)) h s ip

  -- What the read loop does with a decoded message; a malformed one ends the session.
  pub dispatch_control : Decoded Frame → Hub → ℕ → ℕ → Hub
  dispatch_control (err e) h s now = close_session up h s
  dispatch_control (ok f) h s now = on_control up h s f now

  pub dispatch_data : DataResult (ℕ × List ℕ) → Hub → ℕ → Hub
  dispatch_data (Data.err e) h s = close_session up h s
  dispatch_data (Data.ok (id, payload)) h s = on_data up h s id payload

  -- One round of the read loop.
  pub on_message : Hub → ℕ → Kind → List ℕ → ℕ → Hub
  on_message h s text bytes now =
      if ltb max_control_size (length bytes)
      then close_session up h s
      else dispatch_control (decode_control unmarshal bytes) h s now
  on_message h s binary bytes now =
      if ltb read_limit (length bytes)
      then close_session up h s
      else dispatch_data (decode_data bytes) h s
