-- ===== src/Client.antt =====
-- daemon/internal/transport/relay/client.go: the daemon's end of the tunnel. A local TCP connection is a
-- number; the table of streams, the connections opened and closed so far, and what was written to the
-- relay and to the local server make up the state. Whether a dial or a write succeeds is an argument.
pub mod Streams
pub mod Backoff
mod Tests
use shell_sync.Base.{
  nat_key, ℕ, suc, ◌*◌, Bool, true, false, String, Option, none, some, List, [], ◌∷◌, ◌++◌, ltb,
  nat_eqb, if◌then◌else◌,
}
use shell_sync.Base.Dict.{Dict, lookup, insert, delete}
use shell_sync.Base.Pool.{values, dropped}
use shell_sync.Wire.Control.{FrameType, Frame, frame}

pub data State : Type 0 where
  offline online disabled : State

pub data Written : Type 0 where
  control_frame : Frame → Written
  data_frame : ℕ → List ℕ → Written

pub record Client : Type 0 where
  pub connected : Bool
  pub streams : Dict ℕ ℕ
  pub state : State
  pub last_err : String
  pub dialled : ℕ
  pub shut : List ℕ
  pub to_relay : List Written
  pub to_local : List (ℕ × List ℕ)

abbrev pub new_client : Client
new_client = record {
  connected = false;
  streams = [];
  state = offline;
  last_err = "";
  dialled = 0;
  shut = [];
  to_relay = [];
  to_local = [];
}

pub set_state : Client → State → String → Client
set_state c s err = record c { state = s; last_err = err }

abbrev pub is_online : Client → Bool
is_online c = elim (c.state) [ online ↦ true | offline ↦ false | disabled ↦ false ]

-- A write to the relay; one that fails leaves nothing.
abbrev pub write_relay : Bool → Client → Written → Client
write_relay up c w = if up then record c { to_relay = c.to_relay ++ w ∷ [] } else c

abbrev pub close_of : ℕ → String → Written
close_of id why = control_frame (record (frame FrameType.close) { stream_id = id; why = why })

-- ReportCode; the time to live in seconds.
pub report_code : Bool → Client → String → ℕ → Client
report_code up c code ttl =
    if c.connected
    then write_relay up c
        (control_frame (record (frame FrameType.code) { code_text = code; ttl = ttl }))
    else c

-- closeStream and closeTStream: the connection is closed if there is one.
pub close_stream : Client → ℕ → Client
close_stream c id = record c {
  streams = delete id c.streams;
  shut = dropped (lookup id c.streams) c.shut;
}

-- closeStreamsLocked
pub close_streams : Client → Client
close_streams c = record c { streams = []; shut = values c.streams ++ c.shut }

-- openStream after a dial that worked.
pub accept_stream : Bool → Client → ℕ → Client × Bool
accept_stream up c id =
    let c' = record c { streams = insert id c.dialled c.streams; dialled = suc c.dialled } in
    if up
    then (
      write_relay true c' (control_frame (record (frame FrameType.accept) { stream_id = id })),
      true,
    )
    else (close_stream c' id, false)

-- openStream; false is the error that ends the connection.
pub open_stream : Bool → Bool → Client → ℕ → Client × Bool
open_stream dials up c id =
    if nat_eqb id 0
    then (c, false)
    else (if dials
        then accept_stream up c id
        else (write_relay up c (close_of id "local dial failed"), false))

-- handleControl; a frame that is no JSON has no decoding.
pub handle_control : Bool → Bool → Client → Option Frame → Client × Bool
handle_control dials up c none = (c, false)
handle_control dials up c (some f) = elim f.t [
  | FrameType.open_stream ↦ open_stream dials up c f.stream_id
  | FrameType.close ↦ (close_stream c f.stream_id, true)
  | FrameType.empty ↦ (c, false)
  | FrameType.other s ↦ (c, false)
  | _ ↦ (c, true)
]

abbrev pub write_local : Bool → Client → ℕ → Option ℕ → List ℕ → Client
write_local writes c id (some tcp) payload =
    if writes then record c { to_local = c.to_local ++ (tcp, payload) ∷ [] } else close_stream c id
write_local writes c id none payload = c

-- handleData
pub handle_data : Bool → Bool → Client → ℕ → List ℕ → Client
handle_data writes up c id payload = elim (lookup id c.streams) [
  | none ↦ write_relay up c (close_of id "unknown stream")
  | some tcp ↦ write_local writes c id (some tcp) payload
]

-- One round of pumpLocal: bytes were read, and the read may have failed as well.
pub pump_read : Bool → Client → ℕ → List ℕ → Client
pump_read up c id bytes = if up then write_relay true c (data_frame id bytes) else close_stream c id

pub pump_end : Bool → Client → ℕ → Client
pump_end up c id = close_stream (write_relay up c (close_of id "local eof")) id

-- What happens on a connection, with what the dials and writes of the step come to.
pub data Event : Type 0 where
  control_in : Bool → Bool → Option Frame → Event
  data_in : Bool → Bool → ℕ → List ℕ → Event
  local_read : Bool → ℕ → List ℕ → Event
  local_end : Bool → ℕ → Event

pub step : Client → Event → Client × Bool
step c (control_in dials up f) = handle_control dials up c f
step c (data_in writes up id payload) = (handle_data writes up c id payload, true)
step c (local_read up id bytes) = (pump_read up c id bytes, true)
step c (local_end up id) = (pump_end up c id, true)

-- serve: the events up to the first error.
pub serve : Client → List Event → Client
serve c [] = c
serve c (e ∷ es) = let (c', good) = step c e in let rest = serve c' es in if good then rest else c'

-- What runOnce gets back from dialling, from hello and its acknowledgement, and from writing reg.
pub data Handshake : Type 0 where
  dial_failed hello_failed reg_failed registered : Handshake

-- The start of a connection that has registered.
abbrev pub connect : Client → Client
connect c = set_state (record (close_streams c) { connected = true }) online ""

-- runOnce
pub run_once : Handshake → Client → List Event → Client
run_once registered c es = close_streams (record (serve (connect c) es) { connected = false })
run_once dial_failed c es = close_streams c
run_once hello_failed c es = close_streams c
run_once reg_failed c es = close_streams c

abbrev pub second : ℕ
second = 1000000000

abbrev pub retry_min : ℕ
retry_min = 1 * second

abbrev pub retry_max : ℕ
retry_max = 60 * second

pub next_backoff : ℕ → ℕ
next_backoff backoff = if ltb retry_max (backoff * 2) then retry_max else backoff * 2

-- Run: one connection after another, each followed by the state offline; the waits before their jitter.
pub run : ℕ → Client → List (Handshake × List Event × String) → Client × List ℕ
run backoff c [] = (c, [])
run backoff c ((h, es, err) ∷ rest) =
    let (c', waits) = run (next_backoff backoff) (set_state (run_once h c es) offline err) rest in
    (c', backoff ∷ waits)
