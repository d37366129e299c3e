-- ===== src/Relay/Hub/Handlers.antt =====
-- The handlers of control and data frames (hub.go, lines 105-341).
use Prim.Native.String.{◌++◌ as text_append}
use shell_sync.Base.{
  ℕ, ◌+◌, ◌*◌, ◌/◌, ◌%◌, ◌^◌, Bool, ◌&&◌, ◌||◌, not, String, Option, none, some, List, [], ◌∷◌,
  ◌++◌, length, ltb, leb, ◌==◌, nat_key, string_key, if◌then◌else◌,
}
use shell_sync.Base.Dict.{lookup, insert, delete, retain}
use shell_sync.Wire.Control.{Frame, FrameType, frame}
use shell_sync.Relay.Limiter.{Limiter, new_limiter, allow, second, minute}
use shell_sync.Relay.Hub.{
  Hub, Session, daemon, CodeEntry, Pipe, session_at, stream_ids, is_daemon, is_client, peer_of,
  valid_token, max_dev_id_len, max_sign_len, max_code_len, max_code_ttl, max_streams_per_client,
  max_streams_per_daemon,
}
use shell_sync.Relay.Hub.Net.{
  write_data, write_control, send, drop_stream, close_session, fail, close_frame,
}

-- time.Duration(f.TTL) * time.Second on 64 bits, brought into the range that handleCode allows. A value
-- at or above 2 ^ 63 stands for a negative duration.
unfoldable pub code_ttl : ℕ → ℕ
code_ttl n =
    let ttl = n * second % 2 ^ 64 in
    let positive = if ttl == 0 || leb (2 ^ 63) ttl then 2 * minute else ttl in
    if ltb max_code_ttl positive then max_code_ttl else positive

-- After(now) of the expiry: the code is no longer good.
abbrev pub expired : ℕ → CodeEntry → Bool
expired now e = ltb e.expires_at now

abbrev pub limiter_of : Option Limiter → Limiter
limiter_of (some l) = l
limiter_of none = new_limiter

-- The device that an open names, or the last claim of the session.
abbrev pub or_claimed : String → Option String → String
or_claimed dev claim = if dev == "" then (elim claim [ some d ↦ d | none ↦ "" ]) else dev

abbrev pub type_name : FrameType → String
type_name FrameType.empty = ""
type_name FrameType.hello = "hello"
type_name FrameType.reg = "reg"
type_name FrameType.code = "code"
type_name FrameType.claim = "claim"
type_name FrameType.open_stream = "open"
type_name FrameType.accept = "accept"
type_name FrameType.close = "close"
type_name FrameType.error = "error"
type_name (FrameType.other s) = s

unfoldable pub attach : Hub → ℕ → Session → Hub
attach h s x = record h {
  sessions = insert s x h.sessions;
  metrics = record h.metrics { conns_opened = h.metrics.conns_opened + 1 };
}

-- SetRole and the entry of the daemon.
unfoldable pub register : Hub → ℕ → String → Hub
register h s dev = record h {
  sessions = insert s (record (session_at h s) { role = daemon; dev_id = dev }) h.sessions;
  daemons = insert dev s h.daemons;
}

-- The critical section of handleCode.
unfoldable pub put_code : Hub → String → String → ℕ → ℕ → Hub
put_code h code dev ttl now = record h {
  codes =
      retain (λ e. not (expired now e))
        (insert code (record { owner = dev; expires_at = now + ttl }) h.codes);
  metrics = record h.metrics { code_reg = h.metrics.code_reg + 1 };
}

-- h.nextID++ on 32 bits.
abbrev pub next_stream : ℕ → ℕ
next_stream n = (n + 1) % 2 ^ 32

-- The critical section of handleOpen that makes the pipe.
unfoldable pub add_pipe : Hub → ℕ → ℕ → String → Hub
add_pipe h s d dev =
    let id = next_stream h.next_id in
    let by_phone = insert s (stream_ids h s ++ id ∷ []) h.by_sess in
    record h {
      next_id = id;
      streams = insert id (record { phone = s; host = d; target = dev }) h.streams;
      by_sess = insert d (stream_ids (record h { by_sess = by_phone }) d ++ id ∷ []) by_phone;
    }

module _ (up : ℕ → ℕ → Bool) where
  -- old.Close() of a stale registration of the same device.
  unfoldable pub replace_stale : Option ℕ → ℕ → Hub → Hub
  replace_stale none s h = h
  replace_stale (some old) s h = if old == s then h else close_session up h old

  unfoldable pub handle_reg : Hub → ℕ → Frame → Hub
  handle_reg h s f =
      if not (is_daemon (session_at h s).role)
      then fail up h s "protocol" "reg requires daemon role"
      else if not (valid_token f.dev_id max_dev_id_len) || not (valid_token f.sign max_sign_len)
      then fail up h s "protocol" "reg requires devId and sign"
      else register (replace_stale (lookup f.dev_id h.daemons) s h) s f.dev_id

  unfoldable pub handle_code : Hub → ℕ → Frame → ℕ → Hub
  handle_code h s f now =
      let x = session_at h s in
      if not (is_daemon x.role) || x.dev_id == ""
      then fail up h s "protocol" "code frame before reg"
      else if not (valid_token f.code_text max_code_len)
      then fail up h s "protocol" "bad pairing code"
      else (let ttl = code_ttl f.ttl in
          send up (put_code h f.code_text x.dev_id ttl now) s
            (record (frame FrameType.code) { code_text = f.code_text; ttl = ttl / second }))

  -- The part of handleClaim behind the limiter; the argument is the entry of the code.
  unfoldable pub use_code : Option CodeEntry → Hub → ℕ → String → ℕ → Hub
  use_code none h s code now = fail up h s "invalid_code" "unknown, expired or already used code"
  use_code (some e) h s code now =
      let h' = record h { codes = delete code h.codes } in
      if expired now e
      then fail up h' s "invalid_code" "unknown, expired or already used code"
      else send up
          (record h' {
            claimed = insert s e.owner h.claimed;
            metrics = record h.metrics { claim_hit = h.metrics.claim_hit + 1 };
          })
          s (record (frame FrameType.claim) { dev_id = e.owner })

  unfoldable pub handle_claim : Hub → ℕ → Frame → ℕ → Hub
  handle_claim h s f now =
      let x = session_at h s in
      if not (is_client x.role)
      then fail up h s "protocol" "claim requires client role"
      else (let (lim, good) = allow (limiter_of (lookup x.remote_ip h.limiters)) now in
          let h' = record h { limiters = insert x.remote_ip lim h.limiters } in
          if good
          then use_code (lookup f.code_text h.codes)
              (record h' { metrics = record h.metrics { claims = h.metrics.claims + 1 } }) s
              f.code_text now
          else fail up h' s "rate_limited" "too many claims from this address")

  -- The two writes of handleOpen; a failure drops the stream.
  unfoldable pub announce : Hub → ℕ → ℕ → ℕ → Hub
  announce h s d id =
      let f = record (frame FrameType.open_stream) { stream_id = id } in
      let (h₁, told) = write_control up h d f in
      let (h₂, acked) = write_control up h₁ s f in
      if not told
      then drop_stream up h₁ id "daemon write failed"
      else if not acked
      then drop_stream up h₂ id "client write failed"
      else h₂

  unfoldable pub open_to : Option ℕ → Hub → ℕ → String → Hub
  open_to none h s dev = fail up h s "daemon_offline" "daemon is not connected"
  open_to (some d) h s dev =
      if leb max_streams_per_daemon (length (stream_ids h d))
      then fail up h s "too_many_streams" "daemon stream limit reached"
      else announce (add_pipe h s d dev) s d (next_stream h.next_id)

  unfoldable pub handle_open : Hub → ℕ → Frame → Hub
  handle_open h s f =
      let dev = or_claimed f.dev_id (lookup s h.claimed) in
      if not (is_client (session_at h s).role)
      then fail up h s "protocol" "open requires client role"
      else if dev == ""
      then fail up h s "protocol" "open without devId (claim first)"
      else if leb max_streams_per_client (length (stream_ids h s))
      then fail up h s "too_many_streams" "client stream limit reached"
      else open_to (lookup dev h.daemons) h s dev

  unfoldable pub accept_on : Option Pipe → Hub → ℕ → ℕ → Hub
  accept_on none h s id = fail up h s "protocol" "accept for unknown stream"
  accept_on (some p) h s id =
      if p.host == s
      then send up h p.phone (record (frame FrameType.accept) { stream_id = id })
      else fail up h s "protocol" "accept for unknown stream"

  unfoldable pub handle_accept : Hub → ℕ → Frame → Hub
  handle_accept h s f =
      if is_daemon (session_at h s).role
      then accept_on (lookup f.stream_id h.streams) h s f.stream_id
      else fail up h s "protocol" "accept requires daemon role"

  unfoldable pub close_on : Option Pipe → Hub → ℕ → ℕ → String → Hub
  close_on none h s id why = h
  close_on (some p) h s id why =
      if not (p.phone == s) && not (p.host == s)
      then fail up h s "protocol" "close for foreign stream"
      else send up (drop_stream up h id why) (peer_of s p) (close_frame id why)

  unfoldable pub handle_close : Hub → ℕ → Frame → Hub
  handle_close h s f = close_on (lookup f.stream_id h.streams) h s f.stream_id f.why

  unfoldable pub route : Option Pipe → Hub → ℕ → ℕ → List ℕ → Hub
  route none h s id bytes = send up h s (close_frame id "unknown stream")
  route (some p) h s id bytes =
      let (h', sent) = write_data up h (peer_of s p) id bytes in
      if sent
      then record h' { metrics = record h'.metrics { relayed = h'.metrics.relayed + length bytes } }
      else drop_stream up h' id "peer write failed"

  unfoldable pub on_data : Hub → ℕ → ℕ → List ℕ → Hub
  on_data h s id bytes = route (lookup id h.streams) h s id bytes

  unfoldable pub on_control : Hub → ℕ → Frame → ℕ → Hub
  on_control h s f now = elim f.t [
    | FrameType.reg ↦ handle_reg h s f
    | FrameType.code ↦ handle_code h s f now
    | FrameType.claim ↦ handle_claim h s f now
    | FrameType.open_stream ↦ handle_open h s f
    | FrameType.accept ↦ handle_accept h s f
    | FrameType.close ↦ handle_close h s f
    | _ ↦ fail up h s "protocol" (text_append "unexpected frame " (type_name f.t))
  ]
