-- ===== src/Relay/Hub/Net.antt =====
-- Writing to sessions and ending them (hub.go, lines 343-433; session.go, lines 91-130).
use shell_sync.Base.{
  ℕ, ◌+◌, Bool, true, false, ◌&&◌, not, String, Option, none, some, List, [], ◌∷◌, ◌++◌, length,
  ltb, ◌==◌, nat_key, string_key, if◌then◌else◌,
}
use shell_sync.Base.Dict.{lookup, insert, delete, retain}
use shell_sync.Wire.Control.{Frame, FrameType, frame}
use shell_sync.Wire.Data.{max_chunk}
use shell_sync.Relay.Hub.{
  Hub, Session, Pipe, Message, control, payload, session_at, stream_ids, is_daemon, peer_of,
  take_pipes, remove_session_stream,
}

abbrev pub is_empty : FrameType → Bool
is_empty FrameType.empty = true
is_empty _ = false

abbrev pub error_frame : String → String → Frame
error_frame code why = record (frame FrameType.error) { code_text = code; why = why }

abbrev pub close_frame : ℕ → String → Frame
close_frame id why = record (frame FrameType.close) { stream_id = id; why = why }

-- The test `!ok || cur == s` of a map lookup.
abbrev pub absent_or_self : Option ℕ → ℕ → Bool
absent_or_self none s = true
absent_or_self (some t) s = t == s

-- What a dying daemon session owns besides its streams.
unfoldable pub forget_daemon : Hub → ℕ → Session → Hub
forget_daemon h s x =
    if is_daemon x.role && not (x.dev_id == "")
    then record h {
      daemons =
          if absent_or_self (lookup x.dev_id h.daemons) s
          then delete x.dev_id h.daemons
          else h.daemons;
      codes = retain (λ e. not (e.owner == x.dev_id)) h.codes;
    }
    else h

-- The critical section of onSessionClose, and the pipes that it took out.
unfoldable pub detach : Hub → ℕ → Hub × List (ℕ × Pipe)
detach h s =
    let x = session_at h s in
    let (pipes, rest) = take_pipes (stream_ids h s) h.streams in
    let m = record h.metrics { conns_ended = h.metrics.conns_ended + 1 } in
    let h' = forget_daemon (record h { metrics = m; claimed = delete s h.claimed }) s x in
    (record h' { by_sess = delete s h.by_sess; streams = rest }, pipes)

-- Which writes arrive is the network's choice.
module _ (up : ℕ → ℕ → Bool) where
  -- A write that arrives is recorded; the result says whether it failed.
  unfoldable pub write : Hub → ℕ → Message → Hub × Bool
  write h s m =
      if up h.writes s
      then (record h { writes = h.writes + 1; sent = h.sent ++ m ∷ [] }, true)
      else (record h { writes = h.writes + 1 }, false)

  unfoldable pub write_control : Hub → ℕ → Frame → Hub × Bool
  write_control h s f = if is_empty f.t then (h, false) else write h s (control s f)

  unfoldable pub write_data : Hub → ℕ → ℕ → List ℕ → Hub × Bool
  write_data h s id bytes =
      if ltb max_chunk (length bytes) then (h, false) else write h s (payload s id bytes)

  -- WriteControl with its error ignored.
  unfoldable pub send : Hub → ℕ → Frame → Hub
  send h s f = (write_control h s f).0

  unfoldable pub drop_pipe : Hub → ℕ → String → Option Pipe → Hub
  drop_pipe h id why none = h
  drop_pipe h id why (some p) =
      let h' = record h {
        streams = delete id h.streams;
        by_sess = remove_session_stream p.host id (remove_session_stream p.phone id h.by_sess);
      } in
      send (send h' p.phone (close_frame id why)) p.host (close_frame id why)

  unfoldable pub drop_stream : Hub → ℕ → String → Hub
  drop_stream h id why = drop_pipe h id why (lookup id h.streams)

  unfoldable pub notify_peers : ℕ → List (ℕ × Pipe) → Hub → Hub
  notify_peers s [] h = h
  notify_peers s ((id, p) ∷ ps) h =
      notify_peers s ps (send h (peer_of s p) (close_frame id "peer disconnected"))

  unfoldable pub on_session_close : Hub → ℕ → Hub
  on_session_close h s = let (h', pipes) = detach h s in notify_peers s pipes h'

  -- Session.Close: the callback runs once.
  unfoldable pub close_session : Hub → ℕ → Hub
  close_session h s =
      let x = session_at h s in
      if x.closed
      then h
      else on_session_close
          (record h { sessions = insert s (record x { closed = true }) h.sessions }) s

  unfoldable pub fail : Hub → ℕ → String → String → Hub
  fail h s code why = close_session (send h s (error_frame code why)) s

  pub close_all : Hub → List ℕ → Hub
  close_all h [] = h
  close_all h (s ∷ ss) = close_all (close_session h s) ss
