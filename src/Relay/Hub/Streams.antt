-- ===== src/Relay/Hub/Streams.antt =====
-- The traffic of a stream: opening, routing and closing (handleOpen, onData, handleClose).
use shell_sync.Base.{
  ℕ, ◌+◌, ◌≤◌, ◌<◌, ◌^◌, ◌≡◌, refl, ◌≢◌, ◌⊎◌, ◌∙◌, Bool, true, false, not, ◌&&◌, String, Option,
  none, some, if◌then◌else◌, List, [], ◌∷◌, ◌++◌, length, ltb, nat_key, string_key, ◌==◌, arith,
}
use shell_sync.Base.Dict.{lookup, delete, lookup-delete_self, lookup-delete_ne, lookup-insert}
use shell_sync.Wire.Control.{Frame}
use shell_sync.Wire.Data.{max_chunk}
use shell_sync.Relay.Hub.{Hub, Pipe, payload, peer_of}
use shell_sync.Relay.Hub.Net.{write, write_data, drop_stream, drop_pipe}
use shell_sync.Relay.Hub.Handlers.{on_data, route, next_stream, add_pipe, handle_close, close_on}
use shell_sync.Relay.Hub.Same.{send-Same}

-- The hub after it wrote one payload for a stream.
abbrev pub delivered : Hub → ℕ → ℕ → List ℕ → Hub
delivered h to id bytes = record h {
  writes = h.writes + 1;
  sent = h.sent ++ payload to id bytes ∷ [];
  metrics = record h.metrics { relayed = h.metrics.relayed + length bytes };
}

on_data-write :
    (up : ℕ → ℕ → Bool) (h : Hub) (s id : ℕ) (p : Pipe) (bytes : List ℕ)
    → lookup id h.streams ≡ some p
    → length bytes ≤ max_chunk
    → up h.writes (peer_of s p) ≡ true
    → on_data up h s id bytes ≡ delivered h (peer_of s p) id bytes
unfolding on_data route write_data write
on_data-write up h s id p bytes e fits sent =
    let small : ltb max_chunk (length bytes) ≡ false = ground arith in rw e (rw (small, sent) refl)

-- A data frame that one end of a stream sends, of at most 32 KiB and whose write arrives, is delivered
-- once, unchanged and under the same id, to the other end; nothing else of the hub changes but the
-- counters.
pub on_data_routes :
    (up : ℕ → ℕ → Bool) (h : Hub) (id : ℕ) (p : Pipe) (bytes : List ℕ)
    → lookup id h.streams ≡ some p
    → p.phone ≢ p.host
    → length bytes ≤ max_chunk
    → up h.writes p.phone ≡ true
    → up h.writes p.host ≡ true
    → (on_data up h p.phone id bytes ≡ delivered h p.host id bytes)
      × (on_data up h p.host id bytes ≡ delivered h p.phone id bytes)
on_data_routes up h id p bytes e apart fits to_phone to_host = (
  on_data-write up h p.phone id p bytes e fits (rw from_phone to_host) ∙ rw from_phone,
  on_data-write up h p.host id p bytes e fits (rw from_host to_phone) ∙ rw from_host,
)
  where
    from_phone : peer_of p.phone p ≡ p.host
    from_phone = ground arith

    from_host : peer_of p.host p ≡ p.phone
    from_host = ground arith

-- The relay does not check that the sender of a data frame is an end of its stream: a frame from any
-- other session is delivered to the stream's daemon just as one from its phone.
pub foreign_data_delivered :
    (up : ℕ → ℕ → Bool) (h : Hub) (s id : ℕ) (p : Pipe) (bytes : List ℕ)
    → lookup id h.streams ≡ some p
    → s ≢ p.phone
    → s ≢ p.host
    → length bytes ≤ max_chunk
    → up h.writes p.host ≡ true
    → on_data up h s id bytes ≡ delivered h p.host id bytes
foreign_data_delivered up h s id p bytes e not_phone not_host fits sent =
    on_data-write up h s id p bytes e fits (rw to_host sent) ∙ rw to_host
  where
    to_host : peer_of s p ≡ p.host
    to_host = ground arith

-- As long as the ids of the live streams, if there are any, were given out before and the counter does not wrap at
-- 2 ^ 32, opening a stream advances the counter by one to a number that is not 0 and names no live stream,
-- enters the new stream under it, and leaves every other id as it was.
pub add_pipe_fresh :
    (h : Hub) (s d id : ℕ) (dev : String)
    → ((i : ℕ) (q : Pipe) → lookup i h.streams ≡ some q → i ≤ h.next_id)
    → h.next_id + 1 < 2 ^ 32
    → ((add_pipe h s d dev).next_id ≡ h.next_id + 1)
      × (lookup (h.next_id + 1) h.streams ≡ none)
      × (lookup id (add_pipe h s d dev).streams ≡ (
          if h.next_id + 1 == id
          then some (record { phone = s; host = d; target = dev })
          else lookup id h.streams))
unfolding add_pipe
add_pipe_fresh h s d id dev issued room = (
  next,
  free (lookup (h.next_id + 1) h.streams) refl,
  rw next (lookup-insert id (h.next_id + 1) _ h.streams),
)
  where
    next : next_stream h.next_id ≡ h.next_id + 1
    next = omega arith

    free : (found : Option Pipe) → lookup (h.next_id + 1) h.streams ≡ found → found ≡ none
    free none e = refl
    free (some q) e = absurd (omega (arith, issued (h.next_id + 1) q e))

-- A close frame from an end of a stream removes that stream and no other.
pub handle_close_removes :
    (up : ℕ → ℕ → Bool) (h : Hub) (s other : ℕ) (f : Frame) (p : Pipe)
    → lookup f.stream_id h.streams ≡ some p
    → (s ≡ p.phone) ⊎ (s ≡ p.host)
    → f.stream_id ≢ other
    → (lookup f.stream_id (handle_close up h s f).streams ≡ none)
      × (lookup other (handle_close up h s f).streams ≡ lookup other h.streams)
unfolding handle_close close_on drop_stream drop_pipe
handle_close_removes up h s other f p e member ne = (
  rw tables (lookup-delete_self f.stream_id h.streams),
  rw tables (lookup-delete_ne other f.stream_id h.streams ne),
)
  where
    own : not (p.phone == s) && not (p.host == s) ≡ false
    own = ground arith

    tables : (handle_close up h s f).streams ≡ delete f.stream_id h.streams
    tables =
        rw (e, own, close_on)
          (rw (e, drop_stream)
            ((send-Same up _ (peer_of s p) _).streams
              ∙ (send-Same up _ p.host _).streams
              ∙ (send-Same up _ p.phone _).streams))
