-- ===== src/Client/Streams.antt =====
-- No local connection outlives the tunnel connection that opened it (client.go).
use shell_sync.Base.{
  nat_key, ℕ, suc, ◌<◌, ◌≡◌, refl, ◌⊎◌, Bool, true, false, none, some, List, [], ◌∷◌, nat_eqb,
  arith, Bool-cases, Option-cases, inl, inr,
}
use shell_sync.Base.Dict.{lookup, insert}
use shell_sync.Base.Pool.{
  has, values, has-append_right, Accounted, Accounted-delete, Accounted-insert, Accounted-clear,
}
use shell_sync.Wire.Control.{FrameType, Frame}
use shell_sync.Client.{
  Client, Written, close_of, close_stream, close_streams, accept_stream, open_stream,
  handle_control, handle_data, write_local, write_relay, pump_read, pump_end, Event, control_in,
  data_in, local_read, local_end, step, serve, Handshake, registered, dial_failed, hello_failed,
  reg_failed, run_once, set_state, connect,
}

-- Every connection that was opened is in the table or closed.
abbrev pub Tracked : Client → Type 0
Tracked c = (n : ℕ) → n < c.dialled → Accounted c.streams c.shut n

close_stream-Tracked : (c : Client) (id : ℕ) → Tracked c → Tracked (close_stream c id)
unfolding close_stream
close_stream-Tracked c id t n lt = Accounted-delete c.streams c.shut n id (t n lt)

newest : (n d : ℕ) → n < suc d → (n ≡ d) ⊎ (n < d)
newest n d lt = ground arith

-- The next connection goes under a number that is not in the table.
opened-Tracked :
    (c : Client) (id : ℕ)
    → lookup id c.streams ≡ none
    → Tracked c
    → Tracked (record c { streams = insert id c.dialled c.streams; dialled = suc c.dialled })
opened-Tracked c id free t n lt =
    Accounted-insert c.streams c.shut n c.dialled id free
      (elim (newest n c.dialled lt) [ inl e ↦ inl e | inr older ↦ inr (t n older) ])

write_relay-Tracked :
    (up : Bool) (c : Client) (w : Written) → Tracked c → Tracked (write_relay up c w)
write_relay-Tracked true c w t = t
write_relay-Tracked false c w t = t

accept_stream-Tracked :
    (up : Bool) (c : Client) (id : ℕ)
    → lookup id c.streams ≡ none
    → Tracked c
    → Tracked (accept_stream up c id).0
unfolding accept_stream
accept_stream-Tracked true c id free t = opened-Tracked c id free t
accept_stream-Tracked false c id free t = close_stream-Tracked _ id (opened-Tracked c id free t)

open_stream-Tracked :
    (dials up : Bool) (c : Client) (id : ℕ)
    → lookup id c.streams ≡ none
    → Tracked c
    → Tracked (open_stream dials up c id).0
unfolding open_stream
open_stream-Tracked dials up c id free t = elim (Bool-cases (nat_eqb id 0)) [
  | inl e ↦ rw e t
  | inr e ↦ elim (Bool-cases dials) [
    | inl d ↦ rw e (rw d (accept_stream-Tracked up c id free t))
    | inr d ↦ rw e (rw d (write_relay-Tracked up c _ t))
  ]
]

-- The relay opens a stream only under an id that is not in use.
unfoldable pub Fresh : Client → Event → Type 0
Fresh c (control_in dials up (some f)) =
    f.t ≡ FrameType.open_stream → lookup f.stream_id c.streams ≡ none
Fresh c _ = Unit {0}

unfoldable pub AllFresh : Client → List Event → Type 0
AllFresh c [] = Unit {0}
AllFresh c (e ∷ es) = Fresh c e × AllFresh (step c e).0 es

handle_control-Tracked :
    (dials up : Bool) (c : Client) (f : Frame) (t : FrameType)
    → f.t ≡ t
    → (t ≡ FrameType.open_stream → lookup f.stream_id c.streams ≡ none)
    → Tracked c
    → Tracked (handle_control dials up c (some f)).0
unfolding handle_control
handle_control-Tracked dials up c f FrameType.open_stream e free t =
    rw e (open_stream-Tracked dials up c f.stream_id (free refl) t)
handle_control-Tracked dials up c f FrameType.close e free t =
    rw e (close_stream-Tracked c f.stream_id t)
handle_control-Tracked dials up c f FrameType.empty e free t = rw e t
handle_control-Tracked dials up c f (FrameType.other s) e free t = rw e t
handle_control-Tracked dials up c f FrameType.hello e free t = rw e t
handle_control-Tracked dials up c f FrameType.reg e free t = rw e t
handle_control-Tracked dials up c f FrameType.code e free t = rw e t
handle_control-Tracked dials up c f FrameType.claim e free t = rw e t
handle_control-Tracked dials up c f FrameType.accept e free t = rw e t
handle_control-Tracked dials up c f FrameType.error e free t = rw e t

handle_data-Tracked :
    (writes up : Bool) (c : Client) (id : ℕ) (payload : List ℕ)
    → Tracked c
    → Tracked (handle_data writes up c id payload)
unfolding handle_data
handle_data-Tracked writes up c id payload t = elim (Option-cases (lookup id c.streams)) [
  | inl e ↦ rw (e, handle_data) (write_relay-Tracked up c _ t)
  | inr (tcp, e) ↦ rw (e, handle_data) (written writes tcp)
]
  where
    written : (w : Bool) (tcp : ℕ) → Tracked (write_local w c id (some tcp) payload)
    written true tcp = t
    written false tcp = close_stream-Tracked c id t

step-Tracked : (c : Client) (e : Event) → Fresh c e → Tracked c → Tracked (step c e).0
unfolding step Fresh pump_read pump_end handle_control
step-Tracked c (control_in dials up none) free t = t
step-Tracked c (control_in dials up (some f)) free t =
    handle_control-Tracked dials up c f f.t refl free t
step-Tracked c (data_in writes up id payload) free t = handle_data-Tracked writes up c id payload t
step-Tracked c (local_read true id bytes) free t = t
step-Tracked c (local_read false id bytes) free t = close_stream-Tracked c id t
step-Tracked c (local_end up id) free t =
    close_stream-Tracked _ id (write_relay-Tracked up c (close_of id "local eof") t)

serve-Tracked : (c : Client) (es : List Event) → AllFresh c es → Tracked c → Tracked (serve c es)
unfolding serve AllFresh
serve-Tracked c [] fresh t = t
serve-Tracked c (e ∷ es) (f, fs) t = elim (Bool-cases (step c e).1) [
  | inl g ↦ rw g (serve-Tracked (step c e).0 es fs (step-Tracked c e f t))
  | inr g ↦ rw g (step-Tracked c e f t)
]

closed_all :
    (c : Client) → Tracked c → (n : ℕ) → n < c.dialled → has n (close_streams c).shut ≡ true
unfolding close_streams
closed_all c t n lt = Accounted-clear c.streams c.shut n (t n lt)

-- Every connection that was opened has been closed.
abbrev pub AllClosed : Client → Type 0
AllClosed c = (n : ℕ) → n < c.dialled → has n c.shut ≡ true

close_streams-AllClosed : (c : Client) → AllClosed c → AllClosed (close_streams c)
unfolding close_streams
close_streams-AllClosed c t n lt = has-append_right n (values c.streams) c.shut (t n lt)

connect-Tracked : (c : Client) → AllClosed c → Tracked (connect c)
unfolding set_state close_streams
connect-Tracked c t n lt = inr (has-append_right n (values c.streams) c.shut (t n lt))

-- One cycle of the client, from a state in which every local connection that was ever opened is closed, ends
-- in such a state again, with an empty stream table, however the handshake ends and whatever happens on
-- the connection up to the first error, failed dials and writes included, as long as the relay opens no
-- stream under an id that is in use.
pub run_once_closes :
    (h : Handshake) (c : Client) (es : List Event)
    → AllClosed c
    → AllFresh (connect c) es
    → ((run_once h c es).streams ≡ []) × AllClosed (run_once h c es)
unfolding run_once close_streams
run_once_closes registered c es t fresh = (
  refl,
  closed_all (record (serve (connect c) es) { connected = false })
      (serve-Tracked (connect c) es fresh (connect-Tracked c t)),
)
run_once_closes dial_failed c es t fresh = (refl, close_streams-AllClosed c t)
run_once_closes hello_failed c es t fresh = (refl, close_streams-AllClosed c t)
run_once_closes reg_failed c es t fresh = (refl, close_streams-AllClosed c t)
