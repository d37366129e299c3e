-- ===== src/Relay/Hub/Leaks.antt =====
-- What the relay keeps of sessions that are gone: stream slots of the peer, and registrations under
-- another device id.
use shell_sync.Base.{
  ℕ, ◌+◌, ◌<◌, ◌≡◌, refl, sym, ap, ◌∙◌, ◌≢◌, Bool, true, false, String, none, some, length, nat_key,
  string_key, ◌==◌, arith, leb,
}
use shell_sync.Base.Dict.{lookup, insert, lookup-delete_ne, lookup-insert_self, lookup-insert_ne}
use shell_sync.Wire.Control.{Frame, FrameType, frame}
use shell_sync.Relay.Hub.{
  Hub, Pipe, client, session_at, stream_ids, max_streams_per_client, max_streams_per_daemon, daemon,
  Session, valid_token, max_dev_id_len, max_sign_len,
}
use shell_sync.Relay.Hub.Net.{forget_daemon, close_session, write, write_control}
use shell_sync.Relay.Hub.Handlers.{
  handle_open, open_to, announce, add_pipe, or_claimed, next_stream, handle_reg, replace_stale,
  register,
}
use shell_sync.Relay.Hub.Same.{Same, write_control-Same, same_trans}
use shell_sync.Relay.Hub.Links.{ids_at, lookup-take_pipes}
use shell_sync.Relay.Hub.Inv.{HubInv, add_link, length-add_link}
use shell_sync.Relay.Hub.Preserve.{handle_open-HubInv}
use shell_sync.Relay.Hub.Closing.{
  close_session-streams, close_session-by_sess, close_session-daemons, close_session-marked,
}

-- A network on which every write arrives.
abbrev pub reliable : ℕ → ℕ → Bool
reliable n s = true

reliable-write :
    (h : Hub) (s : ℕ) (f : Frame)
    → f.t ≡ FrameType.open_stream
    → (write_control reliable h s f).1 ≡ true
unfolding write_control write
reliable-write h s f e = rw e refl

announce-Same : (h : Hub) (s d id : ℕ) → Same h (announce reliable h s d id)
unfolding announce
announce-Same h s d id =
    let f : Frame = record (frame FrameType.open_stream) { stream_id = id } in
    let first = write_control reliable h d f in
    rw (reliable-write h d f refl) (
      rw (reliable-write first.0 s f refl)
        (same_trans (write_control-Same reliable h d f) (write_control-Same reliable first.0 s f)))

-- An open that passes the checks.
pub record MayOpen (h : Hub) (s : ℕ) (f : Frame) (d : ℕ) : Type 0 where
  pub phone : (session_at h s).role ≡ client
  pub named : (f.dev_id == "") ≡ false
  pub target : lookup f.dev_id h.daemons ≡ some d
  pub phone_room : length (stream_ids h s) < max_streams_per_client
  pub host_room : length (stream_ids h d) < max_streams_per_daemon

pub handle_open-Same :
    (h : Hub) (s d : ℕ) (f : Frame)
    → MayOpen h s f d
    → Same (add_pipe h s d f.dev_id) (handle_open reliable h s f)
unfolding handle_open open_to
handle_open-Same h s d f m =
    rw m.phone (
      rw (named, m.named) (rw (phone_ok, m.target) (rw (host_ok, open_to) (announce-Same _ s d _))))
  where
    named : or_claimed f.dev_id (lookup s h.claimed) ≡ f.dev_id
    named = rw m.named refl

    phone_ok : leb max_streams_per_client (length (stream_ids h s)) ≡ false
    phone_ok = ground (arith, m.phone_room)

    host_ok : leb max_streams_per_daemon (length (stream_ids h d)) ≡ false
    host_ok = ground (arith, m.host_room)

stream_ids-ids_at : (h : Hub) (s : ℕ) → stream_ids h s ≡ ids_at h.by_sess s
unfolding stream_ids
stream_ids-ids_at h s = refl

-- A phone that opens a stream to a registered daemon and then disconnects, on a network that loses
-- nothing, leaves the relay without that stream, yet the daemon's list is one entry longer than before:
-- the end of a session does not take its streams out of the peers' lists, and the daemon's cap counts
-- them.
pub reconnect_leaks :
    (h : Hub) (s d : ℕ) (f : Frame)
    → HubInv h
    → (session_at h s).closed ≡ false
    → MayOpen h s f d
    → (length (stream_ids (close_session reliable (handle_open reliable h s f) s) d)
        ≡ length (stream_ids h d) + 1)
      × (lookup
            (next_stream h.next_id)
            (close_session reliable (handle_open reliable h s f) s).streams
          ≡ none)
reconnect_leaks h s d f v o m = (longer, gone)
  where
    h₁ : Hub
    h₁ = handle_open reliable h s f

    v₁ : HubInv h₁
    v₁ = handle_open-HubInv reliable h s f v

    same : Same (add_pipe h s d f.dev_id) h₁
    same = handle_open-Same h s d f m

    o₁ : (session_at h₁ s).closed ≡ false
    o₁ = unfold session_at add_pipe in rw same.sessions o

    apart : s ≢ d
    apart q = unfold session_at in cc (m.phone, v.registered f.dev_id d m.target, q)

    id₁ : ℕ
    id₁ = next_stream h.next_id

    by₁ : h₁.by_sess ≡ add_link d id₁ (add_link s id₁ h.by_sess)
    by₁ = unfold add_pipe stream_ids in same.by_sess

    longer : length (stream_ids (close_session reliable h₁ s) d) ≡ length (stream_ids h d) + 1
    longer =
        rw
          (
            stream_ids-ids_at (close_session reliable h₁ s) d,
            close_session-by_sess reliable h₁ s o₁,
          )
          (rw (lookup-delete_ne d s h₁.by_sess apart) (
            rw by₁ (
              ground (
                arith,
                length-add_link d d id₁ (add_link s id₁ h.by_sess),
                length-add_link d s id₁ h.by_sess,
                stream_ids-ids_at h d,
                apart,
              ))))

    new : Pipe
    new = record { phone = s; host = d; target = f.dev_id }

    streams₁ : h₁.streams ≡ insert id₁ new h.streams
    streams₁ = unfold add_pipe in same.streams

    gone : lookup id₁ (close_session reliable h₁ s).streams ≡ none
    gone = rw (close_session-streams reliable h₁ s o₁) (
        ground (
          arith,
          lookup-take_pipes id₁ (stream_ids h₁ s) h₁.streams,
          v₁.linked_phone id₁ new,
          stream_ids-ids_at h₁ s,
          streams₁,
          lookup-insert_self id₁ new h.streams,
        ))

-- An entry under another id than the session's latest stays when the session ends.
entry_survives :
    (up : ℕ → ℕ → Bool) (h : Hub) (d : ℕ) (first : String)
    → (session_at h d).closed ≡ false
    → (session_at h d).dev_id ≢ first
    → lookup first h.daemons ≡ some d
    → lookup first (close_session up h d).daemons ≡ some d
unfolding forget_daemon
entry_survives up h d first o ne e =
    rw (close_session-daemons up h d o)
      (ground (arith, lookup-delete_ne first (session_at h d).dev_id h.daemons ne))

-- A registration that passes the checks, for an id that nobody has.
pub record MayRegister (h : Hub) (s : ℕ) (f : Frame) : Type 0 where
  pub host : (session_at h s).role ≡ daemon
  pub valid_id : valid_token f.dev_id max_dev_id_len ≡ true
  pub valid_sign : valid_token f.sign max_sign_len ≡ true
  pub free : lookup f.dev_id h.daemons ≡ none

handle_reg-register :
    (up : ℕ → ℕ → Bool) (h : Hub) (s : ℕ) (f : Frame)
    → MayRegister h s f
    → handle_reg up h s f ≡ register h s f.dev_id
unfolding handle_reg replace_stale
handle_reg-register up h s f m = rw (m.host, m.valid_id, m.valid_sign, m.free) refl

registered_session :
    (h : Hub) (s : ℕ) (dev : String)
    → session_at (register h s dev) s ≡ record (session_at h s) { role = daemon; dev_id = dev }
unfolding register session_at
registered_session h s dev =
    rw (lookup-insert_self s (record (session_at h s) { role = daemon; dev_id = dev }) h.sessions)
      refl

-- Let an open daemon session register one device id and then another, both valid and held by nobody. When the
-- session then ends it is marked closed, but the first id still names it: only the last one is taken out.
pub registration_survives :
    (up : ℕ → ℕ → Bool) (h : Hub) (d : ℕ) (f g : Frame)
    → (session_at h d).closed ≡ false
    → g.dev_id ≢ f.dev_id
    → MayRegister h d f
    → MayRegister h d g
    → (lookup f.dev_id (close_session up (handle_reg up (handle_reg up h d f) d g) d).daemons
        ≡ some d)
      × ((session_at (close_session up (handle_reg up (handle_reg up h d f) d g) d) d).closed
          ≡ true)
unfolding register
registration_survives up h d f g o ne mf mg =
    rw (both ∙ handle_reg-register up h₁ d g again)
      (entry_survives up h₂ d f.dev_id open₂ (λ e. ne (sym latest ∙ e)) there, ended)
  where
    h₁ : Hub
    h₁ = register h d f.dev_id

    h₂ : Hub
    h₂ = register h₁ d g.dev_id

    both : handle_reg up (handle_reg up h d f) d g ≡ handle_reg up h₁ d g
    both = ap (λ (k : Hub). handle_reg up k d g) (handle_reg-register up h d f mf)

    again : MayRegister h₁ d g
    again = record {
      host = ap (λ (x : Session). x.role) (registered_session h d f.dev_id);
      valid_id = mg.valid_id;
      valid_sign = mg.valid_sign;
      free = lookup-insert_ne g.dev_id f.dev_id d h.daemons (λ e. ne (sym e)) ∙ mg.free;
    }

    open₂ : (session_at h₂ d).closed ≡ false
    open₂ =
        ap (λ (x : Session). x.closed) (registered_session h₁ d g.dev_id)
        ∙ ap (λ (x : Session). x.closed) (registered_session h d f.dev_id)
        ∙ o

    latest : (session_at h₂ d).dev_id ≡ g.dev_id
    latest = ap (λ (x : Session). x.dev_id) (registered_session h₁ d g.dev_id)

    there : lookup f.dev_id h₂.daemons ≡ some d
    there =
        lookup-insert_ne f.dev_id g.dev_id d h₁.daemons ne ∙ lookup-insert_self f.dev_id d h.daemons

    ended : (session_at (close_session up h₂ d) d).closed ≡ true
    ended = close_session-marked up h₂ d open₂
