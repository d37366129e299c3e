-- ===== src/Relay/Hub/Closing.antt =====
-- What the end of a session leaves of the hub (hub.go, onSessionClose; session.go, Close).
use shell_sync.Base.{
  ℕ, ◌≡◌, refl, ap, ◌≢◌, ◌∙◌, Bool, true, false, Option, none, some, [], ◌⊎◌, nat_key, string_key,
  arith, Bool-cases, inl, inr, if◌then◌else◌,
}
use shell_sync.Base.Dict.{lookup, insert, delete, lookup-delete_self, lookup-insert_self}
use shell_sync.Relay.Hub.Links.{contains, lookup-take_pipes}
use shell_sync.Relay.Hub.{or_empty, Hub, Session, Pipe, session_at, stream_ids, take_pipes}
use shell_sync.Relay.Hub.Net.{forget_daemon, detach, on_session_close, close_session}
use shell_sync.Relay.Hub.Same.{Same, notify_peers-Same}
use shell_sync.Relay.Hub.Inv.{HubInv, role_at, same_role}
use shell_sync.Relay.Hub.Cleanup.{taken}

forget_daemon-sessions :
    (h : Hub) (s : ℕ) (x : Session) → (forget_daemon h s x).sessions ≡ h.sessions
unfolding forget_daemon
forget_daemon-sessions h s x = ground arith

detach-sessions : (h : Hub) (s : ℕ) → (detach h s).0.sessions ≡ h.sessions
unfolding detach
detach-sessions h s = forget_daemon-sessions _ s (session_at h s)

module _ (up : ℕ → ℕ → Bool) where
  -- on_session_close changes the tables as its critical section does.
  pub on_session_close-Same : (h : Hub) (s : ℕ) → Same (detach h s).0 (on_session_close up h s)
  unfolding on_session_close
  on_session_close-Same h s = notify_peers-Same up s (detach h s).1 (detach h s).0

  pub close_session-roles :
      (h : Hub) (s t : ℕ) → role_at (close_session up h s).sessions t ≡ role_at h.sessions t
  unfolding close_session session_at
  close_session-roles h s t = elim (Bool-cases (session_at h s).closed) [
    | inl e ↦ rw e refl
    | inr e ↦ rw e (
        rw ((on_session_close-Same _ s).sessions, detach-sessions _ s)
          (same_role h.sessions s (record (session_at h s) { closed = true }) refl t))
  ]

forget_daemon-rest :
    (h : Hub) (s : ℕ) (x : Session)
    → ((forget_daemon h s x).claimed ≡ h.claimed)
      × ((forget_daemon h s x).by_sess ≡ h.by_sess)
      × ((forget_daemon h s x).streams ≡ h.streams)
unfolding forget_daemon
forget_daemon-rest h s x = ground arith

-- The clean-up of a device reads the role and the device id of the session alone.
forget_daemon-tables :
    (h k : Hub) (s : ℕ) (x y : Session)
    → h.daemons ≡ k.daemons
    → h.codes ≡ k.codes
    → x.role ≡ y.role
    → x.dev_id ≡ y.dev_id
    → ((forget_daemon h s x).daemons ≡ (forget_daemon k s y).daemons)
      × ((forget_daemon h s x).codes ≡ (forget_daemon k s y).codes)
unfolding forget_daemon
forget_daemon-tables h k s x y d c r e = rw (d, c, r, e) (ground arith)

module _ (up : ℕ → ℕ → Bool) (h : Hub) (s : ℕ) (opened : (session_at h s).closed ≡ false) where
  pub marked : Session
  marked = record (session_at h s) { closed = true }

  flagged : Hub
  flagged = record h { sessions = insert s marked h.sessions }

  through : (close_session up h s) ≡ on_session_close up flagged s
  unfolding close_session flagged marked
  through = rw opened refl

  -- The tables after the end of an open session.
  pub close_session-streams :
      (close_session up h s).streams ≡ (take_pipes (stream_ids h s) h.streams).1
  unfolding detach flagged stream_ids
  close_session-streams =
      ap (λ (k : Hub). k.streams) through ∙ (on_session_close-Same up flagged s).streams

  pub close_session-marked : (session_at (close_session up h s) s).closed ≡ true
  unfolding session_at detach flagged marked
  close_session-marked =
      rw
        (ap (λ (k : Hub). k.sessions) through
          ∙ (on_session_close-Same up flagged s).sessions
          ∙ detach-sessions flagged s)
        (rw (lookup-insert_self s marked h.sessions) refl)

  pub close_session-by_sess : (close_session up h s).by_sess ≡ delete s h.by_sess
  unfolding detach flagged
  close_session-by_sess =
      ap (λ (k : Hub). k.by_sess) through ∙ (on_session_close-Same up flagged s).by_sess

  pub close_session-claimed : (close_session up h s).claimed ≡ delete s h.claimed
  unfolding detach flagged
  close_session-claimed =
      ap (λ (k : Hub). k.claimed) through
      ∙ (on_session_close-Same up flagged s).claimed
      ∙ (forget_daemon-rest _ s _).0

  pub close_session-sessions : (close_session up h s).sessions ≡ insert s marked h.sessions
  unfolding detach flagged
  close_session-sessions =
      ap (λ (k : Hub). k.sessions) through
      ∙ (on_session_close-Same up flagged s).sessions
      ∙ forget_daemon-sessions _ s _

  flagged_self : session_at flagged s ≡ marked
  unfolding session_at flagged
  flagged_self = rw (lookup-insert_self s marked h.sessions) refl

  device_tables :
      ((close_session up h s).daemons ≡ (forget_daemon h s (session_at h s)).daemons)
      × ((close_session up h s).codes ≡ (forget_daemon h s (session_at h s)).codes)
  unfolding detach
  device_tables =
      let same = on_session_close-Same up flagged s in
      let left =
        forget_daemon-tables _ h s (session_at flagged s) (session_at h s) flagged_daemons
          flagged_codes (ap (λ (x : Session). x.role) flagged_self ∙ marked_role)
          (ap (λ (x : Session). x.dev_id) flagged_self ∙ marked_dev) in
      (
        ap (λ (k : Hub). k.daemons) through ∙ same.daemons ∙ left.0,
        ap (λ (k : Hub). k.codes) through ∙ same.codes ∙ left.1,
      )
    where
      marked_role : marked.role ≡ (session_at h s).role
      marked_role = unfold marked in refl

      marked_dev : marked.dev_id ≡ (session_at h s).dev_id
      marked_dev = unfold marked in refl

      flagged_daemons : flagged.daemons ≡ h.daemons
      flagged_daemons = unfold flagged in refl

      flagged_codes : flagged.codes ≡ h.codes
      flagged_codes = unfold flagged in refl

  pub close_session-daemons :
      (close_session up h s).daemons ≡ (forget_daemon h s (session_at h s)).daemons
  close_session-daemons = device_tables.0

  pub close_session-codes :
      (close_session up h s).codes ≡ (forget_daemon h s (session_at h s)).codes
  close_session-codes = device_tables.1

-- When an open session ends, its own list and its claim are gone and it is marked closed, whatever streams there
-- are. An id that stood in the list then names no stream, and every other id names what it named before; a stream that
-- is left has the session at neither end.
pub close_session_clears :
    (up : ℕ → ℕ → Bool) (h : Hub) (s id : ℕ)
    → HubInv h
    → (session_at h s).closed ≡ false
    → (stream_ids (close_session up h s) s ≡ [])
      × (lookup s (close_session up h s).claimed ≡ none)
      × ((session_at (close_session up h s) s).closed ≡ true)
      × (lookup id (close_session up h s).streams
          ≡ (if contains id (stream_ids h s) then none else lookup id h.streams))
      × ((lookup id (close_session up h s).streams ≡ none)
          ⊎ ((p : Pipe) × (lookup id (close_session up h s).streams ≡ some p)
              × (lookup id h.streams ≡ some p)
              × (s ≢ p.phone)
              × (s ≢ p.host)))
unfolding session_at stream_ids marked
close_session_clears up h s id v o = (
  rw (close_session-by_sess up h s o) (rw (lookup-delete_self s h.by_sess) refl),
  rw (close_session-claimed up h s o) (lookup-delete_self s h.claimed),
  rw (close_session-sessions up h s o)
      (rw (lookup-insert_self s (marked up h s o) h.sessions) refl),
  rw (close_session-streams up h s o)
      (lookup-take_pipes id (or_empty (lookup s h.by_sess)) h.streams),
  left (lookup id (close_session up h s).streams) refl,
)
  where
    left :
        (found : Option Pipe)
        → lookup id (close_session up h s).streams ≡ found
        → (found ≡ none)
          ⊎ ((p : Pipe) × (found ≡ some p)
              × (lookup id h.streams ≡ some p)
              × (s ≢ p.phone)
              × (s ≢ p.host))
    left none e = inl refl
    left (some p) e =
        let (before, not_phone, not_host) =
          taken up h s id p v (rw (close_session-streams up h s o) at e) in
        inr (p, refl, before, not_phone, not_host)
