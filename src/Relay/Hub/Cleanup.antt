-- ===== src/Relay/Hub/Cleanup.antt =====
-- Writing, dropping a stream and ending a session keep the invariant, and what the end of a session leaves.
use shell_sync.Base.{
  ℕ, ◌+◌, ◌≤◌, ◌≡◌, refl, sym, ap, ◌≢◌, ◌∙◌, Bool, true, ◌&&◌, not, ltb, String, Option, none, some,
  List, [], ◌∷◌, length, nat_key, string_key, ◌==◌, arith, Bool-cases, inl, inr,
}
use shell_sync.Base.Dict.{Dict, lookup, delete, lookup-delete, lookup-delete-some, lookup-delete_ne}
use shell_sync.Wire.Control.{Frame}
use shell_sync.Wire.Data.{max_chunk}
use shell_sync.Relay.Hub.{
  Hub, Session, Pipe, Message, session_at, stream_ids, is_daemon, peer_of, take_pipes,
  remove_session_stream,
}
use shell_sync.Relay.Hub.Net.{
  is_empty, absent_or_self, error_frame, write, write_data, write_control, send, drop_pipe,
  drop_stream, notify_peers, forget_daemon, detach, on_session_close, close_session, fail,
}
use shell_sync.Relay.Hub.Links.{
  contains, ids_at, contains-remove_session_stream, length-remove_session_stream, lookup-take_pipes,
}
use shell_sync.Relay.Hub.Inv.{HubInv, same_role, Inv-roles, Inv-daemons, Inv-streams}

module _ (up : ℕ → ℕ → Bool) where
  pub write-HubInv : (h : Hub) (s : ℕ) (m : Message) → HubInv h → HubInv (write up h s m).0
  unfolding write
  write-HubInv h s m v = elim (Bool-cases (up h.writes s)) [
    | inl e ↦ rw e (record { tables = v.tables })
    | inr e ↦ rw e (record { tables = v.tables })
  ]

  pub write_control-HubInv :
      (h : Hub) (s : ℕ) (f : Frame) → HubInv h → HubInv (write_control up h s f).0
  unfolding write_control
  write_control-HubInv h s f v = elim (Bool-cases (is_empty f.t)) [
    | inl e ↦ rw e v
    | inr e ↦ rw e (write-HubInv h s _ v)
  ]

  pub send-HubInv : (h : Hub) (s : ℕ) (f : Frame) → HubInv h → HubInv (send up h s f)
  unfolding send
  send-HubInv h s f v = write_control-HubInv h s f v

  pub write_data-HubInv :
      (h : Hub) (s id : ℕ) (bytes : List ℕ) → HubInv h → HubInv (write_data up h s id bytes).0
  unfolding write_data
  write_data-HubInv h s id bytes v = elim (Bool-cases (ltb max_chunk (length bytes))) [
    | inl e ↦ rw e v
    | inr e ↦ rw e (write-HubInv h s _ v)
  ]

  drop_pipe-HubInv :
      (h : Hub) (id : ℕ) (why : String) (o : Option Pipe)
      → HubInv h
      → HubInv (drop_pipe up h id why o)
  unfolding drop_pipe
  drop_pipe-HubInv h id why none v = v
  drop_pipe-HubInv h id why (some p) v = send-HubInv _ p.host _ (
      send-HubInv _ p.phone _ (record {
        tables =
            Inv-streams h.sessions h.daemons h.streams _ h.by_sess _
              (λ x q e.
                let k = lookup-delete-some x id q h.streams e in
                (k.1, kept x q.phone (λ y. k.0 (sym y)), kept x q.host (λ y. k.0 (sym y))))
              shorter v.tables;
      }))
    where
      once : Dict ℕ (List ℕ)
      once = remove_session_stream p.phone id h.by_sess

      kept :
          (x t : ℕ)
          → x ≢ id
          → contains x (ids_at (remove_session_stream p.host id once) t)
            ≡ contains x (ids_at h.by_sess t)
      kept x t ne =
          contains-remove_session_stream x t p.host id once ne
          ∙ contains-remove_session_stream x t p.phone id h.by_sess ne

      shorter :
          (t : ℕ)
          → length (ids_at (remove_session_stream p.host id once) t) ≤ length (ids_at h.by_sess t)
      shorter t = omega (
        arith,
        length-remove_session_stream t p.host id once,
        length-remove_session_stream t p.phone id h.by_sess,
      )

  pub drop_stream-HubInv :
      (h : Hub) (id : ℕ) (why : String) → HubInv h → HubInv (drop_stream up h id why)
  unfolding drop_stream
  drop_stream-HubInv h id why v = drop_pipe-HubInv h id why _ v

  notify_peers-HubInv :
      (s : ℕ) (ps : List (ℕ × Pipe)) (h : Hub) → HubInv h → HubInv (notify_peers up s ps h)
  unfolding notify_peers
  notify_peers-HubInv s [] h v = v
  notify_peers-HubInv s ((id, p) ∷ ps) h v =
      notify_peers-HubInv s ps _ (send-HubInv h (peer_of s p) _ v)

  forget_daemon-HubInv : (h : Hub) (s : ℕ) (x : Session) → HubInv h → HubInv (forget_daemon h s x)
  unfolding forget_daemon
  forget_daemon-HubInv h s x v = elim (Bool-cases (is_daemon x.role && not (x.dev_id == ""))) [
    | inr e ↦ rw e v
    | inl e ↦ rw e (elim (Bool-cases (absent_or_self (lookup x.dev_id h.daemons) s)) [
      | inr k ↦ rw k (record { tables = v.tables })
      | inl k ↦ rw k (record {
        tables =
            Inv-daemons h.sessions h.daemons _ h.streams h.by_sess
              (λ dev t l. v.registered dev t (lookup-delete-some dev x.dev_id t h.daemons l).1)
              v.tables;
      })
    ])
  ]

  -- A pipe that is left after the ids of s are taken is a pipe of h, and s is neither of its ends.
  pub taken :
      (h : Hub) (s id : ℕ) (p : Pipe)
      → HubInv h
      → lookup id (take_pipes (stream_ids h s) h.streams).1 ≡ some p
      → (lookup id h.streams ≡ some p) × (s ≢ p.phone) × (s ≢ p.host)
  unfolding stream_ids
  taken h s id p v e =
      let k = lookup-take_pipes id (stream_ids h s) h.streams in
      (
        ground (arith, k),
        λ q. ground (arith, k, v.linked_phone id p, ap (ids_at h.by_sess) q),
        λ q. ground (arith, k, v.linked_host id p, ap (ids_at h.by_sess) q),
      )

  -- The lists of the other sessions are left alone.
  ids_at-delete : (s t : ℕ) (b : Dict ℕ (List ℕ)) → s ≢ t → ids_at (delete s b) t ≡ ids_at b t
  ids_at-delete s t b h = rw (lookup-delete_ne t s b h)

  length-delete :
      (s t : ℕ) (b : Dict ℕ (List ℕ)) → length (ids_at (delete s b) t) ≤ length (ids_at b t)
  length-delete s t b = ground (arith, lookup-delete t s b)

  -- forget_daemon touches neither the sessions nor the streams.
  forget_daemon-streams :
      (h : Hub) (s : ℕ) (x : Session)
      → ((forget_daemon h s x).streams ≡ h.streams) × ((forget_daemon h s x).by_sess ≡ h.by_sess)
  unfolding forget_daemon
  forget_daemon-streams h s x = ground arith

  detach-HubInv : (h : Hub) (s : ℕ) → HubInv h → HubInv (detach h s).0
  unfolding detach
  detach-HubInv h s v = record {
    tables =
        Inv-streams h₂.sessions h₂.daemons h₂.streams (take_pipes (stream_ids h s) h.streams).1
          h₂.by_sess (delete s h.by_sess) kept shorter v₂.tables;
  }
    where
      h₁ : Hub
      h₁ = record h {
        metrics = record h.metrics { conns_ended = h.metrics.conns_ended + 1 };
        claimed = delete s h.claimed;
      }

      h₂ : Hub
      h₂ = forget_daemon h₁ s (session_at h s)

      v₂ : HubInv h₂
      v₂ = forget_daemon-HubInv h₁ s (session_at h s) (record { tables = v.tables })

      kept :
          (id : ℕ) (p : Pipe)
          → lookup id (take_pipes (stream_ids h s) h.streams).1 ≡ some p
          → (lookup id h₂.streams ≡ some p)
            × (contains id (ids_at (delete s h.by_sess) p.phone)
                ≡ contains id (ids_at h₂.by_sess p.phone))
            × (contains id (ids_at (delete s h.by_sess) p.host)
                ≡ contains id (ids_at h₂.by_sess p.host))
      kept id p e =
          let (t, b) = forget_daemon-streams h₁ s (session_at h s) in
          let k = taken h s id p v e in
          (
            rw t k.0,
            rw b (ap (contains id) (ids_at-delete s p.phone h.by_sess k.1)),
            rw b (ap (contains id) (ids_at-delete s p.host h.by_sess k.2)),
          )

      shorter : (t : ℕ) → length (ids_at (delete s h.by_sess) t) ≤ length (ids_at h₂.by_sess t)
      shorter t = rw (forget_daemon-streams h₁ s (session_at h s)).1 (length-delete s t h.by_sess)

  on_session_close-HubInv : (h : Hub) (s : ℕ) → HubInv h → HubInv (on_session_close up h s)
  unfolding on_session_close
  on_session_close-HubInv h s v = notify_peers-HubInv s (detach h s).1 _ (detach-HubInv h s v)

  pub close_session-HubInv : (h : Hub) (s : ℕ) → HubInv h → HubInv (close_session up h s)
  unfolding close_session session_at
  close_session-HubInv h s v = elim (Bool-cases (session_at h s).closed) [
    | inl e ↦ rw e v
    | inr e ↦ rw e (
        on_session_close-HubInv _ s (record {
          tables =
              Inv-roles h.sessions _ h.daemons h.streams h.by_sess
                (same_role h.sessions s (record (session_at h s) { closed = true }) refl) v.tables;
        }))
  ]

  pub fail-HubInv : (h : Hub) (s : ℕ) (code why : String) → HubInv h → HubInv (fail up h s code why)
  unfolding fail
  fail-HubInv h s code why v = close_session-HubInv _ s (send-HubInv h s (error_frame code why) v)
