-- ===== src/Relay/Hub/Preserve.antt =====
-- Every handler of the hub keeps its invariant.
use shell_sync.Base.{
  ℕ, ◌<◌, ◌≡◌, refl, ◌∙◌, Bool, ◌||◌, ◌&&◌, not, leb, String, Option, none, some, List, length,
  nat_key, string_key, ◌==◌, arith, Bool-cases, inl, inr,
}
use shell_sync.Base.Dict.{lookup}
use shell_sync.Wire.Control.{Frame, FrameType, frame}
use shell_sync.Relay.Limiter.{allow}
use shell_sync.Relay.Hub.{
  Hub, client, Pipe, CodeEntry, session_at, stream_ids, is_daemon, is_client, peer_of, valid_token,
  max_streams_per_client, max_streams_per_daemon, max_code_len, max_dev_id_len, max_sign_len,
}
use shell_sync.Relay.Hub.Net.{write_data, write_control}
use shell_sync.Relay.Hub.Handlers.{
  replace_stale, handle_reg, put_code, handle_code, use_code, handle_claim, announce, open_to,
  handle_open, accept_on, handle_accept, close_on, handle_close, route, on_data, on_control,
  limiter_of, or_claimed, expired,
}
use shell_sync.Relay.Hub.Cleanup.{
  write_control-HubInv, write_data-HubInv, send-HubInv, drop_stream-HubInv, close_session-HubInv,
  fail-HubInv,
}
use shell_sync.Relay.Hub.Closing.{close_session-roles}
use shell_sync.Relay.Hub.Links.{ids_at}
use shell_sync.Relay.Hub.Inv.{HubInv, role_at}
use shell_sync.Relay.Hub.Entries.{is_daemon-true, is_client-true, add_pipe-HubInv, register-HubInv}

module _ (up : ℕ → ℕ → Bool) where
  -- The end of a session changes no role.
  replace_stale-HubInv :
      (o : Option ℕ) (s : ℕ) (h : Hub) → HubInv h → HubInv (replace_stale up o s h)
  unfolding replace_stale
  replace_stale-HubInv none s h v = v
  replace_stale-HubInv (some old) s h v = elim (Bool-cases (old == s)) [
    | inl e ↦ rw e v
    | inr e ↦ rw e (close_session-HubInv up h old v)
  ]

  handle_code-HubInv :
      (h : Hub) (s : ℕ) (f : Frame) (now : ℕ) → HubInv h → HubInv (handle_code up h s f now)
  unfolding handle_code put_code
  handle_code-HubInv h s f now v =
      elim (Bool-cases (not (is_daemon (session_at h s).role) || (session_at h s).dev_id == "")) [
        | inl e ↦ rw e (fail-HubInv up h s _ _ v)
        | inr e ↦ rw e (elim (Bool-cases (not (valid_token f.code_text max_code_len))) [
          | inl k ↦ rw k (fail-HubInv up h s _ _ v)
          | inr k ↦ rw k (send-HubInv up _ s _ (record { tables = v.tables }))
        ])
      ]

  use_code-HubInv :
      (o : Option CodeEntry) (h : Hub) (s : ℕ) (code : String) (now : ℕ)
      → HubInv h
      → HubInv (use_code up o h s code now)
  unfolding use_code
  use_code-HubInv none h s code now v = fail-HubInv up h s _ _ v
  use_code-HubInv (some e) h s code now v = elim (Bool-cases (expired now e)) [
    | inl k ↦ rw k (fail-HubInv up _ s _ _ (record { tables = v.tables }))
    | inr k ↦ rw k (send-HubInv up _ s _ (record { tables = v.tables }))
  ]

  handle_claim-HubInv :
      (h : Hub) (s : ℕ) (f : Frame) (now : ℕ) → HubInv h → HubInv (handle_claim up h s f now)
  unfolding handle_claim
  handle_claim-HubInv h s f now v = elim (Bool-cases (not (is_client (session_at h s).role))) [
    | inl e ↦ rw e (fail-HubInv up h s _ _ v)
    | inr e ↦
        rw e
          (elim (Bool-cases
            (allow (limiter_of (lookup (session_at h s).remote_ip h.limiters)) now).1) [
              | inl k ↦ rw k (use_code-HubInv _ _ s _ now (record { tables = v.tables }))
              | inr k ↦ rw k (fail-HubInv up _ s _ _ (record { tables = v.tables }))
            ])
  ]

  announce-HubInv : (h : Hub) (s d id : ℕ) → HubInv h → HubInv (announce up h s d id)
  unfolding announce
  announce-HubInv h s d id v =
      let f : Frame = record (frame FrameType.open_stream) { stream_id = id } in
      let first = write_control up h d f in
      let v₁ = write_control-HubInv up h d f v in
      let v₂ = write_control-HubInv up first.0 s f v₁ in
      elim (Bool-cases (not first.1)) [
        | inl e ↦ rw e (drop_stream-HubInv up first.0 id _ v₁)
        | inr e ↦ rw e (elim (Bool-cases (not (write_control up first.0 s f).1)) [
          | inl k ↦ rw k (drop_stream-HubInv up _ id _ v₂)
          | inr k ↦ rw k v₂
        ])
      ]

  open_to-HubInv :
      (o : Option ℕ) (h : Hub) (s : ℕ) (dev : String)
      → lookup dev h.daemons ≡ o
      → role_at h.sessions s ≡ client
      → length (ids_at h.by_sess s) < max_streams_per_client
      → HubInv h
      → HubInv (open_to up o h s dev)
  unfolding open_to stream_ids
  open_to-HubInv none h s dev e r room v = fail-HubInv up h s _ _ v
  open_to-HubInv (some d) h s dev e r room v =
      elim (Bool-cases (leb max_streams_per_daemon (length (ids_at h.by_sess d)))) [
        | inl k ↦ rw k (fail-HubInv up h s _ _ v)
        | inr k ↦ rw k (
            announce-HubInv _ s d _
              (add_pipe-HubInv h s d dev r (v.registered dev d e) room (ground arith) v))
      ]

  pub handle_open-HubInv : (h : Hub) (s : ℕ) (f : Frame) → HubInv h → HubInv (handle_open up h s f)
  unfolding handle_open session_at stream_ids
  handle_open-HubInv h s f v =
      let dev = or_claimed f.dev_id (lookup s h.claimed) in
      elim (Bool-cases (not (is_client (role_at h.sessions s)))) [
        | inl e ↦ rw e (fail-HubInv up h s _ _ v)
        | inr e ↦ rw e (elim (Bool-cases (dev == "")) [
          | inl k ↦ rw k (fail-HubInv up h s _ _ v)
          | inr k ↦
              rw k (elim (Bool-cases (leb max_streams_per_client (length (ids_at h.by_sess s)))) [
                | inl l ↦ rw l (fail-HubInv up h s _ _ v)
                | inr l ↦ rw l (
                    open_to-HubInv _ h s dev refl (is_client-true _ (ground arith)) (ground arith)
                      v)
              ])
        ])
      ]

  accept_on-HubInv :
      (o : Option Pipe) (h : Hub) (s id : ℕ) → HubInv h → HubInv (accept_on up o h s id)
  unfolding accept_on
  accept_on-HubInv none h s id v = fail-HubInv up h s _ _ v
  accept_on-HubInv (some p) h s id v = elim (Bool-cases (p.host == s)) [
    | inl e ↦ rw e (send-HubInv up h p.phone _ v)
    | inr e ↦ rw e (fail-HubInv up h s _ _ v)
  ]

  handle_accept-HubInv : (h : Hub) (s : ℕ) (f : Frame) → HubInv h → HubInv (handle_accept up h s f)
  unfolding handle_accept
  handle_accept-HubInv h s f v = elim (Bool-cases (is_daemon (session_at h s).role)) [
    | inl e ↦ rw e (accept_on-HubInv _ h s f.stream_id v)
    | inr e ↦ rw e (fail-HubInv up h s _ _ v)
  ]

  close_on-HubInv :
      (o : Option Pipe) (h : Hub) (s id : ℕ) (why : String)
      → HubInv h
      → HubInv (close_on up o h s id why)
  unfolding close_on
  close_on-HubInv none h s id why v = v
  close_on-HubInv (some p) h s id why v =
      elim (Bool-cases (not (p.phone == s) && not (p.host == s))) [
        | inl e ↦ rw e (fail-HubInv up h s _ _ v)
        | inr e ↦ rw e (send-HubInv up _ (peer_of s p) _ (drop_stream-HubInv up h id why v))
      ]

  route-HubInv :
      (o : Option Pipe) (h : Hub) (s id : ℕ) (bytes : List ℕ)
      → HubInv h
      → HubInv (route up o h s id bytes)
  unfolding route
  route-HubInv none h s id bytes v = send-HubInv up h s _ v
  route-HubInv (some p) h s id bytes v =
      let w = write_data up h (peer_of s p) id bytes in
      let v' = write_data-HubInv up h (peer_of s p) id bytes v in
      elim (Bool-cases w.1) [
        | inl e ↦ rw e (record { tables = v'.tables })
        | inr e ↦ rw e (drop_stream-HubInv up w.0 id _ v')
      ]

  replace_stale-roles :
      (o : Option ℕ) (s : ℕ) (h : Hub) (t : ℕ)
      → role_at (replace_stale up o s h).sessions t ≡ role_at h.sessions t
  unfolding replace_stale
  replace_stale-roles none s h t = refl
  replace_stale-roles (some old) s h t = elim (Bool-cases (old == s)) [
    | inl e ↦ rw e refl
    | inr e ↦ rw e (close_session-roles up h old t)
  ]

  handle_reg-HubInv : (h : Hub) (s : ℕ) (f : Frame) → HubInv h → HubInv (handle_reg up h s f)
  unfolding handle_reg session_at
  handle_reg-HubInv h s f v = elim (Bool-cases (not (is_daemon (role_at h.sessions s)))) [
    | inl e ↦ rw e (fail-HubInv up h s _ _ v)
    | inr e ↦
        rw e
          (elim (Bool-cases
            (not (valid_token f.dev_id max_dev_id_len) || not (valid_token f.sign max_sign_len))) [
              | inl k ↦ rw k (fail-HubInv up h s _ _ v)
              | inr k ↦ rw k (
                  register-HubInv _ s f.dev_id
                    (replace_stale-roles (lookup f.dev_id h.daemons) s h s
                      ∙ is_daemon-true _ (ground arith))
                    (replace_stale-HubInv (lookup f.dev_id h.daemons) s h v))
            ])
  ]

  -- Whatever control frame a session sends, and whichever writes arrive, the invariant is kept.
  pub on_control-HubInv :
      (h : Hub) (s : ℕ) (f : Frame) (now : ℕ) → HubInv h → HubInv (on_control up h s f now)
  unfolding on_control
  on_control-HubInv h s f now v = dispatch f.t refl
    where
      dispatch : (t : FrameType) → f.t ≡ t → HubInv (on_control up h s f now)
      dispatch FrameType.reg e = rw (e, on_control) (handle_reg-HubInv h s f v)
      dispatch FrameType.code e = rw (e, on_control) (handle_code-HubInv h s f now v)
      dispatch FrameType.claim e = rw (e, on_control) (handle_claim-HubInv h s f now v)
      dispatch FrameType.open_stream e = rw (e, on_control) (handle_open-HubInv h s f v)
      dispatch FrameType.accept e = rw (e, on_control) (handle_accept-HubInv h s f v)
      dispatch FrameType.close e =
          rw (e, on_control) (unfold handle_close in close_on-HubInv _ h s f.stream_id f.why v)
      dispatch _ e = rw (e, on_control) (fail-HubInv up h s _ _ v)

  -- So is it by a data frame.
  pub on_data-HubInv :
      (h : Hub) (s id : ℕ) (bytes : List ℕ) → HubInv h → HubInv (on_data up h s id bytes)
  unfolding on_data
  on_data-HubInv h s id bytes v = route-HubInv (lookup id h.streams) h s id bytes v
