-- ===== src/Relay/Endpoint/Reach.antt =====
-- Every run of the relay, in any order of connections, messages and disconnections.
use shell_sync.Base.{
  ℕ, ◌≡◌, refl, Bool, false, String, Option, none, List, length, ltb, Bool-cases, inl, inr, nat_key,
  arith,
}
use shell_sync.Base.Dict.{lookup}
use shell_sync.Wire.Control.{Frame, Decoded, ok, err, max_control_size, decode_control}
use shell_sync.Wire.Data.{DataResult, decode_data}
use shell_sync.Wire.Data
use shell_sync.Relay.Hub.{Hub, new_hub, session_at}
use shell_sync.Relay.Hub.Net.{close_session, error_frame}
use shell_sync.Relay.Hub.Same.{send-Same}
use shell_sync.Relay.Hub.Inv.{HubInv}
use shell_sync.Relay.Hub.Cleanup.{close_session-HubInv, send-HubInv}
use shell_sync.Relay.Hub.Entries.{attach-HubInv}
use shell_sync.Relay.Hub.Preserve.{on_control-HubInv, on_data-HubInv}
use shell_sync.Relay.Endpoint.{
  Kind, text, binary, Hello, welcome, reject, serve_hello, serve, on_message, dispatch_control,
  dispatch_data, read_limit,
}

module _ (up : ℕ → ℕ → Bool) (unmarshal : List ℕ → Option Frame) where
  -- A new connection, a message of a session that is open, and the end of a session for any reason.
  pub data Step : Hub → Hub → Type 0 where
    connects :
        (h : Hub) (s : ℕ) (ip : String) (kind : Kind) (bytes : List ℕ)
        → lookup s h.sessions ≡ none
        → Step h (serve up unmarshal h s ip kind bytes)
    receives :
        (h : Hub) (s : ℕ) (kind : Kind) (bytes : List ℕ) (now : ℕ)
        → (session_at h s).closed ≡ false
        → Step h (on_message up unmarshal h s kind bytes now)
    ends : (h : Hub) (s : ℕ) → Step h (close_session up h s)

  pub data Reach : Hub → Type 0 where
    start : Reach new_hub
    next : {h k : Hub} → Reach h → Step h k → Reach k

  new-HubInv : HubInv new_hub
  unfolding new_hub lookup
  new-HubInv = record {
    tables = record {
      linked_phone = λ id p e. cc;
      linked_host = λ id p e. cc;
      phones = λ id p e. cc;
      hosts = λ id p e. cc;
      registered = λ dev d e. cc;
      client_cap = λ s e. omega arith;
      daemon_cap = λ s. omega arith;
      unknown = λ s e. refl;
    };
  }

  serve_hello-HubInv :
      (v : Hello) (h : Hub) (s : ℕ) (ip : String)
      → lookup s h.sessions ≡ none
      → HubInv h
      → HubInv (serve_hello up unmarshal v h s ip)
  unfolding serve_hello
  serve_hello-HubInv (reject why) h s ip e v = send-HubInv up h s (error_frame "protocol" why) v
  serve_hello-HubInv (welcome r) h s ip e v =
      attach-HubInv _ s _ (rw (send-Same up h s _).sessions e) (send-HubInv up h s _ v)

  on_message-HubInv :
      (h : Hub) (s : ℕ) (kind : Kind) (bytes : List ℕ) (now : ℕ)
      → HubInv h
      → HubInv (on_message up unmarshal h s kind bytes now)
  unfolding on_message
  on_message-HubInv h s text bytes now v = elim (Bool-cases (ltb max_control_size (length bytes))) [
    | inl e ↦ rw e (close_session-HubInv up h s v)
    | inr e ↦ rw e (controlled (decode_control unmarshal bytes))
  ]
    where
      controlled : (d : Decoded Frame) → HubInv (dispatch_control up unmarshal d h s now)
      controlled (ok f) = unfold dispatch_control in on_control-HubInv up h s f now v
      controlled (err x) = unfold dispatch_control in close_session-HubInv up h s v
  on_message-HubInv h s binary bytes now v = elim (Bool-cases (ltb read_limit (length bytes))) [
    | inl e ↦ rw e (close_session-HubInv up h s v)
    | inr e ↦ rw e (routed (decode_data bytes))
  ]
    where
      routed : (d : DataResult (ℕ × List ℕ)) → HubInv (dispatch_data up unmarshal d h s)
      routed (Data.ok (id, payload)) = unfold dispatch_data in on_data-HubInv up h s id payload v
      routed (Data.err x) = unfold dispatch_data in close_session-HubInv up h s v

  Step-HubInv : {h k : Hub} → Step h k → HubInv h → HubInv k
  unfolding serve
  Step-HubInv (connects h s ip kind bytes e) v = serve_hello-HubInv _ h s ip e v
  Step-HubInv (receives h s kind bytes now e) v = on_message-HubInv h s kind bytes now v
  Step-HubInv (ends h s) v = close_session-HubInv up h s v

  -- In every state that the relay can reach from its start, by connections, messages and disconnections
  -- in any order, with any of its writes failing: a stream joins a phone to a daemon and stands in the
  -- lists of both, only daemon sessions are registered, and no phone owns more than 16 streams and no
  -- session more than 64.
  pub Reach-HubInv : {h : Hub} → Reach h → HubInv h
  Reach-HubInv start = new-HubInv
  Reach-HubInv (next r st) = Step-HubInv st (Reach-HubInv r)
