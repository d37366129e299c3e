-- ===== src/Relay/Hub/Same.antt =====
-- Writing changes nothing of the hub but the record of its writes.
use shell_sync.Base.{ℕ, ◌≡◌, refl, ◌∙◌, Bool, List, [], ◌∷◌, arith}
use shell_sync.Relay.Hub.{Hub, Pipe, Message, peer_of}
use shell_sync.Wire.Control.{Frame}
use shell_sync.Relay.Hub.Net.{write, write_control, write_data, send, notify_peers, close_frame}

pub record Same (h h' : Hub) : Type 0 where
  pub sessions : h'.sessions ≡ h.sessions
  pub daemons : h'.daemons ≡ h.daemons
  pub codes : h'.codes ≡ h.codes
  pub claimed : h'.claimed ≡ h.claimed
  pub streams : h'.streams ≡ h.streams
  pub by_sess : h'.by_sess ≡ h.by_sess
  pub next_id : h'.next_id ≡ h.next_id
  pub limiters : h'.limiters ≡ h.limiters
  pub metrics : h'.metrics ≡ h.metrics

abbrev pub same_refl : (h : Hub) → Same h h
same_refl h = record {
  sessions = refl;
  daemons = refl;
  codes = refl;
  claimed = refl;
  streams = refl;
  by_sess = refl;
  next_id = refl;
  limiters = refl;
  metrics = refl;
}

pub same_trans : {h k l : Hub} → Same h k → Same k l → Same h l
same_trans a b = record {
  sessions = b.sessions ∙ a.sessions;
  daemons = b.daemons ∙ a.daemons;
  codes = b.codes ∙ a.codes;
  claimed = b.claimed ∙ a.claimed;
  streams = b.streams ∙ a.streams;
  by_sess = b.by_sess ∙ a.by_sess;
  next_id = b.next_id ∙ a.next_id;
  limiters = b.limiters ∙ a.limiters;
  metrics = b.metrics ∙ a.metrics;
}

module _ (up : ℕ → ℕ → Bool) where
  pub write-Same : (h : Hub) (s : ℕ) (m : Message) → Same h (write up h s m).0
  unfolding write
  write-Same h s m = ground arith

  pub write_control-Same : (h : Hub) (s : ℕ) (f : Frame) → Same h (write_control up h s f).0
  unfolding write_control write
  write_control-Same h s f = ground arith

  pub write_data-Same :
      (h : Hub) (s id : ℕ) (bytes : List ℕ) → Same h (write_data up h s id bytes).0
  unfolding write_data write
  write_data-Same h s id bytes = ground arith

  pub send-Same : (h : Hub) (s : ℕ) (f : Frame) → Same h (send up h s f)
  unfolding send
  send-Same h s f = write_control-Same h s f

  pub notify_peers-Same : (s : ℕ) (ps : List (ℕ × Pipe)) (h : Hub) → Same h (notify_peers up s ps h)
  unfolding notify_peers
  notify_peers-Same s [] h = same_refl h
  notify_peers-Same s ((id, p) ∷ ps) h =
      same_trans (send-Same h (peer_of s p) (close_frame id "peer disconnected"))
        (notify_peers-Same s ps _)
