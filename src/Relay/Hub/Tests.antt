-- ===== src/Relay/Hub/Tests.antt =====
-- A hub with a daemon (session 2), a phone (session 1) and another phone (session 3), and the theorems
-- about the hub at it.
use shell_sync.Base.{
  ℕ, ◌+◌, ◌≤◌, ◌<◌, ◌≡◌, refl, ◌≢◌, ◌⊎◌, true, false, not, String, none, some, List, [], ◌∷◌,
  length, nat_key, string_key, arith, inl, ◌==◌, if◌then◌else◌,
}
use shell_sync.Base.Dict.{lookup, insert, delete, kept, ne_of_beq}
use shell_sync.Wire.Control.{Frame, FrameType, frame}
use shell_sync.Relay.Limiter.{allow, new_limiter, recent}
use shell_sync.Relay.Hub.{
  Hub, Session, Role, Pipe, CodeEntry, daemon, client, session_at, stream_ids, valid_token,
  printable, max_code_ttl, max_dev_id_len,
}
use shell_sync.Relay.Hub.Net.{close_session, send, write_control, write}
use shell_sync.Relay.Hub.Handlers.{
  add_pipe, handle_open, handle_code, handle_claim, use_code, code_ttl, expired, on_data,
  handle_close, next_stream, handle_reg,
}
use shell_sync.Relay.Hub.Links.{contains}
use shell_sync.Relay.Hub.Inv.{HubInv}
use shell_sync.Relay.Hub.Closing.{close_session_clears}
use shell_sync.Relay.Hub.Leaks.{
  MayOpen, reliable, reconnect_leaks, registration_survives, MayRegister,
}
use shell_sync.Relay.Hub.Claims.{handle_code_records, claim-Paid, claim_binds}
use shell_sync.Relay.Hub.Streams.{
  delivered, on_data_routes, foreign_data_delivered, add_pipe_fresh, handle_close_removes,
}

abbrev pipe : Pipe
pipe = record { phone = 1; host = 2; target = "dev" }

abbrev live_code : CodeEntry
live_code = record { owner = "dev"; expires_at = 100 }

abbrev of_role : Role → String → Session
of_role r dev = record { role = r; dev_id = dev; remote_ip = "10.0.0.9"; closed = false }

abbrev paired : Hub
paired = record {
  sessions = (1, of_role client "") ∷ (2, of_role daemon "dev") ∷ (3, of_role client "") ∷ [];
  daemons = ("dev", 2) ∷ ("old", 2) ∷ [];
  codes = ("482913", live_code) ∷ [];
  claimed = [];
  streams = (7, pipe) ∷ [];
  by_sess = (1, 7 ∷ []) ∷ (2, 7 ∷ []) ∷ [];
  next_id = 7;
  limiters = [];
  metrics = record {
    conns_opened = 3;
    conns_ended = 0;
    code_reg = 1;
    claims = 0;
    claim_hit = 0;
    relayed = 0;
  };
  writes = 0;
  sent = [];
}

paired-HubInv : HubInv paired
unfolding lookup contains
paired-HubInv = record {
  tables = record {
    linked_phone = λ id p e. ground arith;
    linked_host = λ id p e. ground arith;
    phones = λ id p e. ground arith;
    hosts = λ id p e. ground arith;
    registered = λ dev d e. ground arith;
    client_cap = λ s e. ground arith;
    daemon_cap = λ s. ground arith;
    unknown = λ s e. ground arith;
  };
}

close_session_clears_example :
    (stream_ids (close_session reliable paired 3) 3 ≡ [])
    × (lookup 3 (close_session reliable paired 3).claimed ≡ none)
    × ((session_at (close_session reliable paired 3) 3).closed ≡ true)
    × (lookup 7 (close_session reliable paired 3).streams
        ≡ (if contains 7 (stream_ids paired 3) then none else lookup 7 paired.streams))
    × ((lookup 7 (close_session reliable paired 3).streams ≡ none)
        ⊎ ((p : Pipe) × (lookup 7 (close_session reliable paired 3).streams ≡ some p)
            × (lookup 7 paired.streams ≡ some p)
            × (3 ≢ p.phone)
            × (3 ≢ p.host)))
unfolding session_at lookup
close_session_clears_example = close_session_clears reliable paired 3 7 paired-HubInv refl

abbrev open_dev : Frame
open_dev = record (frame FrameType.open_stream) { dev_id = "dev" }

open_dev-MayOpen : MayOpen paired 3 open_dev 2
unfolding session_at stream_ids lookup
open_dev-MayOpen = record {
  phone = refl;
  named = refl;
  target = refl;
  phone_room = omega arith;
  host_room = omega arith;
}

reconnect_leaks_example :
    (length (stream_ids (close_session reliable (handle_open reliable paired 3 open_dev) 3) 2)
      ≡ length (stream_ids paired 2) + 1)
    × (lookup
          (next_stream paired.next_id)
          (close_session reliable (handle_open reliable paired 3 open_dev) 3).streams
        ≡ none)
unfolding session_at lookup
reconnect_leaks_example = reconnect_leaks paired 3 2 open_dev paired-HubInv refl open_dev-MayOpen

abbrev reg_as : String → Frame
reg_as dev = record (frame FrameType.reg) { dev_id = dev; sign = "s" }

may_register :
    (dev : String)
    → valid_token dev max_dev_id_len ≡ true
    → lookup dev paired.daemons ≡ none
    → MayRegister paired 2 (reg_as dev)
unfolding session_at valid_token printable lookup
may_register dev valid free = record {
  host = refl;
  valid_id = valid;
  valid_sign = refl;
  free = free;
}

registration_survives_example :
    (lookup "one"
        (close_session reliable
          (handle_reg reliable (handle_reg reliable paired 2 (reg_as "one")) 2 (reg_as "two"))
          2).daemons
      ≡ some 2)
    × ((session_at
          (close_session reliable
            (handle_reg reliable (handle_reg reliable paired 2 (reg_as "one")) 2 (reg_as "two"))
            2)
          2).closed
        ≡ true)
unfolding session_at lookup valid_token printable
registration_survives_example =
    registration_survives reliable paired 2 (reg_as "one") (reg_as "two") refl
      (ne_of_beq "two" "one" refl) (may_register "one" refl refl) (may_register "two" refl refl)

abbrev code_frame : String → Frame
code_frame c = record (frame FrameType.code) { code_text = c; ttl = 120 }

handle_code_records_example :
    (lookup "555555" (handle_code reliable paired 2 (code_frame "555555") 50).codes
      ≡ some (record { owner = (session_at paired 2).dev_id; expires_at = 50 + code_ttl 120 }))
    × (0 < code_ttl 120)
    × (code_ttl 120 ≤ max_code_ttl)
    × (lookup "482913" (handle_code reliable paired 2 (code_frame "555555") 50).codes
        ≡ kept (λ e. not (expired 50 e)) (lookup "482913" paired.codes))
unfolding session_at lookup valid_token printable
handle_code_records_example =
    handle_code_records reliable paired 2 (code_frame "555555") 50 "482913" refl
      (ne_of_beq "dev" "" refl) refl (ne_of_beq "555555" "482913" refl)

claim-Paid_example :
    (lookup 1 paired.claimed ≡ some "dev")
    ⊎ ((e : CodeEntry) × (◌≡◌ {A = ℕ} 1 1)
        × (lookup "482913" paired.codes ≡ some e)
        × (e.owner ≡ "dev")
        × (60 ≤ e.expires_at)
        × (lookup "482913" (handle_claim reliable paired 1 (code_frame "482913") 60).codes ≡ none))
unfolding handle_claim use_code session_at lookup insert delete send write_control write allow
    new_limiter recent
claim-Paid_example = claim-Paid reliable 1 "dev" paired 1 (code_frame "482913") 60 refl

claim_binds_example :
    (lookup 1 (handle_claim reliable paired 1 (code_frame "482913") 60).claimed ≡ some "dev")
    × (lookup "482913" (handle_claim reliable paired 1 (code_frame "482913") 60).codes ≡ none)
    × ((handle_claim reliable paired 1 (code_frame "482913") 60).metrics.claim_hit ≡ 0 + 1)
unfolding session_at lookup allow new_limiter recent
claim_binds_example =
    claim_binds reliable paired 1 (code_frame "482913") 60 live_code refl refl refl (omega arith)

abbrev bytes : List ℕ
bytes = 1 ∷ 2 ∷ 3 ∷ []

on_data_routes_example :
    (on_data reliable paired 1 7 bytes ≡ delivered paired 2 7 bytes)
    × (on_data reliable paired 2 7 bytes ≡ delivered paired 1 7 bytes)
unfolding lookup
on_data_routes_example =
    on_data_routes reliable paired 7 pipe bytes refl (λ e. ground arith) (omega arith) refl refl

foreign_data_delivered_example : on_data reliable paired 3 7 bytes ≡ delivered paired 2 7 bytes
unfolding lookup
foreign_data_delivered_example =
    foreign_data_delivered reliable paired 3 7 pipe bytes refl (λ e. ground arith)
      (λ e. ground arith) (omega arith) refl

paired_issued : (i : ℕ) (q : Pipe) → lookup i paired.streams ≡ some q → i ≤ paired.next_id
unfolding lookup
paired_issued i q e = ground arith

add_pipe_fresh_example :
    ((add_pipe paired 3 2 "dev").next_id ≡ 8)
    × (lookup 8 paired.streams ≡ none)
    × (lookup 7 (add_pipe paired 3 2 "dev").streams ≡ (
        if ◌==◌ {A = ℕ} 8 7
        then some (record { phone = 3; host = 2; target = "dev" })
        else lookup 7 paired.streams))
add_pipe_fresh_example = add_pipe_fresh paired 3 2 7 "dev" paired_issued (omega arith)

handle_close_removes_example :
    (lookup 7
        (handle_close reliable paired 1 (record (frame FrameType.close) { stream_id = 7 })).streams
      ≡ none)
    × (lookup 8
          (handle_close reliable paired 1
            (record (frame FrameType.close) { stream_id = 7 })).streams
        ≡ lookup 8 paired.streams)
unfolding lookup
handle_close_removes_example =
    handle_close_removes reliable paired 1 8 (record (frame FrameType.close) { stream_id = 7 }) pipe
      refl (inl refl) (λ e. ground arith)
