-- ===== src/Relay/Hub/Entries.antt =====
-- The entries that the handlers make in the tables of the hub keep its invariant (hub.go).
use shell_sync.Base.{
  ℕ, ◌<◌, ◌≡◌, refl, sym, ap, subst, ◌∙◌, true, String, none, List, length, nat_key, string_key,
  arith, inl, inr,
}
use shell_sync.Base.Dict.{Dict, lookup, insert, lookup-insert, lookup-insert_cases}
use shell_sync.Relay.Hub.{
  Hub, Session, Role, no_role, daemon, client, Pipe, or_closed, session_at, stream_ids, is_daemon,
  is_client, max_streams_per_client, max_streams_per_daemon,
}
use shell_sync.Relay.Hub.Handlers.{attach, register, next_stream, add_pipe}
use shell_sync.Relay.Hub.Links.{ids_at}
use shell_sync.Relay.Hub.Inv.{
  HubInv, role_at, same_role, Inv-roles, Inv-daemons, add_link, contains-add_link,
  contains-add_link_self, length-add_link, ids_at-add_link,
}

pub is_daemon-true : (r : Role) → is_daemon r ≡ true → r ≡ daemon
is_daemon-true daemon e = refl
is_daemon-true no_role e = cc
is_daemon-true client e = cc

pub is_client-true : (r : Role) → is_client r ≡ true → r ≡ client
is_client-true client e = refl
is_client-true no_role e = cc
is_client-true daemon e = cc

-- A pipe between a phone and a daemon that both have room.
pub add_pipe-HubInv :
    (h : Hub) (s d : ℕ) (dev : String)
    → role_at h.sessions s ≡ client
    → role_at h.sessions d ≡ daemon
    → length (ids_at h.by_sess s) < max_streams_per_client
    → length (ids_at h.by_sess d) < max_streams_per_daemon
    → HubInv h
    → HubInv (add_pipe h s d dev)
unfolding add_pipe stream_ids
add_pipe-HubInv h s d dev rs rd room_s room_d v = record {
  tables = record {
    linked_phone = λ i p e. elim (lookup-insert_cases i id q p h.streams e) [
      | inl (same, is) ↦
          ground (arith, is, contains-add_link i s d id b₁, contains-add_link_self s id h.by_sess)
      | inr old ↦
          contains-add_link i p.phone d id b₁
            (contains-add_link i p.phone s id h.by_sess (v.linked_phone i p old))
    ];
    linked_host = λ i p e. elim (lookup-insert_cases i id q p h.streams e) [
      | inl (same, is) ↦ ground (arith, is, contains-add_link_self d id b₁)
      | inr old ↦
          contains-add_link i p.host d id b₁
            (contains-add_link i p.host s id h.by_sess (v.linked_host i p old))
    ];
    phones = λ i p e. elim (lookup-insert_cases i id q p h.streams e) [
      | inl (same, is) ↦ subst (λ p. role_at h.sessions p.phone ≡ client) is rs
      | inr old ↦ v.phones i p old
    ];
    hosts = λ i p e. elim (lookup-insert_cases i id q p h.streams e) [
      | inl (same, is) ↦ subst (λ p. role_at h.sessions p.host ≡ daemon) is rd
      | inr old ↦ v.hosts i p old
    ];
    registered = v.registered;
    client_cap = λ t e. ground (
      arith,
      length-add_link t d id b₁,
      length-add_link t s id h.by_sess,
      v.client_cap t e,
      ap (role_at h.sessions) {x = d} {y = t},
    );
    daemon_cap = λ t. ground (
      arith,
      length-add_link t d id b₁,
      length-add_link t s id h.by_sess,
      length-add_link d s id h.by_sess,
      v.daemon_cap t,
      ap (role_at h.sessions) {x = s} {y = d},
    );
    unknown = λ t e. ground (
      arith,
      ids_at-add_link t d id b₁,
      ids_at-add_link t s id h.by_sess,
      v.unknown t e,
      ap (role_at h.sessions) {x = d} {y = t},
      ap (role_at h.sessions) {x = s} {y = t},
    );
  };
}
  where
    id : ℕ
    id = next_stream h.next_id

    q : Pipe
    q = record { phone = s; host = d; target = dev }

    b₁ : Dict ℕ (List ℕ)
    b₁ = add_link s id h.by_sess

-- A fresh session that has said hello.
pub attach-HubInv :
    (h : Hub) (s : ℕ) (x : Session) → lookup s h.sessions ≡ none → HubInv h → HubInv (attach h s x)
unfolding attach
attach-HubInv h s x fresh v = record {
  tables = record {
    linked_phone = v.linked_phone;
    linked_host = v.linked_host;
    phones = λ i p e. ground (
      arith,
      v.phones i p e,
      lookup-insert p.phone s x h.sessions,
      ap (λ t. lookup t h.sessions) {x = s} {y = p.phone},
    );
    hosts = λ i p e. ground (
      arith,
      v.hosts i p e,
      lookup-insert p.host s x h.sessions,
      ap (λ t. lookup t h.sessions) {x = s} {y = p.host},
    );
    registered = λ dev d e. ground (
      arith,
      v.registered dev d e,
      lookup-insert d s x h.sessions,
      ap (λ t. lookup t h.sessions) {x = s} {y = d},
    );
    client_cap = λ t e. ground (
      arith,
      v.client_cap t,
      v.unknown s,
      lookup-insert t s x h.sessions,
      ap (ids_at h.by_sess) {x = s} {y = t},
    );
    daemon_cap = v.daemon_cap;
    unknown = λ t e. ground (
      arith,
      v.unknown t,
      v.unknown s,
      lookup-insert t s x h.sessions,
      ap (ids_at h.by_sess) {x = s} {y = t},
    );
  };
}

pub register-HubInv :
    (h : Hub) (s : ℕ) (dev : String)
    → role_at h.sessions s ≡ daemon
    → HubInv h
    → HubInv (register h s dev)
unfolding register session_at
register-HubInv h s dev e v = record {
  tables =
      Inv-daemons _ h.daemons _ h.streams h.by_sess
        (λ d t l. same t ∙ elim (lookup-insert_cases d dev s t h.daemons l) [
          | inl (_, is) ↦ subst (λ u. role_at h.sessions u ≡ daemon) is e
          | inr old ↦ v.registered d t old
        ])
        (Inv-roles h.sessions _ h.daemons h.streams h.by_sess same v.tables);
}
  where
    same :
        (t : ℕ)
        → role_at
            (insert s
              (record (or_closed (lookup s h.sessions)) { role = daemon; dev_id = dev })
              h.sessions)
            t
          ≡ role_at h.sessions t
    same = same_role h.sessions s _ (sym e)
