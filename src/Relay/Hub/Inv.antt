-- ===== src/Relay/Hub/Inv.antt =====
-- The invariant of the hub's tables, and that the tables' elementary changes keep it.
use shell_sync.Base.{
  ℕ, ◌+◌, ◌≤◌, ◌≡◌, refl, sym, ap, ◌∙◌, true, String, some, List, [], ◌∷◌, ◌++◌, length,
  length-append, nat_key, string_key, ◌==◌, if◌then◌else◌, arith,
}
use shell_sync.Base.Dict.{Dict, lookup, insert, lookup-insert}
use shell_sync.Relay.Hub.{
  Hub, Session, Role, no_role, daemon, client, Pipe, or_closed, max_streams_per_client,
  max_streams_per_daemon,
}
use shell_sync.Relay.Hub.Links.{contains, ids_at, contains-append}

abbrev pub role_at : Dict ℕ Session → ℕ → Role
role_at m s = (or_closed (lookup s m)).role

-- Each pipe joins a phone and a daemon, and stands in the lists of both; the lists keep within the
-- caps; a registered session is a daemon; a session that nobody accepted owns no stream.
pub record Inv (sessions : Dict ℕ Session) (daemons : Dict String ℕ) (streams : Dict ℕ Pipe)
    (by_sess : Dict ℕ (List ℕ)) : Type 0 where
  pub linked_phone :
      (id : ℕ) (p : Pipe) → lookup id streams ≡ some p → contains id (ids_at by_sess p.phone) ≡ true
  pub linked_host :
      (id : ℕ) (p : Pipe) → lookup id streams ≡ some p → contains id (ids_at by_sess p.host) ≡ true
  pub phones : (id : ℕ) (p : Pipe) → lookup id streams ≡ some p → role_at sessions p.phone ≡ client
  pub hosts : (id : ℕ) (p : Pipe) → lookup id streams ≡ some p → role_at sessions p.host ≡ daemon
  pub registered :
      (dev : String) (d : ℕ) → lookup dev daemons ≡ some d → role_at sessions d ≡ daemon
  pub client_cap :
      (s : ℕ) → role_at sessions s ≡ client → length (ids_at by_sess s) ≤ max_streams_per_client
  pub daemon_cap : (s : ℕ) → length (ids_at by_sess s) ≤ max_streams_per_daemon
  pub unknown : (s : ℕ) → role_at sessions s ≡ no_role → ids_at by_sess s ≡ []

pub record HubInv (h : Hub) : Type 0 where
  pub tables : Inv h.sessions h.daemons h.streams h.by_sess
  pub open tables use *

-- Only the roles of the sessions matter.
pub Inv-roles :
    (m m' : Dict ℕ Session) (d : Dict String ℕ) (t : Dict ℕ Pipe) (b : Dict ℕ (List ℕ))
    → ((s : ℕ) → role_at m' s ≡ role_at m s)
    → Inv m d t b
    → Inv m' d t b
Inv-roles m m' d t b same v = record {
  linked_phone = v.linked_phone;
  linked_host = v.linked_host;
  phones = λ id p e. same p.phone ∙ v.phones id p e;
  hosts = λ id p e. same p.host ∙ v.hosts id p e;
  registered = λ dev s e. same s ∙ v.registered dev s e;
  client_cap = λ s e. v.client_cap s (sym (same s) ∙ e);
  daemon_cap = v.daemon_cap;
  unknown = λ s e. v.unknown s (sym (same s) ∙ e);
}

-- A session that is stored again under its own role.
pub same_role :
    (m : Dict ℕ Session) (s : ℕ) (x : Session)
    → x.role ≡ role_at m s
    → (t : ℕ) → role_at (insert s x m) t ≡ role_at m t
same_role m s x e t = ground (arith, lookup-insert t s x m, ap (role_at m) {x = s} {y = t})

-- Fewer registrations are no harm.
pub Inv-daemons :
    (m : Dict ℕ Session) (d d' : Dict String ℕ) (t : Dict ℕ Pipe) (b : Dict ℕ (List ℕ))
    → ((dev : String) (s : ℕ) → lookup dev d' ≡ some s → role_at m s ≡ daemon)
    → Inv m d t b
    → Inv m d' t b
Inv-daemons m d d' t b good v = record {
  linked_phone = v.linked_phone;
  linked_host = v.linked_host;
  phones = v.phones;
  hosts = v.hosts;
  registered = good;
  client_cap = v.client_cap;
  daemon_cap = v.daemon_cap;
  unknown = v.unknown;
}

-- Fewer streams, with lists that are no longer and still hold what is left.
pub Inv-streams :
    (m : Dict ℕ Session) (d : Dict String ℕ) (t t' : Dict ℕ Pipe) (b b' : Dict ℕ (List ℕ))
    → ((id : ℕ) (p : Pipe)
        → lookup id t' ≡ some p
        → (lookup id t ≡ some p)
          × (contains id (ids_at b' p.phone) ≡ contains id (ids_at b p.phone))
          × (contains id (ids_at b' p.host) ≡ contains id (ids_at b p.host)))
    → ((s : ℕ) → length (ids_at b' s) ≤ length (ids_at b s))
    → Inv m d t b
    → Inv m d t' b'
Inv-streams m d t t' b b' kept shorter v = record {
  linked_phone = λ id p e. let k = kept id p e in k.1 ∙ v.linked_phone id p k.0;
  linked_host = λ id p e. let k = kept id p e in k.2 ∙ v.linked_host id p k.0;
  phones = λ id p e. v.phones id p (kept id p e).0;
  hosts = λ id p e. v.hosts id p (kept id p e).0;
  registered = v.registered;
  client_cap = λ s e. omega (arith, shorter s, v.client_cap s e);
  daemon_cap = λ s. omega (arith, shorter s, v.daemon_cap s);
  unknown = λ s e. nothing_shorter (ids_at b' s) (ids_at b s) (v.unknown s e) (shorter s);
}
  where
    nothing_shorter : (xs ys : List ℕ) → ys ≡ [] → length xs ≤ length ys → xs ≡ []
    nothing_shorter [] ys e h = refl
    nothing_shorter (x ∷ xs) ys e h = absurd (omega (arith, ap length e))

abbrev pub add_link : ℕ → ℕ → Dict ℕ (List ℕ) → Dict ℕ (List ℕ)
add_link s id b = insert s (ids_at b s ++ id ∷ []) b

pub ids_at-add_link :
    (t s id : ℕ) (b : Dict ℕ (List ℕ))
    → ids_at (add_link s id b) t ≡ (if s == t then ids_at b s ++ id ∷ [] else ids_at b t)
ids_at-add_link t s id b = rw lookup-insert (ground arith)

pub contains-add_link :
    (x t s id : ℕ) (b : Dict ℕ (List ℕ))
    → contains x (ids_at b t) ≡ true
    → contains x (ids_at (add_link s id b) t) ≡ true
contains-add_link x t s id b h = ground (
  arith,
  ids_at-add_link t s id b,
  contains-append x id (ids_at b t),
  ap (ids_at b) {x = s} {y = t},
)

pub contains-add_link_self :
    (s id : ℕ) (b : Dict ℕ (List ℕ)) → contains id (ids_at (add_link s id b) s) ≡ true
contains-add_link_self s id b =
    ground (arith, ids_at-add_link s s id b, contains-append id id (ids_at b s))

pub length-add_link :
    (t s id : ℕ) (b : Dict ℕ (List ℕ))
    → length (ids_at (add_link s id b) t)
      ≡ (if s == t then length (ids_at b s) + 1 else length (ids_at b t))
length-add_link t s id b =
    ground (arith, ids_at-add_link t s id b, length-append (ids_at b s) (id ∷ []))
