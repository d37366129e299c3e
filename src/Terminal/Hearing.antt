-- ===== src/Terminal/Hearing.antt =====
-- What an output handler of a session hears (session.go, manager.go and the log of daemon/internal/logstore).
pub mod Moves
pub mod Inputs
pub mod Bytes
use shell_sync.Base.{
  string_key, nat_key, ℕ, zero, suc, ◌+◌, ◌<◌, ◌≡◌, ◌≢◌, refl, sym, ap, subst, ◌∙◌, Bool, true,
  false, ◌&&◌, String, Option, none, some, List, [], ◌∷◌, ◌++◌, length, length-append, drop,
  keep_if, nat_eqb, if◌then◌else◌, ◌==◌, arith, Bool-cases, inl, inr,
}
use shell_sync.Base.Order.{ℤ}
use shell_sync.Base.Dict.{Dict, lookup, insert, lookup-insert_self, beq_self}
use mathlib.Core.List.{append-nil, append_assoc}
use shell_sync.Log.{Log, Row, Direction, stdin, stdout, Backend, set_pending_resize}
use shell_sync.Log.Conserve.{Event, appends, timers, resizes, markers}
use shell_sync.Log.Growth.{Grows, More, Grows-step}
use shell_sync.Terminal.{
  Session, Manager, Call, hears, told, log_of, log_to, dispatch, heard_by, heard_all, subs_of,
  to_session, set_session, set_in,
}
use shell_sync.Terminal.Sessions.{read, write, tick, mark_grid, resize}
use shell_sync.Terminal.Sound.{unwrap, clash_none}

-- The chunks that one handler of one session has been called with.
unfoldable pub heard_of : ℕ → ℕ → List Call → List Row
heard_of h k [] = []
heard_of h k (hears i j r ∷ cs) =
    let rest = heard_of h k cs in if i == h && j == k then r ∷ rest else rest
heard_of h k (told i j status code ∷ cs) = heard_of h k cs

pub heard_of-append :
    (h k : ℕ) (cs ds : List Call) → heard_of h k (cs ++ ds) ≡ heard_of h k cs ++ heard_of h k ds
unfolding heard_of
heard_of-append h k [] ds = refl
heard_of-append h k (hears i j r ∷ cs) ds = elim (Bool-cases (i == h && j == k)) [
  | inl e ↦ rw e (ap (◌∷◌ r) (heard_of-append h k cs ds))
  | inr e ↦ rw e (heard_of-append h k cs ds)
]
heard_of-append h k (told i j status code ∷ cs) ds = heard_of-append h k cs ds

-- A handler is subscribed once.
abbrev pub Once : ℕ → List ℕ → Type 0
Once k ks = keep_if (λ j. j == k) ks ≡ k ∷ []

repeated : Row → List ℕ → List Row
repeated r [] = []
repeated r (k ∷ ks) = r ∷ repeated r ks

heard_of-heard_by :
    (h k : ℕ) (ks : List ℕ) (r : Row)
    → heard_of h k (heard_by h ks r) ≡ repeated r (keep_if (λ j. j == k) ks)
unfolding heard_of repeated
heard_of-heard_by h k [] r = refl
heard_of-heard_by h k (j ∷ ks) r = elim (Bool-cases (j == k)) [
  | inl e ↦ rw (beq_self h, e) (ap (◌∷◌ r) (heard_of-heard_by h k ks r))
  | inr e ↦ rw (beq_self h, e) (heard_of-heard_by h k ks r)
]

heard_of-heard_all :
    (h k : ℕ) (ks : List ℕ) (rs : List Row) → Once k ks → heard_of h k (heard_all h ks rs) ≡ rs
unfolding heard_of heard_all repeated
heard_of-heard_all h k ks [] once = refl
heard_of-heard_all h k ks (r ∷ rs) once =
    heard_of-append h k (heard_by h ks r) (heard_all h ks rs)
    ∙ (ap (λ (xs : List Row). xs ++ heard_of h k (heard_all h ks rs))
          (heard_of-heard_by h k ks r ∙ ap (repeated r) once)
        ∙ ap (◌∷◌ r) (heard_of-heard_all h k ks rs once))

-- The map names the session for its terminal, and the handler is subscribed to it.
pub record Attached (id : String) (h k : ℕ) (m : Manager) : Type 0 where
  pub session : Session
  pub named : lookup id m.sessions ≡ some h
  pub object : lookup h m.heap ≡ some session
  pub same_id : session.id ≡ id
  pub known : k < session.next_sub
  pub once : Once k session.output_subs

drop-length : {A : Type 0} (xs ys : List A) → drop (length xs) (xs ++ ys) ≡ ys
drop-length [] ys = refl
drop-length (x ∷ xs) ys = drop-length xs ys

pub log_of-log_to : (m : Manager) (id : String) (l : Log) → log_of (log_to m id l) id ≡ l
unfolding log_of log_to dispatch
log_of-log_to m id l = ap shell_sync.Terminal.or_empty (lookup-insert_self id l m.logs)

calls-log_to :
    (id : String) (h k : ℕ) (m : Manager) (l : Log) (a : Attached id h k m)
    → (log_to m id l).calls
      ≡ m.calls ++ heard_all h a.session.output_subs (drop (length (log_of m id).flushed) l.flushed)
unfolding log_to dispatch log_of
calls-log_to id h k m l a =
    let rs = drop (length (log_of m id).flushed) l.flushed in
    let m1 = record m { logs = insert id l m.logs } in
    ap (λ (x : Option ℕ). m.calls ++ to_session x m1 rs) a.named
    ∙ ap (λ (x : Option Session). m.calls ++ heard_all h (subs_of x) rs) a.object

-- How the handler and the log have moved between two states.
abbrev pub Heard : String → ℕ → ℕ → Manager → Manager → Type 0
Heard id h k m m' =
    (new : List Row) × (heard_of h k m'.calls ≡ heard_of h k m.calls ++ new)
    × ((log_of m' id).rows ≡ (log_of m id).rows ++ new)

-- What comes to the table comes to the handler.
pub Heard-log_to :
    (id : String) (h k : ℕ) (m : Manager) (l : Log)
    → Attached id h k m
    → Grows (log_of m id) l
    → Heard id h k m (log_to m id l)
Heard-log_to id h k m l a g =
    (g.new, heard_of-dispatch, ap (λ (x : Log). x.rows) (log_of-log_to m id l) ∙ g.stored)
  where
    heard_of-dispatch : heard_of h k (log_to m id l).calls ≡ heard_of h k m.calls ++ g.new
    heard_of-dispatch =
        ap (heard_of h k) (calls-log_to id h k m l a)
        ∙ (heard_of-append h k m.calls _
            ∙ ap (◌++◌ (heard_of h k m.calls)) (
                heard_of-heard_all h k a.session.output_subs _ a.once
                ∙ (ap (drop (length (log_of m id).flushed)) g.heard
                    ∙ drop-length (log_of m id).flushed g.new)))
