-- ===== src/Terminal/Hearing/Moves.antt =====
-- How one call moves the log and the handler of a session (daemon/internal/terminal).
use shell_sync.Base.{
  string_key, nat_key, ℕ, ◌<◌, ◌≡◌, ◌≢◌, refl, sym, ap, subst, ◌∙◌, Bool, true, false, String,
  Option, none, some, List, [], ◌∷◌, ◌++◌, keep_if, nat_eqb, if◌then◌else◌, ◌==◌, arith, Bool-cases,
  inl, inr,
}
use shell_sync.Base.Dict.{Dict, lookup, lookup-insert_self}
use mathlib.Core.List.{append-nil, append_assoc}
use shell_sync.Log.{Log, Row, Direction, stdin, stdout, Backend, set_pending_resize}
use shell_sync.Log.Conserve.{Event, appends, resizes}
use shell_sync.Log.Growth.{Grows-step}
use shell_sync.Base.Order.{ℤ}
use shell_sync.Terminal.{
  Session, Manager, Call, hears, told, to_grid, log_of, log_to, dispatch, heard_by, heard_all,
  subs_of, to_session, set_session, set_in,
}
use shell_sync.Terminal.Sessions.{read, write, resize}
use shell_sync.Terminal.Sound.{unwrap, clash_none}
use shell_sync.Base.{not, keep_if-append}
use shell_sync.Base.Dict.{beq_ne}
use shell_sync.Log.{close}
use shell_sync.Log.Conserve.{step}
use shell_sync.Terminal.Sessions.{read_in, write_in, resized_in}
use shell_sync.Terminal.Hearing.{heard_of, Once, Attached, Heard, Heard-log_to, log_of-log_to}

Attached-log_to :
    (id : String) (h k : ℕ) (m : Manager) (l : Log)
    → Attached id h k m
    → Attached id h k (log_to m id l)
unfolding log_to dispatch
Attached-log_to id h k m l a = record {
  session = a.session;
  named = a.named;
  object = a.object;
  same_id = a.same_id;
  once = a.once;
  known = a.known;
}

heap-set :
    (m : Manager) (h : ℕ) (f : Session → Session) (s : Session)
    → lookup h m.heap ≡ some s
    → lookup h (set_session m h f).heap ≡ some (f s)
unfolding set_session
heap-set m h f s at_h = by_heap (lookup h m.heap) at_h
  where
    by_heap : (x : Option Session) → x ≡ some s → lookup h (set_in f x m h).heap ≡ some (f s)
    by_heap none e = absurd (clash_none s e)
    by_heap (some u) e =
        lookup-insert_self h (f u) m.heap ∙ ap (λ (z : Session). some (f z)) (unwrap u s e)

-- A change of the session touches neither the map nor the logs nor the calls.
pub rest-set :
    (m : Manager) (h : ℕ) (f : Session → Session)
    → ((set_session m h f).sessions ≡ m.sessions)
      × ((set_session m h f).logs ≡ m.logs)
      × ((set_session m h f).calls ≡ m.calls)
unfolding set_session
rest-set m h f = by_session (lookup h m.heap)
  where
    by_session :
        (x : Option Session)
        → ((set_in f x m h).sessions ≡ m.sessions)
          × ((set_in f x m h).logs ≡ m.logs)
          × ((set_in f x m h).calls ≡ m.calls)
    by_session none = (refl, refl, refl)
    by_session (some s) = (refl, refl, refl)

pub Attached-set :
    (id : String) (h k : ℕ) (m : Manager) (f : Session → Session) (a : Attached id h k m)
    → (f a.session).id ≡ a.session.id
    → Once k (f a.session).output_subs
    → k < (f a.session).next_sub
    → Attached id h k (set_session m h f)
Attached-set id h k m f a same once known = record {
  session = f a.session;
  named = ap (lookup id) (rest-set m h f).0 ∙ a.named;
  object = heap-set m h f a.session a.object;
  same_id = same ∙ a.same_id;
  once = once;
  known = known;
}

pub Heard-set :
    (id : String) (h k : ℕ) (m : Manager) (f : Session → Session)
    → Heard id h k m (set_session m h f)
unfolding log_of
Heard-set id h k m f =
    let (_, logs, calls) = rest-set m h f in
    (
      [],
      ap (heard_of h k) calls ∙ sym (append-nil _),
      ap (λ (x : Dict String Log). (shell_sync.Terminal.or_empty (lookup id x)).rows) logs
          ∙ sym (append-nil _),
    )

pub Heard-joined :
    (id : String) (h k : ℕ) (m n o : Manager)
    → Heard id h k m n
    → Heard id h k n o
    → Heard id h k m o
Heard-joined id h k m n o (x, f, r) (y, g, s) = (
  x ++ y,
  g ∙ (ap (λ (xs : List Row). xs ++ y) f ∙ append_assoc (heard_of h k m.calls) x y),
  s ∙ (ap (λ (xs : List Row). xs ++ y) r ∙ append_assoc (log_of m id).rows x y),
)

pub Once-add : (k n : ℕ) (ks : List ℕ) → k < n → Once k ks → Once k (ks ++ n ∷ [])
Once-add k n ks lt once =
    keep_if-append (λ j. j == k) ks (n ∷ [])
    ∙ rw (once, beq_ne n k (λ e. omega (arith, lt, e))) refl

pub keep_if-part :
    (k j : ℕ) (ks : List ℕ)
    → j ≢ k
    → keep_if (λ i. i == k) (keep_if (λ i. not (nat_eqb i j)) ks) ≡ keep_if (λ i. i == k) ks
keep_if-part k j [] ne = refl
keep_if-part k j (x ∷ ks) ne = elim (Bool-cases (x == j)) [
  | inl e ↦
      rw (e, beq_ne x k (λ xk. ne (sym ((nat_key.same_iff x j).0 e) ∙ xk))) (keep_if-part k j ks ne)
  | inr e ↦ elim (Bool-cases (x == k)) [
    | inl f ↦ rw (e, f) (ap (◌∷◌ x) (keep_if-part k j ks ne))
    | inr f ↦ rw (e, f) (keep_if-part k j ks ne)
  ]
]

-- The handler is attached to a session that goes on.
abbrev pub Going : String → ℕ → ℕ → Manager → Type 0
Going id h k m = (a : Attached id h k m) × (a.session.exited ≡ false)

module _ (b : Backend) (max : ℕ) (id : String) (h k : ℕ) where
  -- An input, as a call on the log.
  abbrev pub Moved : Manager → Manager → Log → Type 0
  Moved m m' l = Going id h k m' × Heard id h k m m' × (log_of m' id ≡ l)

  pub Moved-log_to :
      (m m' : Manager) (e : Event)
      → m' ≡ log_to m id (step b max (log_of m id) e)
      → Going id h k m
      → Moved m m' (step b max (log_of m id) e)
  unfolding Attached-log_to
  Moved-log_to m m' e same (a, alive) =
      subst (λ (x : Manager). Moved m x (step b max (log_of m id) e)) (sym same)
        (
          (Attached-log_to id h k m _ a, alive),
          Heard-log_to id h k m _ a (Grows-step b max (log_of m id) e),
          log_of-log_to m id _,
        )

  pub Moved-set_session :
      (m : Manager) (f : Session → Session) (g : Going id h k m)
      → (f g.0.session).id ≡ g.0.session.id
      → (f g.0.session).exited ≡ g.0.session.exited
      → Once k (f g.0.session).output_subs
      → k < (f g.0.session).next_sub
      → Moved m (set_session m h f) (log_of m id)
  unfolding log_of Attached-set
  Moved-set_session m f (a, alive) same same_exited once known = (
    (Attached-set id h k m f a same once known, same_exited ∙ alive),
    Heard-set id h k m f,
    ap (λ (x : Dict String Log). shell_sync.Terminal.or_empty (lookup id x)) (rest-set m h f).1,
  )

  pub read_is :
      (m : Manager) (bytes : List ℕ)
      → Attached id h k m
      → read b max m h bytes ≡ log_to m id (step b max (log_of m id) (appends stdout bytes))
  unfolding read step
  read_is m bytes a =
      ap (λ (x : Option Session). read_in b max x m bytes) a.object
      ∙ ap (λ (i : String). log_to m i (shell_sync.Log.append b max (log_of m i) stdout bytes))
          a.same_id

  pub write_is :
      (m : Manager) (bytes : List ℕ)
      → Attached id h k m
      → write b max m h bytes ≡ log_to m id (step b max (log_of m id) (appends stdin bytes))
  unfolding write step
  write_is m bytes a =
      ap (λ (x : Option Session). write_in b max x m bytes) a.object
      ∙ ap (λ (i : String). log_to m i (shell_sync.Log.append b max (log_of m i) stdin bytes))
          a.same_id

  -- A size that the pseudo terminal takes is also noted in the session.
  pub Moved-resize :
      (m : Manager) (cols rows : ℤ) (taken : Bool)
      → Going id h k m
      → Moved m
          (resize m h cols rows taken)
          (step b max (log_of m id) (resizes (to_grid cols) (to_grid rows)))
  unfolding resize step
  Moved-resize m cols rows taken (a, alive) =
      subst
        (λ (x : Manager).
          Moved m x (set_pending_resize (log_of m id) (to_grid cols) (to_grid rows)))
        (sym (resize_is taken)) (by_taken taken)
    where
      m' : Manager
      m' = log_to m id (set_pending_resize (log_of m id) (to_grid cols) (to_grid rows))

      size : Session → Session
      size = λ s. record s { cols = cols; rows = rows }

      resize_is :
          (t : Bool)
          → resized_in (lookup h m.heap) m h cols rows t ≡ (if t then set_session m' h size else m')
      resize_is t =
          ap (λ (x : Option Session). resized_in x m h cols rows t) a.object
          ∙ ap
              (λ (i : String).
                if t
                then set_session
                    (log_to m i (set_pending_resize (log_of m i) (to_grid cols) (to_grid rows))) h
                    size
                else log_to m i (set_pending_resize (log_of m i) (to_grid cols) (to_grid rows)))
              a.same_id

      first : Moved m m' (set_pending_resize (log_of m id) (to_grid cols) (to_grid rows))
      first = Moved-log_to m m' (resizes (to_grid cols) (to_grid rows)) refl (a, alive)

      by_taken :
          (t : Bool)
          → Moved m
              (if t then set_session m' h size else m')
              (set_pending_resize (log_of m id) (to_grid cols) (to_grid rows))
      by_taken false = first
      by_taken true =
          let (g, heard, log) = first in
          let (g', heard', log') = Moved-set_session m' size g refl refl g.0.once g.0.known in
          (g', Heard-joined id h k m m' (set_session m' h size) heard heard', log' ∙ log)
