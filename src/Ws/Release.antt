-- ===== src/Ws/Release.antt =====
-- No subscription and no mirror loop outlives its connection (conn.go).
use shell_sync.Base.{
  string_key, ℕ, suc, ◌<◌, ◌≡◌, refl, ◌⊎◌, Bool, true, false, String, Option, none, some, List, [],
  ◌∷◌, ◌++◌, arith, ltb, nat_eqb, ◌&&◌, ◌||◌, Bool-cases, inl, inr,
}
use shell_sync.Base.Dict.{lookup, lookup-delete_self}
use shell_sync.Base.Pool.{
  has, values, has-append_right, has-append_between, Accounted, Accounted-dropped, Accounted-delete,
  Accounted-insert, Accounted-clear,
}
use shell_sync.Log.{Log, Row, Backend}
use shell_sync.Ws.{
  Conn, new_conn, Session, send, stop_mirror, drop_sub, unsubscribe, subscribe_live,
  subscribe_exited, handle_subscribe, handle_history, handle_resize, handle_mirror, mirror_on,
  start_mirror, screen, close,
}

-- The requests of a client, with the state of the terminal when they arrive.
pub data Request : Type 0 where
  subscribe : Log → String → Option Session → List Row → ℕ → ℕ → Request
  unsubscribes : String → Request
  mirrors : String → Option Session → Bool → Request
  resizes : Bool → Option Session → ℕ → ℕ → Request
  fetches : String → List Row → ℕ → ℕ → Request

unfoldable pub step : Backend → (ℕ → Bool) → Conn → Request → Conn
step b fails cn (subscribe l id session buffered from limit) =
    (handle_subscribe b fails cn l id session buffered from limit).0
step b fails cn (unsubscribes id) = unsubscribe cn id
step b fails cn (mirrors id session on) = handle_mirror cn id session on
step b fails cn (resizes works session cols rows) = (handle_resize works cn session cols rows).0
step b fails cn (fetches id rows from limit) = handle_history fails cn id rows from limit

unfoldable pub run : Backend → (ℕ → Bool) → Conn → List Request → Conn
run b fails cn [] = cn
run b fails cn (r ∷ rs) = run b fails (step b fails cn r) rs

-- The connection is open, and every number that was given out is in use or stopped.
abbrev pub Live : Conn → Type 0
Live cn =
    (cn.closed ≡ false)
    × ((n : ℕ)
        → n < cn.next
        → Accounted cn.subs cn.cancelled n ⊎ Accounted cn.mirror cn.cancelled n)

newest : (n d : ℕ) → n < suc d → (n ≡ d) ⊎ (n < d)
newest n d lt = ground arith

stop_mirror-Live : (cn : Conn) (id : String) → Live cn → Live (stop_mirror cn id)
unfolding stop_mirror
stop_mirror-Live cn id (o, t) = (
  o,
  λ n. λ lt. elim (t n lt) [
    | inl a ↦ inl (Accounted-dropped cn.subs cn.cancelled n (lookup id cn.mirror) a)
    | inr a ↦ inr (Accounted-delete cn.mirror cn.cancelled n id a)
  ],
)

drop_sub-Live : (cn : Conn) (id : String) → Live cn → Live (drop_sub cn id)
unfolding drop_sub
drop_sub-Live cn id (o, t) = (
  o,
  λ n. λ lt. elim (t n lt) [
    | inl a ↦ inl (Accounted-delete cn.subs cn.cancelled n id a)
    | inr a ↦ inr (Accounted-dropped cn.mirror cn.cancelled n (lookup id cn.subs) a)
  ],
)

unsubscribe-Live : (cn : Conn) (id : String) → Live cn → Live (unsubscribe cn id)
unsubscribe-Live cn id v = drop_sub-Live (stop_mirror cn id) id (stop_mirror-Live cn id v)

no_sub : (cn : Conn) (id : String) → lookup id (drop_sub cn id).subs ≡ none
unfolding drop_sub
no_sub cn id = lookup-delete_self id cn.subs

no_mirror : (cn : Conn) (id : String) → lookup id (stop_mirror cn id).mirror ≡ none
unfolding stop_mirror
no_mirror cn id = lookup-delete_self id cn.mirror

subscribe_live-Live :
    (fails : ℕ → Bool) (cn : Conn) (id : String) (s : Session) (rows buffered : List Row)
    (from limit : ℕ)
    → lookup id cn.subs ≡ none
    → Live cn
    → Live (subscribe_live fails cn id s rows buffered from limit)
unfolding subscribe_live
subscribe_live-Live fails cn id s rows buffered from limit free (o, t) = (
  o,
  λ n. λ lt. elim (newest n cn.next lt) [
    | inl same ↦ inl (Accounted-insert cn.subs cn.cancelled n cn.next id free (inl same))
    | inr older ↦ elim (t n older) [
      | inl a ↦ inl (Accounted-insert cn.subs cn.cancelled n cn.next id free (inr a))
      | inr a ↦ inr a
    ]
  ],
)

start_mirror-Live :
    (cn : Conn) (id : String) → lookup id cn.mirror ≡ none → Live cn → Live (start_mirror cn id)
unfolding start_mirror
start_mirror-Live cn id free (o, t) = rw o (
  refl,
  λ n. λ lt. elim (newest n cn.next lt) [
    | inl same ↦ inr (Accounted-insert cn.mirror cn.cancelled n cn.next id free (inl same))
    | inr older ↦ elim (t n older) [
      | inl a ↦ inl a
      | inr a ↦ inr (Accounted-insert cn.mirror cn.cancelled n cn.next id free (inr a))
    ]
  ],
)

mirror_on-Live :
    (cn : Conn) (id : String) (session : Option Session)
    → lookup id cn.mirror ≡ none
    → Live cn
    → Live (mirror_on cn id session)
unfolding mirror_on
mirror_on-Live cn id none free v = v
mirror_on-Live cn id (some s) free v = elim (Bool-cases s.screened) [
  | inl e ↦ rw e (start_mirror-Live (send cn (screen id)) id free v)
  | inr e ↦ rw e v
]

handle_mirror-Live :
    (cn : Conn) (id : String) (session : Option Session) (on : Bool)
    → Live cn
    → Live (handle_mirror cn id session on)
unfolding handle_mirror
handle_mirror-Live cn id session true v =
    mirror_on-Live (stop_mirror cn id) id session (no_mirror cn id) (stop_mirror-Live cn id v)
handle_mirror-Live cn id session false v = stop_mirror-Live cn id v

handle_resize-Live :
    (works : Bool) (cn : Conn) (session : Option Session) (cols rows : ℕ)
    → Live cn
    → Live (handle_resize works cn session cols rows).0
unfolding handle_resize
handle_resize-Live works cn none cols rows v = v
handle_resize-Live works cn (some s) cols rows v = elim (Bool-cases (ltb cols 10 || ltb rows 3)) [
  | inl e ↦ rw e v
  | inr e ↦ elim (Bool-cases (nat_eqb s.cols cols && nat_eqb s.rows rows)) [
    | inl g ↦ rw e (rw g v)
    | inr g ↦ elim (Bool-cases works) [
      | inl w ↦ rw e (rw g (rw w v))
      | inr w ↦ rw e (rw g (rw w v))
    ]
  ]
]

module _ (b : Backend) (fails : ℕ → Bool) where
  handle_subscribe-Live :
      (cn : Conn) (l : Log) (id : String) (session : Option Session) (buffered : List Row)
      (from limit : ℕ)
      → Live cn
      → Live (handle_subscribe b fails cn l id session buffered from limit).0
  unfolding handle_subscribe subscribe_exited
  handle_subscribe-Live cn l id none buffered from limit v = unsubscribe-Live cn id v
  handle_subscribe-Live cn l id (some s) buffered from limit v =
      subscribe_live-Live fails (unsubscribe cn id) id s _ buffered from limit
        (no_sub (stop_mirror cn id) id) (unsubscribe-Live cn id v)

  step-Live : (cn : Conn) (r : Request) → Live cn → Live (step b fails cn r)
  unfolding step handle_history
  step-Live cn (subscribe l id session buffered from limit) v =
      handle_subscribe-Live cn l id session buffered from limit v
  step-Live cn (unsubscribes id) v = unsubscribe-Live cn id v
  step-Live cn (mirrors id session on) v = handle_mirror-Live cn id session on v
  step-Live cn (resizes works session cols rows) v = handle_resize-Live works cn session cols rows v
  step-Live cn (fetches id rows from limit) v = v

  run-Live : (cn : Conn) (rs : List Request) → Live cn → Live (run b fails cn rs)
  unfolding run
  run-Live cn [] v = v
  run-Live cn (r ∷ rs) v = run-Live (step b fails cn r) rs (step-Live cn r v)

  close-stopped :
      (cn : Conn)
      → Live cn
      → ((close cn).subs ≡ [])
        × ((close cn).mirror ≡ [])
        × ((n : ℕ) → n < cn.next → has n (close cn).cancelled ≡ true)
  unfolding close
  close-stopped cn (o, t) = rw o (
    refl,
    refl,
    λ n. λ lt. elim (t n lt) [
      | inl a ↦
          has-append_right n (values cn.mirror) (values cn.subs ++ cn.cancelled)
            (Accounted-clear cn.subs cn.cancelled n a)
      | inr a ↦ more n (Accounted-clear cn.mirror cn.cancelled n a)
    ],
  )
    where
      more :
          (n : ℕ)
          → has n (values cn.mirror ++ cn.cancelled) ≡ true
          → has n (values cn.mirror ++ (values cn.subs ++ cn.cancelled)) ≡ true
      more n h = has-append_between n (values cn.mirror) (values cn.subs) cn.cancelled h

  -- Whatever a client asks for on a connection, terminals that have exited and queries that fail included,
  -- when the connection closes every output subscription and every mirror loop that it ever
  -- started has been stopped, and none is left in its tables.
  pub close_stops :
      (rs : List Request)
      → ((close (run b fails new_conn rs)).subs ≡ [])
        × ((close (run b fails new_conn rs)).mirror ≡ [])
        × ((n : ℕ)
            → n < (run b fails new_conn rs).next
            → has n (close (run b fails new_conn rs)).cancelled ≡ true)
  close_stops rs = close-stopped (run b fails new_conn rs) (run-Live new_conn rs none_yet)
    where
      none_yet : Live new_conn
      none_yet = (refl, λ n. λ lt. absurd (omega (arith, lt)))
