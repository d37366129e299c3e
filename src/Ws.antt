-- ===== src/Ws.antt =====
-- daemon/internal/transport/ws/conn.go: what one app connection does with terminal messages, and the paged
-- read of daemon/internal/repository/log_repo.go. The rows of a terminal are listed by ascending number, as
-- the query orders them, and stand for the whole replay: a query that fails is a parameter. A message is
-- recorded when it is handed to the send queue; a full queue drops it there.
pub mod Pages
pub mod Paging
pub mod Subscribe
pub mod Release
mod Tests
use shell_sync.Base.{
  string_key, ℕ, zero, suc, ◌+◌, Bool, true, false, ◌&&◌, ◌||◌, not, String, Option, none, some,
  List, [], ◌∷◌, ◌++◌, map, length, take, keep_if, ltb, leb, nat_eqb, if◌then◌else◌,
}
use shell_sync.Base.Dict.{Dict, lookup, insert, delete}
use shell_sync.Base.Pool.{values, dropped}
use shell_sync.Log.{Row, Log, Backend, Direction, stdin, stdout, resize, flush_resize_marker}

pub data Message : Type 0 where
  history : String → ℕ → ℕ → Bool → List Row → Message
  output : String → Row → Message
  exited : String → Message
  size : String → ℕ → ℕ → Message
  subscribed : String → Bool → Message
  mirror_set : String → Bool → Message
  screen : String → Message
  failure : String → Message

-- A terminal session as a connection sees it: its grid and whether it has a screen mirror.
pub record Session : Type 0 where
  pub cols : ℕ
  pub rows : ℕ
  pub screened : Bool

-- subs and mirror hold the number of a subscription or a mirror loop; cancelled is what was stopped.
pub record Conn : Type 0 where
  pub subs : Dict String ℕ
  pub mirror : Dict String ℕ
  pub closed : Bool
  pub next : ℕ
  pub cancelled : List ℕ
  pub sent : List Message

abbrev pub new_conn : Conn
new_conn = record { subs = []; mirror = []; closed = false; next = 0; cancelled = []; sent = [] }

abbrev pub send : Conn → Message → Conn
send cn m = record cn { sent = cn.sent ++ m ∷ [] }

abbrev pub send_all : Conn → List Message → Conn
send_all cn ms = record cn { sent = cn.sent ++ ms }

abbrev pub default_limit : ℕ → ℕ
default_limit limit = if nat_eqb limit 0 then 500 else limit

-- LogRepo.ReadRange
pub read_range : List Row → ℕ → ℕ → List Row × Bool
read_range rows from limit =
    let out = take (default_limit limit + 1) (keep_if (λ r. leb from r.seq) rows) in
    let has_more = ltb (default_limit limit) (length out) in
    (if has_more then take (default_limit limit) out else out, has_more)

-- Direction stdin is not replayed.
abbrev pub shown : Row → Bool
shown r = elim (r.direction) [ stdin ↦ false | stdout ↦ true | resize ↦ true ]

-- toSeq: the number of the last row of a page.
abbrev pub last_seq : ℕ → List Row → ℕ
last_seq n [] = n
last_seq n (r ∷ rs) = last_seq r.seq rs

abbrev pub no_rows : List Row → Bool
no_rows [] = true
no_rows (r ∷ rs) = false

-- One terminal.history event.
abbrev pub page_event : String → ℕ → List Row × Bool → Message
page_event id from page = history id from (last_seq 0 page.0) page.1 (keep_if shown page.0)

-- replayHistory, on fuel. The second result is lastSeq + 1.
pub replay : ℕ → (ℕ → Bool) → String → List Row → ℕ → ℕ → ℕ → List Message × ℕ
replay zero fails id rows from limit covered = ([], covered)
replay (suc fuel) fails id rows from limit covered =
    let page = read_range rows from limit in
    let to = last_seq 0 page.0 in
    let rest = replay fuel fails id rows (to + 1) limit (to + 1) in
    if fails from
    then (failure "io_error" ∷ [], covered)
    else (if no_rows page.0 || not page.1
        then (page_event id from page ∷ [], covered)
        else (page_event id from page ∷ rest.0, rest.1))

abbrev pub replay_history : (ℕ → Bool) → String → List Row → ℕ → ℕ → List Message × ℕ
replay_history fails id rows from limit =
    replay (suc (length rows)) fails id rows from (default_limit limit) from

-- sendHistory, for the paging request.
pub handle_history : (ℕ → Bool) → Conn → String → List Row → ℕ → ℕ → Conn
handle_history fails cn id rows from limit = send cn (
    if fails from
    then failure "io_error"
    else page_event id from (read_range rows from (default_limit limit)))

pub stop_mirror : Conn → String → Conn
stop_mirror cn id = record cn {
  mirror = delete id cn.mirror;
  cancelled = dropped (lookup id cn.mirror) cn.cancelled;
}

pub drop_sub : Conn → String → Conn
drop_sub cn id = record cn {
  subs = delete id cn.subs;
  cancelled = dropped (lookup id cn.subs) cn.cancelled;
}

abbrev pub unsubscribe : Conn → String → Conn
unsubscribe cn id = drop_sub (stop_mirror cn id) id

-- The chunks that were buffered during the replay and that it did not cover.
pub release : String → ℕ → List Row → List Message
release id covered buffered = map (output id) (keep_if (λ c. not (ltb c.seq covered)) buffered)

abbrev pub size_event : String → Session → List Message
size_event id s = if ltb 0 s.cols && ltb 0 s.rows then size id s.cols s.rows ∷ [] else []

-- handleSubscribe on a running terminal; `buffered` are the stdout chunks flushed during the replay.
pub subscribe_live : (ℕ → Bool) → Conn → String → Session → List Row → List Row → ℕ → ℕ → Conn
subscribe_live fails cn id s rows buffered from limit =
    let (pages, covered) = replay_history fails id rows from limit in
    send_all (record cn { subs = insert id cn.next cn.subs; next = suc cn.next })
      (size_event id s ++ pages ++ release id covered buffered ++ subscribed id true ∷ [])

-- handleSubscribe on a terminal that has exited.
pub subscribe_exited : (ℕ → Bool) → Conn → String → List Row → ℕ → ℕ → Conn
subscribe_exited fails cn id rows from limit =
    send_all cn
      ((replay_history fails id rows from limit).0 ++ exited id ∷ subscribed id false ∷ [])

pub handle_subscribe :
    Backend → (ℕ → Bool) → Conn → Log → String → Option Session → List Row → ℕ → ℕ → Conn × Log
handle_subscribe b fails cn l id session buffered from limit =
    let l' = flush_resize_marker b l in
    let cn' = unsubscribe cn id in
    (
      elim session [
        | none ↦ subscribe_exited fails cn' id l'.rows from limit
        | some s ↦ subscribe_live fails cn' id s l'.rows buffered from limit
      ],
      l',
    )

-- handleResize: the grid that is applied, if any, and whether the size is broadcast. Whether the
-- terminal takes the size is the argument `works`.
pub handle_resize : Bool → Conn → Option Session → ℕ → ℕ → Conn × Option Session × Bool
handle_resize works cn none cols rows = (send cn (failure "not_running"), none, false)
handle_resize works cn (some s) cols rows =
    if ltb cols 10 || ltb rows 3
    then (cn, some s, false)
    else (if nat_eqb s.cols cols && nat_eqb s.rows rows
        then (cn, some s, false)
        else (if works
            then (cn, some (record s { cols = cols; rows = rows }), true)
            else (send cn (failure "io_error"), some s, false)))

-- The end of handleMirror: no loop is started on a connection that is closed.
pub start_mirror : Conn → String → Conn
start_mirror cn id =
    if cn.closed
    then cn
    else send (record cn { mirror = insert id cn.next cn.mirror; next = suc cn.next })
        (mirror_set id true)

pub mirror_on : Conn → String → Option Session → Conn
mirror_on cn id none = send cn (failure "not_running")
mirror_on cn id (some s) =
    if s.screened then start_mirror (send cn (screen id)) id else send cn (failure "unavailable")

pub handle_mirror : Conn → String → Option Session → Bool → Conn
handle_mirror cn id session on =
    let cn' = stop_mirror cn id in
    if on then mirror_on cn' id session else send cn' (mirror_set id false)

-- close: Go visits each map in any order.
pub close : Conn → Conn
close cn = if cn.closed then cn else record cn {
  closed = true;
  subs = [];
  mirror = [];
  cancelled = values cn.mirror ++ (values cn.subs ++ cn.cancelled);
}
