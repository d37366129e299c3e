-- ===== src/Ws/Tests.antt =====
-- A terminal of four rows, replayed in pages of two and subscribed to in one page.
use shell_sync.Base.{
  ◌↔◌, if◌then◌else◌, ◌<◌, ℕ, ◌≤◌, ◌≡◌, refl, true, false, ◌&&◌, some, List, [], ◌∷◌, nat_eqb,
  arith,
}
use shell_sync.Log.{Row, Direction, stdin, stdout, resize}
use shell_sync.Log.Order.{Ascending}
use shell_sync.Log.{Backend}
use shell_sync.Log.Delivery.{fresh}
use shell_sync.Base.Pool.{has}
use shell_sync.Ws.Release.{Request, subscribe, mirrors, run, close_stops}
use shell_sync.Ws.{
  close, history, output, size, subscribed, Session, new_conn, replay_history, subscribe_live,
  handle_resize, replay, read_range,
}
use shell_sync.Ws.Pages.{chunks, finished, from_seq}
use shell_sync.Ws.Paging.{replay_complete}
use shell_sync.Ws.Subscribe.{subscribe_resends, handle_resize_grid}

abbrev row : ℕ → Direction → Row
row n d = record { seq = n; direction = d; content_b64 = "eA=="; created_at = n }

abbrev four : List Row
four = row 1 stdout ∷ row 2 stdin ∷ row 3 resize ∷ row 4 stdout ∷ []

four-Ascending : Ascending four
unfolding Ascending
four-Ascending = (
  (omega arith, (omega arith, (omega arith, tt))),
  ((omega arith, (omega arith, tt)), ((omega arith, tt), (tt, tt))),
)

two_pages :
    (replay_history (λ n. false) "t" four 1 2).0
    ≡ history "t" 1 2 true (row 1 stdout ∷ [])
      ∷ history "t" 3 4 false (row 3 resize ∷ row 4 stdout ∷ [])
      ∷ []
unfolding replay read_range
two_pages = refl

replay_complete_example :
    (chunks (replay_history (λ n. false) "t" four 2 2).0 ≡ row 3 resize ∷ row 4 stdout ∷ [])
    × (finished (replay_history (λ n. false) "t" four 2 2).0 ≡ true)
unfolding from_seq
replay_complete_example = replay_complete (λ n. false) (λ n. refl) "t" four four-Ascending 2 2

abbrev grid : Session
grid = record { cols = 80; rows = 24; screened = true }

-- The chunk numbered 4 is sent twice.
subscribe_resends_example :
    (subscribe_live
      (λ n. false)
      new_conn
      "t"
      grid
      four
      (row 4 stdout ∷ row 5 stdout ∷ [])
      1
      500).sent
    ≡ size "t" 80 24
      ∷ history "t" 1 4 false (row 1 stdout ∷ row 3 resize ∷ row 4 stdout ∷ [])
      ∷ output "t" (row 4 stdout)
      ∷ output "t" (row 5 stdout)
      ∷ subscribed "t" true
      ∷ []
unfolding from_seq
subscribe_resends_example =
    subscribe_resends (λ n. false) new_conn "t" grid four (row 4 stdout ∷ row 5 stdout ∷ []) 1 499
      (λ n. refl) four-Ascending (omega arith) (omega arith, (omega arith, tt))

handle_resize_grid_example :
    ((handle_resize true new_conn (some grid) 100 30).2 ≡ true
      ↔ ((10 ≤ 100) × (3 ≤ 30) × (nat_eqb 80 100 && nat_eqb 24 30 ≡ false) × (true ≡ true)))
    × ((handle_resize true new_conn (some grid) 100 30).1 ≡ (
        if (handle_resize true new_conn (some grid) 100 30).2
        then some (record grid { cols = 100; rows = 30 })
        else some grid))
handle_resize_grid_example = handle_resize_grid true new_conn grid 100 30

abbrev backend : Backend
backend = record {
  encode = λ bytes. "eA==";
  grid_json = λ cols rows. [];
  clock = λ seq. seq;
  accepts = λ seq. true;
}

abbrev requests : List Request
requests =
    subscribe (fresh four) "t" (some grid) [] 1 500
    ∷ mirrors "t" (some grid) true
    ∷ subscribe (fresh four) "t" (some grid) [] 1 500
    ∷ mirrors "u" (some grid) true
    ∷ []

close_stops_example :
    ((close (run backend (λ n. false) new_conn requests)).subs ≡ [])
    × ((close (run backend (λ n. false) new_conn requests)).mirror ≡ [])
    × ((n : ℕ)
        → n < (run backend (λ n. false) new_conn requests).next
        → has n (close (run backend (λ n. false) new_conn requests)).cancelled ≡ true)
close_stops_example = close_stops backend (λ n. false) requests
