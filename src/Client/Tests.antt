-- ===== src/Client/Tests.antt =====
-- A tunnel connection with one stream, and three connections that fail.
use shell_sync.Base.{nat_key, ◌*◌, ◌≡◌, refl, true, false, String, some, List, [], ◌∷◌, arith}
use shell_sync.Base.Dict.{lookup, insert, delete}
use shell_sync.Wire.Control.{FrameType, frame}
use shell_sync.Client.{
  new_client, Event, control_in, data_in, Handshake, registered, dial_failed, hello_failed,
  run_once, run, close_stream, connect, retry_min, second, step, serve, handle_control, open_stream,
  accept_stream, close_streams, set_state, next_backoff, handle_data,
}
use shell_sync.Client.Streams.{AllFresh, AllClosed, Fresh, run_once_closes}
use shell_sync.Client.Backoff.{Doubling, waits_double}

abbrev events : List Event
events =
    control_in true true (some (record (frame FrameType.open_stream) { stream_id = 1 }))
    ∷ data_in true true 1 (71 ∷ 69 ∷ [])
    ∷ control_in true true (some (record (frame FrameType.open_stream) { stream_id = 2 }))
    ∷ data_in false true 2 (84 ∷ [])
    ∷ control_in false true (some (record (frame FrameType.open_stream) { stream_id = 3 }))
    ∷ []

new_client-AllClosed : AllClosed new_client
new_client-AllClosed n lt = absurd (omega (arith, lt))

run_once_closes_example :
    ((run_once registered new_client events).streams ≡ [])
    × AllClosed (run_once registered new_client events)
unfolding AllFresh Fresh step handle_control open_stream accept_stream close_streams set_state
    handle_data close_stream lookup insert delete
run_once_closes_example =
    run_once_closes registered new_client events new_client-AllClosed all_fresh
  where
    all_fresh : AllFresh (connect new_client) events
    all_fresh = ((λ e. refl), (tt, ((λ e. refl), (tt, ((λ e. refl), tt)))))

two_closed : (run_once registered new_client events).shut ≡ 0 ∷ 1 ∷ []
unfolding run_once serve step handle_control open_stream accept_stream close_streams set_state
    handle_data close_stream lookup insert delete
two_closed = refl

abbrev cycles : List (Handshake × List Event × String)
cycles = (dial_failed, [], "dial") ∷ (registered, [], "eof") ∷ (hello_failed, [], "hello") ∷ []

waits_double_example : Doubling 0 (run retry_min new_client cycles).1
waits_double_example = waits_double new_client cycles

waits_of_cycles : (run retry_min new_client cycles).1 ≡ second ∷ 2 * second ∷ 4 * second ∷ []
unfolding run next_backoff
waits_of_cycles = refl
