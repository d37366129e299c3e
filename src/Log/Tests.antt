-- ===== src/Log/Tests.antt =====
-- A log of a few calls.
use shell_sync.Base.{◌<◌, ◌≡◌, refl, ◌≢◌, true, none, some, List, [], ◌∷◌, ◌++◌, length, arith, not}
use shell_sync.Log.{
  Log, Row, stdin, stdout, resize, agg, register, flush, receive, row_of, is_nil, close,
}
use shell_sync.Log.Strokes.{read, read-write, backend}
use shell_sync.Log.Flushing.{persisted}
use shell_sync.Log.Conserve.{Event, appends, timers, resizes, closes, run, appended}
use shell_sync.Log.Delivery.{fresh, run-conserved, close-delivers}
use shell_sync.Log.Order.{Ascending, Upto}
use shell_sync.Log.Sequence.{run-Ascending, receive-short, flush_marks}

abbrev script : List Event
script =
    appends stdout (1 ∷ 2 ∷ 3 ∷ [])
    ∷ resizes 80 24
    ∷ appends stdin (7 ∷ [])
    ∷ appends stdout (4 ∷ 5 ∷ [])
    ∷ timers stdin
    ∷ closes
    ∷ appends stdout (6 ∷ [])
    ∷ []

abbrev earlier : List Row
earlier = row_of backend stdout 3 (9 ∷ []) ∷ []

is_real : stdout ≢ resize
is_real e = cc

run-conserved_example :
    persisted read stdout (run backend 2 (fresh []) script).rows
      ++ (agg (run backend 2 (fresh []) script) stdout).buf
    ≡ 1 ∷ 2 ∷ 3 ∷ 4 ∷ 5 ∷ 6 ∷ []
unfolding persisted appended
run-conserved_example =
    run-conserved backend read read-write (λ seq. refl) stdout is_real 2 [] script

close-delivers_example :
    persisted read stdout (close backend (run backend 2 (fresh []) script)).rows
    ≡ 1 ∷ 2 ∷ 3 ∷ 4 ∷ 5 ∷ 6 ∷ []
unfolding persisted appended
close-delivers_example =
    close-delivers backend read read-write (λ seq. refl) stdout is_real 2 [] script

run-Ascending_example :
    Ascending (run backend 2 (register (fresh earlier)) script).rows
    × Upto
        (run backend 2 (register (fresh earlier)) script).seq
        (run backend 2 (register (fresh earlier)) script).rows
unfolding Ascending row_of
run-Ascending_example = run-Ascending backend 2 earlier script (tt, tt)

receive-short_example :
    (length (agg (receive backend 2 (register (fresh [])) stdout (1 ∷ 2 ∷ 3 ∷ [])) stdout).buf < 2)
    × ((agg (receive backend 2 (register (fresh [])) stdout (1 ∷ 2 ∷ 3 ∷ [])) stdout).armed
        ≡ not (
            is_nil
              (agg (receive backend 2 (register (fresh [])) stdout (1 ∷ 2 ∷ 3 ∷ [])) stdout).buf))
receive-short_example =
    receive-short backend 2 (register (fresh [])) stdout (1 ∷ 2 ∷ 3 ∷ []) (omega arith)

abbrev resized : Log
resized = record (fresh []) { registered = true; pending = some (80, 24) }

flush_marks_example :
    ((flush backend resized stdout (1 ∷ [])).rows
      ≡ row_of backend resize 1 (80 ∷ 24 ∷ []) ∷ row_of backend stdout 2 (1 ∷ []) ∷ [])
    × ((flush backend resized stdout (1 ∷ [])).pending ≡ none)
    × ((flush backend resized stdin (1 ∷ [])).rows ≡ row_of backend stdin 1 (1 ∷ []) ∷ [])
    × ((flush backend resized stdin (1 ∷ [])).pending ≡ some (80, 24))
flush_marks_example = flush_marks backend resized 80 24 (1 ∷ []) refl (λ seq. refl)
