-- ===== src/Log/Sequence.antt =====
-- The numbers of the rows, the size of the buffers, and where a resize marker goes (store.go, aggregator.go).
use shell_sync.Base.{
  ℕ, zero, suc, ◌+◌, ◌≤◌, ◌<◌, ◌≡◌, refl, ap, ◌∙◌, Bool, true, false, Option, none, some, List, [],
  ◌∷◌, ◌++◌, length, take, drop, length-drop, leb, nat_eqb, ◌||◌, not, arith, Bool-cases,
  Option-cases, inl, inr,
}
use mathlib.Core.List.{append_assoc}
use shell_sync.Log.{
  Log, Row, Direction, stdin, stdout, resize, Aggregator, Backend, idle, is_stdout, agg, with_agg,
  is_nil, register, set_pending_resize, flush_chunk, row_of, emit, emit_marker, flush,
  flush_resize_marker, drain, receive, flush_rest, stop, on_timer, append, close, close_if,
}
use shell_sync.Log.Conserve.{Event, appends, timers, resizes, markers, closes, step, run}
use shell_sync.Log.Delivery.{fresh}
use shell_sync.Log.Order.{Ascending, Upto, Upto-weaken, Upto-snoc, Ascending-snoc, max_seq-Upto}

-- The rows ascend and the counter is not behind them.
abbrev pub Numbered : Log → Type 0
Numbered l = Ascending l.rows × Upto l.seq l.rows

module _ (b : Backend) where
  emit-Numbered :
      (l : Log) (dir : Direction) (bytes : List ℕ) → Numbered l → Numbered (emit b l dir bytes)
  unfolding emit flush_chunk row_of
  emit-Numbered l dir bytes (asc, upto) =
      let up : Upto (l.seq + 1) l.rows = Upto-weaken l.rows l.seq (l.seq + 1) (omega arith) upto in
      elim (Bool-cases (b.accepts (l.seq + 1))) [
        | inr e ↦ rw e (asc, up)
        | inl e ↦ rw e (
          Ascending-snoc l.rows _ l.seq (omega arith) upto asc,
          Upto-snoc l.rows _ (l.seq + 1) (omega arith) up,
        )
      ]

  marker-Numbered : (o : Option (ℕ × ℕ)) (l : Log) → Numbered l → Numbered (emit_marker b o l)
  unfolding emit_marker
  marker-Numbered none l n = n
  marker-Numbered (some (cols, rows)) l n = emit-Numbered (record l { pending = none }) resize _ n

  flush-Numbered :
      (l : Log) (dir : Direction) (bytes : List ℕ) → Numbered l → Numbered (flush b l dir bytes)
  unfolding flush
  flush-Numbered l dir bytes n = elim (Bool-cases (is_stdout dir)) [
    | inl e ↦ rw e (emit-Numbered _ dir bytes (marker-Numbered l.pending l n))
    | inr e ↦ rw e (emit-Numbered l dir bytes n)
  ]

  drain-Numbered :
      (fuel max : ℕ) (l : Log) (dir : Direction) (buf : List ℕ)
      → Numbered l
      → Numbered (drain b fuel max l dir buf).0
  unfolding drain
  drain-Numbered zero max l dir buf n = n
  drain-Numbered (suc fuel) max l dir buf n = elim (Bool-cases (leb max (length buf))) [
    | inr e ↦ rw e n
    | inl e ↦
        rw e (drain-Numbered fuel max _ dir (drop max buf) (flush-Numbered l dir (take max buf) n))
  ]

  with_agg-Numbered :
      (l : Log) (dir : Direction) (a : Aggregator) → Numbered l → Numbered (with_agg l dir a)
  with_agg-Numbered l stdin a n = n
  with_agg-Numbered l stdout a n = n
  with_agg-Numbered l resize a n = n

  register-Numbered : (l : Log) → Numbered l → Numbered (register l)
  unfolding register
  register-Numbered l n = elim (Bool-cases l.registered) [
    | inl e ↦ rw e n
    | inr e ↦ rw e (n.0, max_seq-Upto l.rows)
  ]

  flush_rest-Numbered :
      (l : Log) (dir : Direction) (buf : List ℕ) → Numbered l → Numbered (flush_rest b l dir buf)
  unfolding flush_rest
  flush_rest-Numbered l dir [] n = n
  flush_rest-Numbered l dir (x ∷ xs) n = flush-Numbered l dir (x ∷ xs) n

  stop-Numbered : (l : Log) (dir : Direction) → Numbered l → Numbered (stop b l dir)
  unfolding stop
  stop-Numbered l dir n = with_agg-Numbered _ dir idle (flush_rest-Numbered l dir (agg l dir).buf n)

  close_if-Numbered : (c : Bool) (l : Log) → Numbered l → Numbered (close_if b c l)
  unfolding close_if
  close_if-Numbered false l n = n
  close_if-Numbered true l n =
      stop-Numbered _ resize (stop-Numbered _ stdout (stop-Numbered l stdin n))

  step-Numbered : (max : ℕ) (l : Log) (e : Event) → Numbered l → Numbered (step b max l e)
  unfolding step append receive on_timer set_pending_resize flush_resize_marker close
  step-Numbered max l (appends dir []) n = n
  step-Numbered max l (appends dir (x ∷ xs)) n =
      with_agg-Numbered _ dir _ (drain-Numbered _ max (register l) dir _ (register-Numbered l n))
  step-Numbered max l (timers dir) n = elim (Bool-cases (agg l dir).armed) [
    | inl e ↦ rw e (stop-Numbered l dir n)
    | inr e ↦ rw e n
  ]
  step-Numbered max l (resizes cols rows) n = elim (Bool-cases (nat_eqb cols 0 || nat_eqb rows 0)) [
    | inl e ↦ rw e n
    | inr e ↦ rw e n
  ]
  step-Numbered max l markers n = elim (Option-cases l.pending) [
    | inl e ↦ rw e n
    | inr ((cols, rows), e) ↦
        rw e (emit-Numbered _ resize _ (register-Numbered (record l { pending = none }) n))
  ]
  step-Numbered max l closes n = close_if-Numbered l.registered l n

  steps-Numbered : (max : ℕ) (l : Log) (es : List Event) → Numbered l → Numbered (run b max l es)
  unfolding run
  steps-Numbered max l [] n = n
  steps-Numbered max l (e ∷ es) n = steps-Numbered max (step b max l e) es (step-Numbered max l e n)

  fresh-Numbered : (rows : List Row) → Ascending rows → Numbered (register (fresh rows))
  unfolding register
  fresh-Numbered rows asc = (asc, max_seq-Upto rows)

  -- Register the terminal over rows of earlier runs whose numbers ascend; then, whatever the clients
  -- and the timers do, closing and registering again included, the numbers of its rows strictly ascend in
  -- the order in which they were written, all directions together, and none is above the counter; also
  -- when the database refuses some of the rows.
  pub run-Ascending :
      (max : ℕ) (rows : List Row) (es : List Event)
      → Ascending rows
      → Ascending (run b max (register (fresh rows)) es).rows
        × Upto
            (run b max (register (fresh rows)) es).seq
            (run b max (register (fresh rows)) es).rows
  run-Ascending max rows es asc =
      steps-Numbered max (register (fresh rows)) es (fresh-Numbered rows asc)

  drain-short :
      (fuel max : ℕ) (l : Log) (dir : Direction) (buf : List ℕ)
      → 0 < max
      → length buf ≤ fuel
      → length (drain b fuel max l dir buf).1 < max
  unfolding drain
  drain-short zero max l dir buf pos le = omega (arith, pos, le)
  drain-short (suc fuel) max l dir buf pos le = elim (Bool-cases (leb max (length buf))) [
    | inr e ↦ rw e (leb-lt max (length buf) e)
    | inl e ↦ rw e (
        drain-short fuel max _ dir (drop max buf) pos (omega (arith, pos, le, length-drop max buf)))
  ]
    where
      leb-lt : (n m : ℕ) → leb n m ≡ false → m < n
      leb-lt n m e = ground arith

  -- With a positive slice size, the loop that cuts whole slices off the buffer ends within as many rounds as
  -- the buffer has bytes: after any received data the aggregator holds less than one slice, and its timer
  -- runs exactly if it holds something.
  pub receive-short :
      (max : ℕ) (l : Log) (dir : Direction) (bytes : List ℕ)
      → 0 < max
      → (length (agg (receive b max l dir bytes) dir).buf < max)
        × ((agg (receive b max l dir bytes) dir).armed
            ≡ not (is_nil (agg (receive b max l dir bytes) dir).buf))
  unfolding receive
  receive-short max l dir bytes pos =
      let buf : List ℕ = (agg l dir).buf ++ bytes in
      own dir (drain b (length buf) max l dir buf)
        (drain-short (length buf) max l dir buf pos (omega arith))
    where
      own :
          (x : Direction) (p : Log × List ℕ)
          → length p.1 < max
          → (length (agg (with_agg p.0 x (record { buf = p.1; armed = not (is_nil p.1) })) x).buf
              < max)
            × ((agg (with_agg p.0 x (record { buf = p.1; armed = not (is_nil p.1) })) x).armed
                ≡ not (
                    is_nil
                      (agg
                        (with_agg p.0 x (record { buf = p.1; armed = not (is_nil p.1) }))
                        x).buf))
      own stdin p lt = (lt, refl)
      own stdout p lt = (lt, refl)
      own resize p lt = (lt, refl)

  marker_some :
      (cols rows : ℕ) (l : Log)
      → emit_marker b (some (cols, rows)) l
        ≡ emit b (record l { pending = none }) resize (b.grid_json cols rows)
  unfolding emit_marker
  marker_some cols rows l = refl

  emit-stored :
      (l : Log) (dir : Direction) (bytes : List ℕ)
      → b.accepts (l.seq + 1) ≡ true
      → ((emit b l dir bytes).rows ≡ l.rows ++ row_of b dir (l.seq + 1) bytes ∷ [])
        × ((emit b l dir bytes).seq ≡ l.seq + 1)
        × ((emit b l dir bytes).pending ≡ l.pending)
  unfolding emit flush_chunk
  emit-stored l dir bytes ok = rw ok (refl, refl, refl)

  -- When a resize is pending and the database takes the two rows, the next flush of output writes the grid's
  -- marker directly before the chunk, under the next two numbers, and the resize is no longer pending; a
  -- flush of input leaves it pending and writes the chunk alone.
  pub flush_marks :
      (l : Log) (cols rows : ℕ) (bytes : List ℕ)
      → l.pending ≡ some (cols, rows)
      → ((seq : ℕ) → b.accepts seq ≡ true)
      → ((flush b l stdout bytes).rows
          ≡ l.rows
            ++ row_of b resize (l.seq + 1) (b.grid_json cols rows)
              ∷ row_of b stdout (l.seq + 1 + 1) bytes
              ∷ [])
        × ((flush b l stdout bytes).pending ≡ none)
        × ((flush b l stdin bytes).rows ≡ l.rows ++ row_of b stdin (l.seq + 1) bytes ∷ [])
        × ((flush b l stdin bytes).pending ≡ some (cols, rows))
  unfolding flush
  flush_marks l cols rows bytes e ok =
      let l0 : Log = record l { pending = none } in
      let l1 : Log = emit b l0 resize (b.grid_json cols rows) in
      let (rows1, seq1, pending1) = emit-stored l0 resize (b.grid_json cols rows) (ok _) in
      let (rows2, _, pending2) = emit-stored l1 stdout bytes (ok _) in
      let (rows3, _, pending3) = emit-stored l stdin bytes (ok _) in
      let marked : emit_marker b l.pending l ≡ l1 = marked_by l.pending e in
      (
        ap (λ (x : Log). (emit b x stdout bytes).rows) marked
            ∙ rows2
            ∙ ap (λ (n : ℕ). l1.rows ++ row_of b stdout (n + 1) bytes ∷ []) seq1
            ∙ ap (λ (xs : List Row). xs ++ row_of b stdout (l.seq + 1 + 1) bytes ∷ []) rows1
            ∙ append_assoc l.rows _ _,
        ap (λ (x : Log). (emit b x stdout bytes).pending) marked ∙ pending2 ∙ pending1,
        rows3,
        pending3 ∙ e,
      )
    where
      marked_by :
          (o : Option (ℕ × ℕ))
          → o ≡ some (cols, rows)
          → emit_marker b o l ≡ emit b (record l { pending = none }) resize (b.grid_json cols rows)
      marked_by o h = ap (λ (x : Option (ℕ × ℕ)). emit_marker b x l) h ∙ marker_some cols rows l
