-- ===== src/Log/Delivery.antt =====
-- What a terminal's clients find in the table after the log is closed (store.go Close, aggregator.go run).
use shell_sync.Base.{
  ℕ, zero, suc, ◌≡◌, refl, sym, ap, ◌≢◌, ◌∙◌, Bool, true, false, String, Option, none, some, List,
  [], ◌∷◌, ◌++◌, length, take, drop, leb, nat_eqb, ◌||◌, if◌then◌else◌, arith, Bool-cases,
  Option-cases, inl, inr,
}
use mathlib.Core.List.{append-nil}
use shell_sync.Log.{
  Log, Row, Direction, stdin, stdout, resize, Aggregator, Backend, idle, agg, with_agg, register,
  set_pending_resize, emit, flush_chunk, flush, emit_marker, flush_resize_marker, drain, receive,
  flush_rest, stop, on_timer, append, close, close_if,
}
use shell_sync.Log.Flushing.{same_dir, persisted, held}
use shell_sync.Log.Conserve.{
  Event, appends, timers, resizes, markers, closes, step, run, appended, Settled, flush_rest-agg,
  register-registered, step-held,
}

-- A log that no call has touched, over the rows of earlier runs.
abbrev pub fresh : List Row → Log
fresh rows = record {
  registered = false;
  seq = 0;
  input = idle;
  output = idle;
  other = idle;
  pending = none;
  rows = rows;
  flushed = [];
}

fresh-Settled : (rows : List Row) → Settled (fresh rows)
fresh-Settled rows off stdin = refl
fresh-Settled rows off stdout = refl
fresh-Settled rows off resize = refl

pending-buf :
    (l : Log) (o : Option (ℕ × ℕ)) (x : Direction)
    → (agg (record l { pending = o }) x).buf ≡ (agg l x).buf
pending-buf l o stdin = refl
pending-buf l o stdout = refl
pending-buf l o resize = refl

not_both : {P : Type 0} (c : Bool) → c ≡ true → c ≡ false → P
not_both true p q = cc
not_both false p q = cc

with_agg-at :
    (l : Log) (dir x : Direction) (a : Aggregator)
    → agg (with_agg l dir a) x ≡ (if same_dir x dir then a else agg l x)
with_agg-at l stdin stdin a = refl
with_agg-at l stdin stdout a = refl
with_agg-at l stdin resize a = refl
with_agg-at l stdout stdin a = refl
with_agg-at l stdout stdout a = refl
with_agg-at l stdout resize a = refl
with_agg-at l resize stdin a = refl
with_agg-at l resize stdout a = refl
with_agg-at l resize resize a = refl

with_agg-registered :
    (l : Log) (dir : Direction) (a : Aggregator) → (with_agg l dir a).registered ≡ l.registered
with_agg-registered l stdin a = refl
with_agg-registered l stdout a = refl
with_agg-registered l resize a = refl

module _ (b : Backend) where
  flush-registered :
      (l : Log) (dir : Direction) (bytes : List ℕ) → (flush b l dir bytes).registered ≡ l.registered
  unfolding flush emit emit_marker flush_chunk
  flush-registered l dir bytes = ground arith

  flush_rest-registered :
      (l : Log) (dir : Direction) (bytes : List ℕ)
      → (flush_rest b l dir bytes).registered ≡ l.registered
  unfolding flush_rest
  flush_rest-registered l dir [] = refl
  flush_rest-registered l dir (x ∷ xs) = flush-registered l dir (x ∷ xs)

  drain-registered :
      (fuel max : ℕ) (l : Log) (dir : Direction) (buf : List ℕ)
      → (drain b fuel max l dir buf).0.registered ≡ l.registered
  unfolding drain
  drain-registered zero max l dir buf = refl
  drain-registered (suc fuel) max l dir buf = elim (Bool-cases (leb max (length buf))) [
    | inr e ↦ rw e refl
    | inl e ↦ rw e (
        drain-registered fuel max (flush b l dir (take max buf)) dir (drop max buf)
        ∙ flush-registered l dir (take max buf))
  ]

  receive-registered :
      (max : ℕ) (l : Log) (dir : Direction) (bytes : List ℕ)
      → (receive b max l dir bytes).registered ≡ l.registered
  unfolding receive
  receive-registered max l dir bytes =
      let buf : List ℕ = (agg l dir).buf ++ bytes in
      with_agg-registered _ dir _ ∙ drain-registered (length buf) max l dir buf

  stop-registered : (l : Log) (dir : Direction) → (stop b l dir).registered ≡ l.registered
  unfolding stop
  stop-registered l dir = with_agg-registered _ dir _ ∙ flush_rest-registered l dir _

  stop-buf :
      (l : Log) (dir x : Direction)
      → (agg (stop b l dir) x).buf ≡ (if same_dir x dir then [] else (agg l x).buf)
  unfolding stop
  stop-buf l dir x =
      ap (λ (a : Aggregator). a.buf) (with_agg-at _ dir x idle)
      ∙ elim (Bool-cases (same_dir x dir)) [
        | inl e ↦ rw e refl
        | inr e ↦ rw e (ap (λ (a : Aggregator). a.buf) (flush_rest-agg b l dir x _))
      ]

  stop-Settled : (l : Log) (dir : Direction) → Settled l → Settled (stop b l dir)
  stop-Settled l dir st off x = stop-buf l dir x ∙ elim (Bool-cases (same_dir x dir)) [
    | inl e ↦ rw e refl
    | inr e ↦ rw e (st (sym (stop-registered l dir) ∙ off) x)
  ]

  close_if-buf : (l : Log) (x : Direction) → (agg (close_if b true l) x).buf ≡ []
  unfolding close_if
  close_if-buf l stdin = stop-buf _ resize stdin ∙ stop-buf _ stdout stdin ∙ stop-buf l stdin stdin
  close_if-buf l stdout = stop-buf _ resize stdout ∙ stop-buf _ stdout stdout
  close_if-buf l resize = stop-buf _ resize resize

  close_if-all :
      (c : Bool) (l : Log) (x : Direction)
      → l.registered ≡ c
      → Settled l
      → (agg (close_if b c l) x).buf ≡ []
  unfolding close_if
  close_if-all true l x e st = close_if-buf l x
  close_if-all false l x e st = st e x

  close-buf : (l : Log) (x : Direction) → Settled l → (agg (close b l) x).buf ≡ []
  unfolding close
  close-buf l x st = close_if-all l.registered l x refl st

  emit-registered : (l : Log) (bytes : List ℕ) → (emit b l resize bytes).registered ≡ l.registered
  unfolding emit flush_chunk
  emit-registered l bytes = ground arith

  marker-Settled : (l : Log) → Settled l → Settled (flush_resize_marker b l)
  unfolding flush_resize_marker
  marker-Settled l st = elim (Option-cases l.pending) [
    | inl e ↦ rw (e, flush_resize_marker) st
    | inr ((cols, rows), e) ↦
        rw (e, flush_resize_marker)
          (λ off.
            not_both _
              (emit-registered _ (b.grid_json cols rows)
                ∙ register-registered (record l { pending = none }))
              off)
  ]

  resize-Settled : (l : Log) (cols rows : ℕ) → Settled l → Settled (set_pending_resize l cols rows)
  unfolding set_pending_resize
  resize-Settled l cols rows st = elim (Bool-cases (nat_eqb cols 0 || nat_eqb rows 0)) [
    | inl e ↦ rw e st
    | inr e ↦ rw e (λ off. λ x. pending-buf l (some (cols, rows)) x ∙ st off x)
  ]

  step-Settled : (max : ℕ) (l : Log) (e : Event) → Settled l → Settled (step b max l e)
  unfolding step append on_timer
  step-Settled max l (appends dir []) st = st
  step-Settled max l (appends dir (x ∷ xs)) st = λ off.
      not_both _ (receive-registered max (register l) dir (x ∷ xs) ∙ register-registered l) off
  step-Settled max l (timers dir) st = elim (Bool-cases (agg l dir).armed) [
    | inl e ↦ rw e (stop-Settled l dir st)
    | inr e ↦ rw e st
  ]
  step-Settled max l (resizes cols rows) st = resize-Settled l cols rows st
  step-Settled max l markers st = marker-Settled l st
  step-Settled max l closes st = λ off. λ x. close-buf l x st

  run-Settled : (max : ℕ) (l : Log) (es : List Event) → Settled l → Settled (run b max l es)
  unfolding run
  run-Settled max l [] st = st
  run-Settled max l (e ∷ es) st = run-Settled max (step b max l e) es (step-Settled max l e st)

module _ (b : Backend) (decode : String → List ℕ)
    (reads : (bytes : List ℕ) → decode (b.encode bytes) ≡ bytes)
    (stored : (seq : ℕ) → b.accepts seq ≡ true) (d : Direction) (real : d ≢ resize) where
  abbrev holds : Log → List ℕ
  holds = held b decode reads stored d real

  run-held :
      (max : ℕ) (l : Log) (es : List Event)
      → Settled l
      → holds (run b max l es) ≡ holds l ++ appended d es
  unfolding run appended
  run-held max l [] st = sym (append-nil _)
  run-held max l (e ∷ es) st =
      run-held max (step b max l e) es (step-Settled b max l e st)
      ∙ step-held b decode reads stored d real max l e es st

  nothing :
      (rows : List Row) (x : Direction)
      → persisted decode d rows ++ (agg (fresh rows) x).buf ≡ persisted decode d rows
  nothing rows stdin = append-nil _
  nothing rows stdout = append-nil _
  nothing rows resize = append-nil _

  -- Start from any rows of earlier runs and let the clients append to the three directions, ask for resizes
  -- and markers, and close and reopen the log, while the timers fire, all in any order. Provided the text
  -- encoding can be read back and the database takes every row, what the rows of the stdin (or of the
  -- stdout) direction hold, read in order, followed by what its aggregator still buffers, is what the
  -- earlier rows held followed by all the bytes appended to that direction, in the order of the calls.
  pub run-conserved :
      (max : ℕ) (rows : List Row) (es : List Event)
      → persisted decode d (run b max (fresh rows) es).rows
          ++ (agg (run b max (fresh rows) es) d).buf
        ≡ persisted decode d rows ++ appended d es
  unfolding held
  run-conserved max rows es =
      run-held max (fresh rows) es (fresh-Settled rows)
      ∙ ap (λ (xs : List ℕ). xs ++ appended d es) (nothing rows d)

  -- The same from any state of the log on: what was buffered at its start is stored as well.
  pub close-run-delivers :
      (max : ℕ) (l0 : Log) (es : List Event)
      → Settled l0
      → persisted decode d (close b (run b max l0 es)).rows
        ≡ (persisted decode d l0.rows ++ (agg l0 d).buf) ++ appended d es
  unfolding held appended step
  close-run-delivers max l0 es st =
      sym (append-nil _)
      ∙ ap (◌++◌ (persisted decode d (close b l).rows)) (sym (close-buf b l d settled))
      ∙ closed
      ∙ run-held max l0 es st
    where
      l : Log
      l = run b max l0 es

      settled : Settled l
      settled = run-Settled b max l0 es st

      closed :
          persisted decode d (close b l).rows ++ (agg (close b l) d).buf
          ≡ persisted decode d l.rows ++ (agg l d).buf
      closed =
          sym (append-nil _)
          ∙ step-held b decode reads stored d real max l closes [] settled
          ∙ append-nil _

  -- Start from any rows of earlier runs, let the clients and the timers act on the log in any order, and close
  -- it. Provided the text encoding can be read back and the database takes every row, the rows of
  -- the stdin (or of the stdout) direction then hold exactly what the earlier rows held followed by all the
  -- bytes appended to that direction, in the order of the calls: nothing stays in an aggregator.
  pub close-delivers :
      (max : ℕ) (rows : List Row) (es : List Event)
      → persisted decode d (close b (run b max (fresh rows) es)).rows
        ≡ persisted decode d rows ++ appended d es
  close-delivers max rows es =
      close-run-delivers max (fresh rows) es (fresh-Settled rows)
      ∙ ap (λ (xs : List ℕ). xs ++ appended d es) (nothing rows d)
