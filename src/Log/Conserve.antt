-- ===== src/Log/Conserve.antt =====
-- No byte of a terminal is lost, made up or moved: what is persisted for a direction, followed by what
-- its aggregator still holds, is what was appended, in order.
use shell_sync.Base.{
  ℕ, ◌≡◌, refl, sym, ap, ◌≢◌, ◌∙◌, Bool, true, false, String, none, List, [], ◌∷◌, ◌++◌, nat_eqb,
  ◌||◌, arith, Bool-cases, Option-cases, inl, inr,
}
use mathlib.Core.List.{append-nil, append_assoc}
use shell_sync.Log.{
  Log, max_seq, Direction, stdin, stdout, resize, Aggregator, Backend, idle, agg, register,
  set_pending_resize, flush_chunk, emit, emit_marker, flush, flush_resize_marker, flush_rest,
  on_timer, append, close, close_if,
}
use shell_sync.Log.Flushing.{
  same_dir, when, persisted, held, emit-persisted, not_resize, receive-held, stop-held,
}

pub data Event : Type 0 where
  appends : Direction → List ℕ → Event
  timers : Direction → Event
  resizes : ℕ → ℕ → Event
  markers closes : Event

-- The clients' calls and the aggregators' timers, in the order in which they take effect.
unfoldable pub step : Backend → ℕ → Log → Event → Log
step b max l (appends dir bytes) = append b max l dir bytes
step b max l (timers dir) = on_timer b l dir
step b max l (resizes cols rows) = set_pending_resize l cols rows
step b max l markers = flush_resize_marker b l
step b max l closes = close b l

unfoldable pub run : Backend → ℕ → Log → List Event → Log
run b max l [] = l
run b max l (e ∷ es) = run b max (step b max l e) es

-- What the events append to a direction.
unfoldable pub appended : Direction → List Event → List ℕ
appended d [] = []
appended d (appends dir bytes ∷ es) = when (same_dir d dir) bytes ++ appended d es
appended d (timers dir ∷ es) = appended d es
appended d (resizes cols rows ∷ es) = appended d es
appended d (markers ∷ es) = appended d es
appended d (closes ∷ es) = appended d es

-- A terminal that is not registered has nothing buffered.
abbrev pub Settled : Log → Type 0
Settled l = l.registered ≡ false → (x : Direction) → (agg l x).buf ≡ []

-- Each aggregator survives the flush of another one.
pub flush_rest-agg :
    (b : Backend) (l : Log) (dir x : Direction) (buf : List ℕ)
    → agg (flush_rest b l dir buf) x ≡ agg l x
unfolding flush_rest flush emit emit_marker flush_chunk
flush_rest-agg b l dir x [] = refl
flush_rest-agg b l dir stdin (y ∷ ys) = ground arith
flush_rest-agg b l dir stdout (y ∷ ys) = ground arith
flush_rest-agg b l dir resize (y ∷ ys) = ground arith

pub register-registered : (l : Log) → (register l).registered ≡ true
unfolding register
register-registered l = ground arith

module _ (b : Backend) (decode : String → List ℕ)
    (reads : (bytes : List ℕ) → decode (b.encode bytes) ≡ bytes)
    (stored : (seq : ℕ) → b.accepts seq ≡ true) (d : Direction) (real : d ≢ resize) where
  abbrev pub holds : Log → List ℕ
  holds = held b decode reads stored d real

  idle-agg :
      (l : Log) (x : Direction)
      → agg
          (record l {
            registered = true;
            seq = max_seq l.rows;
            input = idle;
            output = idle;
            other = idle;
          })
          x
        ≡ idle
  idle-agg l stdin = refl
  idle-agg l stdout = refl
  idle-agg l resize = refl

  register-held : (l : Log) → Settled l → holds (register l) ≡ holds l
  unfolding register held
  register-held l st = elim (Bool-cases l.registered) [
    | inl e ↦ rw e refl
    | inr e ↦ rw e (
        ap (λ (xs : List ℕ). persisted decode d l.rows ++ xs)
          (ap (λ (a : Aggregator). a.buf) (idle-agg l d) ∙ sym (st e d)))
  ]

  append-held :
      (max : ℕ) (l : Log) (dir : Direction) (bytes : List ℕ)
      → Settled l
      → holds (append b max l dir bytes) ≡ holds l ++ when (same_dir d dir) bytes
  unfolding append
  append-held max l dir [] st = sym (nothing (same_dir d dir))
    where
      nothing : (c : Bool) → holds l ++ when c [] ≡ holds l
      nothing true = append-nil _
      nothing false = append-nil _
  append-held max l dir (x ∷ xs) st =
      receive-held b decode reads stored d real max (register l) dir (x ∷ xs)
      ∙ ap (λ (ys : List ℕ). ys ++ when (same_dir d dir) (x ∷ xs)) (register-held l st)

  on_timer-held : (l : Log) (dir : Direction) → holds (on_timer b l dir) ≡ holds l
  unfolding on_timer
  on_timer-held l dir = elim (Bool-cases (agg l dir).armed) [
    | inl e ↦ rw e (stop-held b decode reads stored d real l dir)
    | inr e ↦ rw e refl
  ]

  resize-held : (l : Log) (cols rows : ℕ) → holds (set_pending_resize l cols rows) ≡ holds l
  unfolding set_pending_resize held
  resize-held l cols rows = elim (Bool-cases (nat_eqb cols 0 || nat_eqb rows 0)) [
    | inl e ↦ rw e refl
    | inr e ↦ rw e refl
  ]

  agg-emit : (l : Log) (bytes : List ℕ) (x : Direction) → agg (emit b l resize bytes) x ≡ agg l x
  unfolding emit flush_chunk
  agg-emit l bytes stdin = ground arith
  agg-emit l bytes stdout = ground arith
  agg-emit l bytes resize = ground arith

  marker-held : (l : Log) → Settled l → holds (flush_resize_marker b l) ≡ holds l
  unfolding flush_resize_marker held
  marker-held l st = elim (Option-cases l.pending) [
    | inl e ↦ rw (e, flush_resize_marker) refl
    | inr ((cols, rows), e) ↦
        rw (e, flush_resize_marker)
          (let l' = register (record l { pending = none }) in
            ap
              (λ (a : Aggregator).
                persisted decode d (emit b l' resize (b.grid_json cols rows)).rows ++ a.buf)
              (agg-emit l' (b.grid_json cols rows) d)
            ∙ ap (λ (xs : List ℕ). xs ++ (agg l' d).buf)
                (emit-persisted b decode reads stored d real l' resize (b.grid_json cols rows)
                  ∙ rw (not_resize b decode reads stored d real) (append-nil _))
            ∙ register-held (record l { pending = none }) st
            ∙ same_agg d)
  ]
    where
      same_agg :
          (x : Direction)
          → persisted decode d l.rows ++ (agg (record l { pending = none }) x).buf
            ≡ persisted decode d l.rows ++ (agg l x).buf
      same_agg stdin = refl
      same_agg stdout = refl
      same_agg resize = refl

  unregistered-held : (l : Log) → holds (record l { registered = false }) ≡ holds l
  unfolding held
  unregistered-held l = same_agg d
    where
      same_agg :
          (x : Direction)
          → persisted decode d l.rows ++ (agg (record l { registered = false }) x).buf
            ≡ persisted decode d l.rows ++ (agg l x).buf
      same_agg stdin = refl
      same_agg stdout = refl
      same_agg resize = refl

  close_if-held : (c : Bool) (l : Log) → holds (close_if b c l) ≡ holds l
  unfolding close_if
  close_if-held false l = refl
  close_if-held true l =
      unregistered-held _
      ∙ stop-held b decode reads stored d real _ resize
      ∙ stop-held b decode reads stored d real _ stdout
      ∙ stop-held b decode reads stored d real l stdin

  pub step-held :
      (max : ℕ) (l : Log) (e : Event) (es : List Event)
      → Settled l
      → holds (step b max l e) ++ appended d es ≡ holds l ++ appended d (e ∷ es)
  unfolding step appended close
  step-held max l (appends dir bytes) es st =
      ap (λ (xs : List ℕ). xs ++ appended d es) (append-held max l dir bytes st)
      ∙ append_assoc (holds l) (when (same_dir d dir) bytes) (appended d es)
  step-held max l (timers dir) es st =
      ap (λ (xs : List ℕ). xs ++ appended d es) (on_timer-held l dir)
  step-held max l (resizes cols rows) es st =
      ap (λ (xs : List ℕ). xs ++ appended d es) (resize-held l cols rows)
  step-held max l markers es st = ap (λ (xs : List ℕ). xs ++ appended d es) (marker-held l st)
  step-held max l closes es st =
      ap (λ (xs : List ℕ). xs ++ appended d es) (close_if-held l.registered l)
