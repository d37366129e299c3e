-- ===== src/Log/Growth.antt =====
-- Every chunk that the log stores is handed to OnFlush, in the same order (store.go, flushChunk).
use shell_sync.Base.{
  ℕ, zero, suc, ◌≡◌, refl, sym, ap, ◌∙◌, Bool, true, false, Option, none, some, List, [], ◌∷◌, ◌++◌,
  ◌+◌, ◌||◌, nat_eqb, length, take, drop, leb, Bool-cases, inl, inr,
}
use mathlib.Core.List.{append-nil, append_assoc}
use shell_sync.Log.{
  Log, Row, Direction, stdin, stdout, resize, Backend, register, set_pending_resize, flush_chunk,
  emit, emit_marker, flush, flush_resize_marker, flush_rest, on_timer, append, close, close_if,
  drain, receive, stop, agg, with_agg, row_of, is_stdout,
}
use shell_sync.Log.Conserve.{Event, appends, timers, resizes, markers, closes, step}

-- The same rows have come to two lists: what the hook was called with, and the table.
pub record More (flushed rows flushed' rows' : List Row) : Type 0 where
  pub new : List Row
  pub heard : flushed' ≡ flushed ++ new
  pub stored : rows' ≡ rows ++ new

abbrev pub Grows : Log → Log → Type 0
Grows l l' = More l.flushed l.rows l'.flushed l'.rows

nothing_new : (flushed rows : List Row) → More flushed rows flushed rows
nothing_new flushed rows = record {
  new = [];
  heard = sym (append-nil flushed);
  stored = sym (append-nil rows);
}

pub More-trans : {f r f1 r1 f2 r2 : List Row} → More f r f1 r1 → More f1 r1 f2 r2 → More f r f2 r2
More-trans {f} {r} x y = record {
  new = x.new ++ y.new;
  heard = y.heard ∙ (ap (λ (xs : List Row). xs ++ y.new) x.heard ∙ append_assoc f x.new y.new);
  stored = y.stored ∙ (ap (λ (xs : List Row). xs ++ y.new) x.stored ∙ append_assoc r x.new y.new);
}

module _ (b : Backend) where
  Grows-chunk :
      (l : Log) (dir : Direction) (seq : ℕ) (bytes : List ℕ)
      → Grows l (flush_chunk b l dir seq bytes)
  unfolding flush_chunk
  Grows-chunk l dir seq bytes = elim (Bool-cases (b.accepts seq)) [
    | inl e ↦ rw e (record { new = row_of b dir seq bytes ∷ []; heard = refl; stored = refl })
    | inr e ↦ rw e (nothing_new l.flushed l.rows)
  ]

  Grows-emit : (l : Log) (dir : Direction) (bytes : List ℕ) → Grows l (emit b l dir bytes)
  unfolding emit
  Grows-emit l dir bytes = Grows-chunk (record l { seq = l.seq + 1 }) dir (l.seq + 1) bytes

  Grows-marker : (p : Option (ℕ × ℕ)) (l : Log) → Grows l (emit_marker b p l)
  unfolding emit_marker
  Grows-marker none l = nothing_new l.flushed l.rows
  Grows-marker (some (cols, rows)) l =
      Grows-emit (record l { pending = none }) resize (b.grid_json cols rows)

  Grows-flush : (l : Log) (dir : Direction) (bytes : List ℕ) → Grows l (flush b l dir bytes)
  unfolding flush
  Grows-flush l stdout bytes =
      let l' = emit_marker b l.pending l in
      More-trans (Grows-marker l.pending l) (Grows-emit l' stdout bytes)
  Grows-flush l stdin bytes = Grows-emit l stdin bytes
  Grows-flush l resize bytes = Grows-emit l resize bytes

  Grows-agg :
      (l l' : Log) (dir : Direction) (a : shell_sync.Log.Aggregator)
      → Grows l l'
      → Grows l (with_agg l' dir a)
  Grows-agg l l' stdin a g = g
  Grows-agg l l' stdout a g = g
  Grows-agg l l' resize a g = g

  Grows-drain :
      (fuel max : ℕ) (l : Log) (dir : Direction) (buf : List ℕ)
      → Grows l (drain b fuel max l dir buf).0
  unfolding drain
  Grows-drain zero max l dir buf = nothing_new l.flushed l.rows
  Grows-drain (suc fuel) max l dir buf = elim (Bool-cases (leb max (length buf))) [
    | inl e ↦
        let l' = flush b l dir (take max buf) in
        rw e (
          More-trans (Grows-flush l dir (take max buf))
            (Grows-drain fuel max l' dir (drop max buf)))
    | inr e ↦ rw e (nothing_new l.flushed l.rows)
  ]

  Grows-register : (l : Log) → Grows l (register l)
  unfolding register
  Grows-register l = elim (Bool-cases l.registered) [
    | inl e ↦ rw e (nothing_new l.flushed l.rows)
    | inr e ↦ rw e (nothing_new l.flushed l.rows)
  ]

  Grows-append :
      (max : ℕ) (l : Log) (dir : Direction) (bytes : List ℕ) → Grows l (append b max l dir bytes)
  unfolding append receive
  Grows-append max l dir [] = nothing_new l.flushed l.rows
  Grows-append max l dir (x ∷ xs) =
      let r = register l in
      let buf = (agg r dir).buf ++ x ∷ xs in
      More-trans (Grows-register l) (
        Grows-agg r (drain b (length buf) max r dir buf).0 dir _
          (Grows-drain (length buf) max r dir buf))

  Grows-rest : (l : Log) (dir : Direction) (buf : List ℕ) → Grows l (flush_rest b l dir buf)
  unfolding flush_rest
  Grows-rest l dir [] = nothing_new l.flushed l.rows
  Grows-rest l dir (x ∷ xs) = Grows-flush l dir (x ∷ xs)

  Grows-stop : (l : Log) (dir : Direction) → Grows l (stop b l dir)
  unfolding stop
  Grows-stop l dir =
      Grows-agg l (flush_rest b l dir (agg l dir).buf) dir _ (Grows-rest l dir (agg l dir).buf)

  Grows-timer : (l : Log) (dir : Direction) → Grows l (on_timer b l dir)
  unfolding on_timer
  Grows-timer l dir = elim (Bool-cases (agg l dir).armed) [
    | inl e ↦ rw e (Grows-stop l dir)
    | inr e ↦ rw e (nothing_new l.flushed l.rows)
  ]

  Grows-pending : (l : Log) (cols rows : ℕ) → Grows l (set_pending_resize l cols rows)
  unfolding set_pending_resize
  Grows-pending l cols rows = elim (Bool-cases (nat_eqb cols 0 || nat_eqb rows 0)) [
    | inl e ↦ rw e (nothing_new l.flushed l.rows)
    | inr e ↦ rw e (nothing_new l.flushed l.rows)
  ]

  Grows-mark : (l : Log) → Grows l (flush_resize_marker b l)
  unfolding flush_resize_marker
  Grows-mark l = by_pending l.pending
    where
      by_pending :
          (p : Option (ℕ × ℕ))
          → Grows l (elim p as (λ _. Log) [
            | none ↦ l
            | some (cols, rows) ↦
                emit b (register (record l { pending = none })) resize (b.grid_json cols rows)
          ])
      by_pending none = nothing_new l.flushed l.rows
      by_pending (some (cols, rows)) =
          let l' = record l { pending = none } in
          More-trans (Grows-register l') (Grows-emit (register l') resize (b.grid_json cols rows))

  pub Grows-close : (l : Log) → Grows l (close b l)
  unfolding close close_if
  Grows-close l = by_registered l.registered
    where
      by_registered : (r : Bool) → Grows l (close_if b r l)
      by_registered false = nothing_new l.flushed l.rows
      by_registered true =
          let l1 = stop b l stdin in
          let l2 = stop b l1 stdout in
          More-trans (Grows-stop l stdin) (More-trans (Grows-stop l1 stdout) (Grows-stop l2 resize))

  pub Grows-step : (max : ℕ) (l : Log) (e : Event) → Grows l (step b max l e)
  unfolding step
  Grows-step max l (appends dir bytes) = Grows-append max l dir bytes
  Grows-step max l (timers dir) = Grows-timer l dir
  Grows-step max l (resizes cols rows) = Grows-pending l cols rows
  Grows-step max l markers = Grows-mark l
  Grows-step max l closes = Grows-close l
