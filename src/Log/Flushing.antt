-- ===== src/Log/Flushing.antt =====
-- How flushing, draining and stopping move bytes from an aggregator to the rows (aggregator.go).
use shell_sync.Base.{
  ℕ, zero, suc, ◌+◌, ◌≡◌, refl, sym, ap, ◌≢◌, ◌∙◌, Bool, true, false, String, Option, none, some,
  List, [], ◌∷◌, ◌++◌, length, take, drop, take-append-drop, leb, not, if◌then◌else◌, arith,
  Bool-cases, inl, inr,
}
use mathlib.Core.List.{append-nil, append_assoc}
use shell_sync.Log.{
  Log, Row, Direction, stdin, stdout, resize, Aggregator, Backend, idle, is_stdout, agg, with_agg,
  is_nil, flush_chunk, row_of, emit, emit_marker, flush, drain, receive, flush_rest, stop,
}

abbrev pub same_dir : Direction → Direction → Bool
same_dir stdin stdin = true
same_dir stdout stdout = true
same_dir resize resize = true
same_dir _ _ = false

-- The bytes that count for a direction.
abbrev pub when : Bool → List ℕ → List ℕ
when true xs = xs
when false xs = []

-- The persisted bytes of a direction, read back.
unfoldable pub persisted : (String → List ℕ) → Direction → List Row → List ℕ
persisted decode d [] = []
persisted decode d (r ∷ rs) =
    when (same_dir d r.direction) (decode r.content_b64) ++ persisted decode d rs

module _ (b : Backend) (decode : String → List ℕ)
    (reads : (bytes : List ℕ) → decode (b.encode bytes) ≡ bytes)
    (stored : (seq : ℕ) → b.accepts seq ≡ true) (d : Direction) (real : d ≢ resize) where
  persisted-snoc :
      (rs : List Row) (r : Row)
      → persisted decode d (rs ++ r ∷ [])
        ≡ persisted decode d rs ++ when (same_dir d r.direction) (decode r.content_b64)
  unfolding persisted
  persisted-snoc [] r = append-nil _
  persisted-snoc (x ∷ rs) r =
      ap (◌++◌ (when (same_dir d x.direction) (decode x.content_b64))) (persisted-snoc rs r)
      ∙ sym (
          append_assoc (when (same_dir d x.direction) (decode x.content_b64))
            (persisted decode d rs) _)

  pub emit-persisted :
      (l : Log) (dir : Direction) (bytes : List ℕ)
      → persisted decode d (emit b l dir bytes).rows
        ≡ persisted decode d l.rows ++ when (same_dir d dir) bytes
  unfolding emit flush_chunk row_of
  emit-persisted l dir bytes =
      rw (stored (l.seq + 1)) (persisted-snoc l.rows (row_of b dir (l.seq + 1) bytes) ∙ rw reads)

  pub not_resize : same_dir d resize ≡ false
  not_resize = other d real
    where
      other : (x : Direction) → x ≢ resize → same_dir x resize ≡ false
      other stdin h = refl
      other stdout h = refl
      other resize h = absurd (h refl)

  emit_marker-persisted :
      (o : Option (ℕ × ℕ)) (l : Log)
      → persisted decode d (emit_marker b o l).rows ≡ persisted decode d l.rows
  unfolding emit_marker
  emit_marker-persisted none l = refl
  emit_marker-persisted (some (cols, rows)) l =
      emit-persisted _ resize _ ∙ rw not_resize (append-nil _)

  pub flush-persisted :
      (l : Log) (dir : Direction) (bytes : List ℕ)
      → persisted decode d (flush b l dir bytes).rows
        ≡ persisted decode d l.rows ++ when (same_dir d dir) bytes
  unfolding flush
  flush-persisted l dir bytes = elim (Bool-cases (is_stdout dir)) [
    | inl e ↦ rw e (emit-persisted _ dir bytes ∙ rw (emit_marker-persisted l.pending l))
    | inr e ↦ rw e (emit-persisted l dir bytes)
  ]

  when-append : (c : Bool) (xs ys : List ℕ) → when c xs ++ when c ys ≡ when c (xs ++ ys)
  when-append true xs ys = refl
  when-append false xs ys = refl

  pub flush-agg :
      (l : Log) (dir x : Direction) (bytes : List ℕ)
      → (agg (flush b l dir bytes) x ≡ agg l x) × ((flush b l dir bytes).registered ≡ l.registered)
  unfolding flush emit emit_marker flush_chunk
  flush-agg l dir stdin bytes = ground arith
  flush-agg l dir stdout bytes = ground arith
  flush-agg l dir resize bytes = ground arith

  drain-persisted :
      (fuel max : ℕ) (l : Log) (dir : Direction) (buf : List ℕ)
      → persisted decode d (drain b fuel max l dir buf).0.rows
          ++ when (same_dir d dir) (drain b fuel max l dir buf).1
        ≡ persisted decode d l.rows ++ when (same_dir d dir) buf
  unfolding drain
  drain-persisted zero max l dir buf = refl
  drain-persisted (suc fuel) max l dir buf = elim (Bool-cases (leb max (length buf))) [
    | inr e ↦ rw e refl
    | inl e ↦ rw e (
        drain-persisted fuel max (flush b l dir (take max buf)) dir (drop max buf)
        ∙ ap (λ (xs : List ℕ). xs ++ when (same_dir d dir) (drop max buf))
            (flush-persisted l dir (take max buf))
        ∙ append_assoc (persisted decode d l.rows) (when (same_dir d dir) (take max buf)) _
        ∙ ap (◌++◌ (persisted decode d l.rows)) (
            when-append (same_dir d dir) (take max buf) (drop max buf)
            ∙ ap (when (same_dir d dir)) (take-append-drop max buf)))
  ]

  pub drain-agg :
      (fuel max : ℕ) (l : Log) (dir x : Direction) (buf : List ℕ)
      → (agg (drain b fuel max l dir buf).0 x ≡ agg l x)
        × ((drain b fuel max l dir buf).0.registered ≡ l.registered)
  unfolding drain
  drain-agg zero max l dir x buf = (refl, refl)
  drain-agg (suc fuel) max l dir x buf = elim (Bool-cases (leb max (length buf))) [
    | inr e ↦ rw e (refl, refl)
    | inl e ↦
        let (p, q) = drain-agg fuel max (flush b l dir (take max buf)) dir x (drop max buf) in
        let (r, t) = flush-agg l dir x (take max buf) in rw e (p ∙ r, q ∙ t)
  ]

  -- What the log holds of the direction, persisted or buffered.
  unfoldable pub held : Log → List ℕ
  held l = persisted decode d l.rows ++ (agg l d).buf

  with_agg-agg :
      (l : Log) (dir : Direction) (a : Aggregator)
      → (agg (with_agg l dir a) d ≡ (if same_dir d dir then a else agg l d))
        × ((with_agg l dir a).rows ≡ l.rows)
        × ((with_agg l dir a).registered ≡ l.registered)
  with_agg-agg l stdin a = ground arith
  with_agg-agg l stdout a = ground arith
  with_agg-agg l resize a = ground arith

  same_dir-eq : (x y : Direction) → same_dir x y ≡ true → x ≡ y
  same_dir-eq stdin stdin e = refl
  same_dir-eq stdout stdout e = refl
  same_dir-eq resize resize e = refl
  same_dir-eq _ _ e = cc

  pub receive-held :
      (max : ℕ) (l : Log) (dir : Direction) (bytes : List ℕ)
      → held (receive b max l dir bytes) ≡ held l ++ when (same_dir d dir) bytes
  unfolding held receive
  receive-held max l dir bytes =
      let buf : List ℕ = (agg l dir).buf ++ bytes in
      let (l', rest) = drain b (length buf) max l dir buf in
      let a : Aggregator = record { buf = rest; armed = not (is_nil rest) } in
      let (w, rows, _) = with_agg-agg l' dir a in
      let kept = drain-persisted (length buf) max l dir buf in
      let others = (drain-agg (length buf) max l dir d buf).0 in
      elim (Bool-cases (same_dir d dir)) [
        | inl e ↦ rw rows (
            rw w (
              rw e (
                (rw e at kept)
                ∙ sym (append_assoc (persisted decode d l.rows) (agg l dir).buf bytes)
                ∙ ap (λ (x : Direction). (persisted decode d l.rows ++ (agg l x).buf) ++ bytes)
                    (sym (same_dir-eq d dir e)))))
        | inr e ↦ rw rows (
            rw w (
              rw e (
                ap (λ (x : Aggregator). persisted decode d l'.rows ++ x.buf) others
                ∙ ap (λ (xs : List ℕ). xs ++ (agg l d).buf)
                    (sym (append-nil _) ∙ (rw e at kept) ∙ append-nil _)
                ∙ sym (append-nil _))))
      ]

  pub flush_rest-held :
      (l : Log) (dir : Direction) (buf : List ℕ)
      → (persisted decode d (flush_rest b l dir buf).rows
          ≡ persisted decode d l.rows ++ when (same_dir d dir) buf)
        × (agg (flush_rest b l dir buf) d ≡ agg l d)
        × ((flush_rest b l dir buf).registered ≡ l.registered)
  unfolding flush_rest
  flush_rest-held l dir [] = (sym (nothing (same_dir d dir)), refl, refl)
    where
      nothing : (c : Bool) → persisted decode d l.rows ++ when c [] ≡ persisted decode d l.rows
      nothing true = append-nil _
      nothing false = append-nil _
  flush_rest-held l dir (x ∷ xs) =
      let (p, q) = flush-agg l dir d (x ∷ xs) in (flush-persisted l dir (x ∷ xs), p, q)

  -- An aggregator that stops hands over what it held, and keeps nothing.
  pub stop-held : (l : Log) (dir : Direction) → held (stop b l dir) ≡ held l
  unfolding held stop
  stop-held l dir =
      let l' = flush_rest b l dir (agg l dir).buf in
      let (kept, others, _) = flush_rest-held l dir (agg l dir).buf in
      let (w, rows, _) = with_agg-agg l' dir idle in
      elim (Bool-cases (same_dir d dir)) [
        | inl e ↦ rw rows (
            rw w (
              rw e (
                append-nil _
                ∙ (rw e at kept)
                ∙ ap (λ (x : Direction). persisted decode d l.rows ++ (agg l x).buf)
                    (sym (same_dir-eq d dir e)))))
        | inr e ↦ rw rows (
            rw w (
              rw e (
                ap (λ (x : Aggregator). persisted decode d l'.rows ++ x.buf) others
                ∙ ap (λ (xs : List ℕ). xs ++ (agg l d).buf) ((rw e at kept) ∙ append-nil _))))
      ]
