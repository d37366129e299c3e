-- ===== src/Log.antt =====
-- daemon/internal/logstore: the log of one terminal. store.go (the Manager's share of the terminal and
-- flushChunk), aggregator.go (one Aggregator for each direction) and the table of the terminal's rows.
-- The query for the highest number and the coding of a grid are taken to succeed. Base64, the JSON of a
-- grid, the clock and whether the database takes a row are parameters. A size that Go holds as a negative
-- number is 0 here, which every test treats alike.
pub mod Flushing
pub mod Conserve
pub mod Delivery
pub mod Growth
pub mod Strokes
pub mod Order
pub mod Sequence
mod Tests
use shell_sync.Base.{
  ℕ, zero, suc, ◌+◌, ◌*◌, Bool, true, false, ◌&&◌, ◌||◌, not, String, Option, none, some, List, [],
  ◌∷◌, ◌++◌, length, take, drop, ltb, leb, nat_eqb, if◌then◌else◌,
}

pub data Direction : Type 0 where
  stdin stdout resize : Direction

pub record Row : Type 0 where
  pub seq : ℕ
  pub direction : Direction
  pub content_b64 : String
  pub created_at : ℕ

-- Timer and buffer of an aggregator.
pub record Aggregator : Type 0 where
  pub buf : List ℕ
  pub armed : Bool

-- states[id], pendingResizes[id], the rows of the terminal, and what OnFlush was called with.
pub record Log : Type 0 where
  pub registered : Bool
  pub seq : ℕ
  pub input : Aggregator
  pub output : Aggregator
  pub other : Aggregator
  pub pending : Option (ℕ × ℕ)
  pub rows : List Row
  pub flushed : List Row

abbrev pub idle : Aggregator
idle = record { buf = []; armed = false }

abbrev pub is_stdout : Direction → Bool
is_stdout stdout = true
is_stdout _ = false

-- COALESCE(MAX(seq), 0)
pub max_seq : List Row → ℕ
max_seq [] = 0
max_seq (r ∷ rs) = let m = max_seq rs in if ltb m r.seq then r.seq else m

pub register : Log → Log
register l = if l.registered then l else record l {
  registered = true;
  seq = max_seq l.rows;
  input = idle;
  output = idle;
  other = idle;
}

pub set_pending_resize : Log → ℕ → ℕ → Log
set_pending_resize l cols rows =
    if nat_eqb cols 0 || nat_eqb rows 0 then l else record l { pending = some (cols, rows) }

abbrev pub is_nil : List ℕ → Bool
is_nil [] = true
is_nil (x ∷ xs) = false

-- aggs[direction]
abbrev pub agg : Log → Direction → Aggregator
agg l stdin = l.input
agg l stdout = l.output
agg l resize = l.other

abbrev pub with_agg : Log → Direction → Aggregator → Log
with_agg l stdin a = record l { input = a }
with_agg l stdout a = record l { output = a }
with_agg l resize a = record l { other = a }

-- What the store does not implement itself.
pub record Backend : Type 0 where
  pub encode : List ℕ → String
  pub grid_json : ℕ → ℕ → List ℕ
  pub clock : ℕ → ℕ
  pub accepts : ℕ → Bool

module _ (b : Backend) where
  pub row_of : Direction → ℕ → List ℕ → Row
  row_of dir seq bytes = record {
    seq = seq;
    direction = dir;
    content_b64 = b.encode bytes;
    created_at = b.clock seq;
  }

  -- flushChunk: a row that the database refuses is logged and lost.
  pub flush_chunk : Log → Direction → ℕ → List ℕ → Log
  flush_chunk l dir seq bytes =
      if b.accepts seq
      then record l {
        rows = l.rows ++ row_of dir seq bytes ∷ [];
        flushed = l.flushed ++ row_of dir seq bytes ∷ [];
      }
      else l

  -- st.seq.Add(1), and the chunk under the new number.
  pub emit : Log → Direction → List ℕ → Log
  emit l dir bytes = flush_chunk (record l { seq = l.seq + 1 }) dir (l.seq + 1) bytes

  pub emit_marker : Option (ℕ × ℕ) → Log → Log
  emit_marker none l = l
  emit_marker (some (cols, rows)) l =
      emit (record l { pending = none }) resize (b.grid_json cols rows)

  -- Aggregator.flush
  pub flush : Log → Direction → List ℕ → Log
  flush l dir bytes = emit (if is_stdout dir then emit_marker l.pending l else l) dir bytes

  pub flush_resize_marker : Log → Log
  flush_resize_marker l = elim l.pending [
    | none ↦ l
    | some (cols, rows) ↦
        emit (register (record l { pending = none })) resize (b.grid_json cols rows)
  ]

  -- The loop of Aggregator.run that flushes whole slices, on fuel; it returns what stays buffered.
  pub drain : ℕ → ℕ → Log → Direction → List ℕ → Log × List ℕ
  drain zero max l dir buf = (l, buf)
  drain (suc fuel) max l dir buf =
      let rest = drain fuel max (flush l dir (take max buf)) dir (drop max buf) in
      if leb max (length buf) then rest else (l, buf)

  -- One `data := <-a.in` round. The fuel is the length of the buffer.
  pub receive : ℕ → Log → Direction → List ℕ → Log
  receive max l dir bytes =
      let buf = (agg l dir).buf ++ bytes in
      let (l', rest) = drain (length buf) max l dir buf in
      with_agg l' dir (record { buf = rest; armed = not (is_nil rest) })

  -- The closure `flush` of Aggregator.run.
  pub flush_rest : Log → Direction → List ℕ → Log
  flush_rest l dir [] = l
  flush_rest l dir (x ∷ xs) = flush l dir (x ∷ xs)

  -- One aggregator flushes what it holds and exits.
  pub stop : Log → Direction → Log
  stop l dir = with_agg (flush_rest l dir (agg l dir).buf) dir idle

  pub on_timer : Log → Direction → Log
  on_timer l dir = if (agg l dir).armed then stop l dir else l

  -- Append: empty data is ignored; the terminal is registered on demand.
  pub append : ℕ → Log → Direction → List ℕ → Log
  append max l dir [] = l
  append max l dir (x ∷ xs) = receive max (register l) dir (x ∷ xs)

  -- Close: every aggregator stops. Go visits them in any order; this is one.
  pub close_if : Bool → Log → Log
  close_if true l = record (stop (stop (stop l stdin) stdout) resize) { registered = false }
  close_if false l = l

  pub close : Log → Log
  close l = close_if l.registered l
