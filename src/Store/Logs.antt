-- ===== src/Store/Logs.antt =====
-- daemon/internal/repository/log_repo.go: the chunks of the terminals' logs.
use shell_sync.Base.{
  string_key, ℕ, Bool, true, false, ◌||◌, not, String, Option, none, some, List, [], ◌∷◌, ◌++◌,
  length, drop, ◌-◌, keep_if, ltb, leb, nat_eqb, if◌then◌else◌,
}
use shell_sync.Base.Order.{sort_by}
use shell_sync.Base.Dict.{lookup, insert}
use shell_sync.Log.{Row}
use shell_sync.Store.{Database, Done, ok, failed, constraint, has_key}

-- The rows of one terminal; it has none until the first is written.
abbrev pub chunks_of : Option (List Row) → List Row
chunks_of none = []
chunks_of (some rs) = rs

pub chunks : Database → String → List Row
chunks db id = chunks_of (lookup id db.logs)

-- UNIQUE (terminal_id, seq)
abbrev pub seq_used : ℕ → List Row → Bool
seq_used seq rs = elim (keep_if (λ r. nat_eqb r.seq seq) rs) [ [] ↦ false | r ∷ others ↦ true ]

unfoldable pub append_chunk : Database → String → Row → Database × Done
append_chunk db id r =
    let old = chunks_of (lookup id db.logs) in
    if not (has_key id db.terminals) || seq_used r.seq old
    then (db, failed constraint)
    else (record db { logs = insert id (old ++ r ∷ []) db.logs }, ok tt)

abbrev by_seq : Row → Row → Bool
by_seq a b = leb a.seq b.seq

abbrev or_limit : ℕ → ℕ
or_limit n = if nat_eqb n 0 then 500 else n

-- The newest chunks, oldest first.
unfoldable pub tail : Database → String → ℕ → List Row
unfolding chunks
tail db id limit = let rs = sort_by by_seq (chunks db id) in drop (length rs - or_limit limit) rs

unfoldable pub list_before : Database → String → ℕ → List Row
list_before db id cutoff =
    sort_by by_seq (keep_if (λ r. ltb r.created_at cutoff) (chunks_of (lookup id db.logs)))

-- The rows that a DELETE on one terminal leaves, and how many it removes.
abbrev pub delete_rows : (Row → Bool) → Option (List Row) → Database → String → Database × ℕ
delete_rows gone none db id = (db, 0)
delete_rows gone (some rs) db id = (
  record db { logs = insert id (keep_if (λ r. not (gone r)) rs) db.logs },
  length (keep_if gone rs),
)

unfoldable pub delete_before : Database → String → ℕ → Database × ℕ
delete_before db id cutoff = delete_rows (λ r. ltb r.created_at cutoff) (lookup id db.logs) db id

unfoldable pub delete_by_terminal : Database → String → Database × ℕ
delete_by_terminal db id = delete_rows (λ r. true) (lookup id db.logs) db id
