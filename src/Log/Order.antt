-- ===== src/Log/Order.antt =====
-- Lists of rows by their numbers (store.go).
use shell_sync.Base.{ℕ, ◌≤◌, ◌<◌, List, [], ◌∷◌, ◌++◌, arith, All}
use shell_sync.Log.{Row, max_seq}

-- Every row is numbered above the rows before it.
unfoldable pub Ascending : List Row → Type 0
Ascending [] = Unit {0}
Ascending (r ∷ rs) = All (λ (s : Row). r.seq < s.seq) rs × Ascending rs

abbrev pub Upto : ℕ → List Row → Type 0
Upto n rs = All (λ (s : Row). s.seq ≤ n) rs

pub Upto-weaken : (rs : List Row) (n m : ℕ) → n ≤ m → Upto n rs → Upto m rs
Upto-weaken [] n m le h = h
Upto-weaken (r ∷ rs) n m le h = (omega (arith, le, h.0), Upto-weaken rs n m le h.1)

pub Upto-snoc : (rs : List Row) (r : Row) (n : ℕ) → r.seq ≤ n → Upto n rs → Upto n (rs ++ r ∷ [])
Upto-snoc [] r n le h = (le, h)
Upto-snoc (x ∷ rs) r n le h = (h.0, Upto-snoc rs r n le h.1)

above-snoc :
    (rs : List Row) (r : Row) (n : ℕ)
    → n < r.seq
    → All (λ (s : Row). n < s.seq) rs
    → All (λ (s : Row). n < s.seq) (rs ++ r ∷ [])
above-snoc [] r n lt h = (lt, h)
above-snoc (x ∷ rs) r n lt h = (h.0, above-snoc rs r n lt h.1)

pub Ascending-snoc :
    (rs : List Row) (r : Row) (n : ℕ)
    → n < r.seq
    → Upto n rs
    → Ascending rs
    → Ascending (rs ++ r ∷ [])
unfolding Ascending
Ascending-snoc [] r n lt h asc = (tt, tt)
Ascending-snoc (x ∷ rs) r n lt h asc =
    (above-snoc rs r x.seq (omega (arith, lt, h.0)) asc.0, Ascending-snoc rs r n lt h.1 asc.1)

max_seq-bounds :
    (r : Row) (rs : List Row) → (r.seq ≤ max_seq (r ∷ rs)) × (max_seq rs ≤ max_seq (r ∷ rs))
unfolding max_seq
max_seq-bounds r rs = (ground arith, ground arith)

pub max_seq-Upto : (rs : List Row) → Upto (max_seq rs) rs
max_seq-Upto [] = tt
max_seq-Upto (r ∷ rs) =
    let (own, rest) = max_seq-bounds r rs in
    (own, Upto-weaken rs (max_seq rs) (max_seq (r ∷ rs)) rest (max_seq-Upto rs))
