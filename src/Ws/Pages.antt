-- ===== src/Ws/Pages.antt =====
-- One page of rows, and the rows after it (conn.go replayHistory, log_repo.go ReadRange).
use shell_sync.Base.{
  ℕ, zero, suc, ◌+◌, ◌≤◌, ◌<◌, ◌≡◌, refl, ap, Bool, true, false, ◌||◌, not, List, [], ◌∷◌, ◌++◌,
  length, take, drop, keep_if, length-take, ltb, ltb→lt, leb, leb→le, All, arith, Bool-cases, inl,
  inr, ◌⊎◌,
}
use shell_sync.Log.{Row}
use shell_sync.Log.Order.{Ascending}
use shell_sync.Ws.{Message, history, read_range, last_seq, default_limit}

-- The rows that the history events of a replay carry, in order.
unfoldable pub chunks : List Message → List Row
chunks [] = []
chunks (history id from to more rs ∷ ms) = rs ++ chunks ms
chunks (_ ∷ ms) = chunks ms

-- Whether the events of a replay stop at one that says that no more follows.
unfoldable pub finished : List Message → Bool
finished [] = false
finished (history id from to more rs ∷ []) = not more
finished (m ∷ ms) = finished ms

-- The rows numbered at least n.
unfoldable pub from_seq : ℕ → List Row → List Row
from_seq n rows = keep_if (λ r. leb n r.seq) rows

All-from_seq : (n : ℕ) (rs : List Row) → All (λ (r : Row). n < r.seq) rs → from_seq (n + 1) rs ≡ rs
unfolding from_seq
All-from_seq n [] h = refl
All-from_seq n (r ∷ rs) (lt, h) =
    rw (leb_of (n + 1) r.seq (omega (arith, lt))) (ap (◌∷◌ r) (All-from_seq n rs h))
  where
    leb_of : (a b : ℕ) → a ≤ b → leb a b ≡ true
    leb_of a b h = ground arith

from_seq-Above :
    (m n : ℕ) (rs : List Row)
    → All (λ (r : Row). m < r.seq) rs
    → All (λ (r : Row). m < r.seq) (from_seq n rs)
unfolding from_seq
from_seq-Above m n [] h = tt
from_seq-Above m n (r ∷ rs) (lt, h) = elim (Bool-cases (leb n r.seq)) [
  | inl e ↦ rw e (lt, from_seq-Above m n rs h)
  | inr e ↦ rw e (from_seq-Above m n rs h)
]

pub from_seq-Ascending : (n : ℕ) (rs : List Row) → Ascending rs → Ascending (from_seq n rs)
unfolding from_seq Ascending
from_seq-Ascending n [] h = tt
from_seq-Ascending n (r ∷ rs) (above, h) = elim (Bool-cases (leb n r.seq)) [
  | inl e ↦ rw e (from_seq-Above r.seq n rs above, from_seq-Ascending n rs h)
  | inr e ↦ rw e (from_seq-Ascending n rs h)
]

pub from_seq-from_seq :
    (m n : ℕ) (rs : List Row) → m ≤ n → from_seq n (from_seq m rs) ≡ from_seq n rs
unfolding from_seq
from_seq-from_seq m n [] h = refl
from_seq-from_seq m n (r ∷ rs) h = ground (arith, from_seq-from_seq m n rs h)

-- The rows after a page are those numbered above its last row.
pub after_page :
    (k d : ℕ) (r : Row) (rs : List Row)
    → Ascending (r ∷ rs)
    → (r.seq ≤ last_seq d (r ∷ take k rs))
      × (from_seq (last_seq d (r ∷ take k rs) + 1) (r ∷ rs) ≡ drop k rs)
unfolding from_seq Ascending
after_page zero d r rs (above, h) = (omega arith, rw (leb_no r.seq) (All-from_seq r.seq rs above))
  where
    leb_no : (a : ℕ) → leb (a + 1) a ≡ false
    leb_no a = ground arith
after_page (suc k) d r [] (above, h) = (omega arith, rw (leb_no r.seq) refl)
  where
    leb_no : (a : ℕ) → leb (a + 1) a ≡ false
    leb_no a = ground arith
after_page (suc k) d r (x ∷ rs) ((lt, above), h) =
    let (le, same) = after_page k r.seq x rs h in
    (
      omega (arith, lt, le),
      rw (leb_past (last_seq r.seq (x ∷ take k rs)) r.seq (omega (arith, lt, le))) same,
    )
  where
    leb_past : (a b : ℕ) → b < a → leb (a + 1) b ≡ false
    leb_past a b h = ground arith

pub from_seq-All : (n : ℕ) (rs : List Row) → All (λ (r : Row). n ≤ r.seq) (from_seq n rs)
unfolding from_seq
from_seq-All n [] = tt
from_seq-All n (r ∷ rs) = elim (Bool-cases (leb n r.seq)) [
  | inl e ↦ rw e (leb→le n r.seq e, from_seq-All n rs)
  | inr e ↦ rw e (from_seq-All n rs)
]

take-take : {A : Type 0} (k : ℕ) (xs : List A) → take k (take (suc k) xs) ≡ take k xs
take-take zero xs = refl
take-take (suc k) [] = refl
take-take (suc k) (x ∷ xs) = ap (◌∷◌ x) (take-take k xs)

take-all : {A : Type 0} (k : ℕ) (xs : List A) → length xs ≤ k → take k xs ≡ xs
take-all zero [] h = refl
take-all zero (x ∷ xs) h = absurd (omega (arith, h))
take-all (suc k) [] h = refl
take-all (suc k) (x ∷ xs) h = ap (◌∷◌ x) (take-all k xs (omega (arith, h)))

-- ReadRange returns all that is left, or a full page and the flag that there is more.
pub page_cases :
    (rows : List Row) (from k : ℕ)
    → ((read_range rows from (suc k) ≡ (from_seq from rows, false))
        × (length (from_seq from rows) ≤ suc k))
      ⊎ ((read_range rows from (suc k) ≡ (take (suc k) (from_seq from rows), true))
          × (suc k < length (from_seq from rows)))
unfolding read_range from_seq
page_cases rows from k =
    let sel : List Row = keep_if (λ r. leb from r.seq) rows in
    elim (Bool-cases (ltb (suc k) (length sel))) [
      | inl e ↦ inr (
        rw (default_of k) (
            rw (more_of sel e)
              (rw (plus_one (suc k)) (ap (λ (xs : List Row). (xs, true)) (take-take (suc k) sel)))),
        ltb→lt (suc k) (length sel) e,
      )
      | inr e ↦ inl (
        rw (default_of k) (
            rw (none_of sel e) (
              ap (λ (xs : List Row). (xs, false))
                (take-all (suc k + 1) sel (omega (arith, le_of sel e))))),
        le_of sel e,
      )
    ]
  where
    default_of : (k : ℕ) → default_limit (suc k) ≡ suc k
    default_of k = ground arith

    plus_one : (n : ℕ) → n + 1 ≡ suc n
    plus_one n = omega arith

    le_of : (xs : List Row) → ltb (suc k) (length xs) ≡ false → length xs ≤ suc k
    le_of xs e = ground arith

    more_of :
        (xs : List Row)
        → ltb (suc k) (length xs) ≡ true
        → ltb (suc k) (length (take (suc k + 1) xs)) ≡ true
    more_of xs e = ground (arith, length-take (suc k + 1) xs)

    none_of :
        (xs : List Row)
        → ltb (suc k) (length xs) ≡ false
        → ltb (suc k) (length (take (suc k + 1) xs)) ≡ false
    none_of xs e = ground (arith, length-take (suc k + 1) xs)

pub default_limit-suc : (k : ℕ) → default_limit (suc k) ≡ suc k
default_limit-suc k = ground arith

pub or_true : (b : Bool) → b || true ≡ true
or_true true = refl
or_true false = refl
