-- ===== src/Ws/Paging.antt =====
-- The pages of a replay, put together (conn.go replayHistory over log_repo.go ReadRange).
use shell_sync.Base.{
  ℕ, zero, suc, ◌+◌, ◌≤◌, ◌<◌, ◌≡◌, refl, sym, ap, subst, ◌∙◌, Bool, true, false, String, List, [],
  ◌∷◌, ◌++◌, length, take, drop, keep_if, keep_if-append, take-append-drop, length-drop,
  length-keep_if, leb, All, arith, inl, inr,
}
use mathlib.Core.List.{append-nil}
use shell_sync.Log.{Row}
use shell_sync.Log.Order.{Ascending}
use shell_sync.Ws.{
  Message, history, read_range, replay, replay_history, shown, last_seq, no_rows, page_event,
}
use shell_sync.Ws.Pages.{
  chunks, finished, from_seq, from_seq-Ascending, from_seq-from_seq, after_page, from_seq-All,
  page_cases, default_limit-suc, or_true,
}

one_page :
    (id : String) (from to : ℕ) (rs : List Row) → chunks (history id from to false rs ∷ []) ≡ rs
unfolding chunks
one_page id from to rs = append-nil rs

first_page :
    (id : String) (from to : ℕ) (more : Bool) (rs : List Row) (ms : List Message)
    → chunks (history id from to more rs ∷ ms) ≡ rs ++ chunks ms
unfolding chunks
first_page id from to more rs ms = refl

last_page :
    (id : String) (from to : ℕ) (rs : List Row) → finished (history id from to false rs ∷ []) ≡ true
unfolding finished
last_page id from to rs = refl

not_last :
    (id : String) (from to : ℕ) (more : Bool) (rs : List Row) (ms : List Message)
    → finished ms ≡ true
    → finished (history id from to more rs ∷ ms) ≡ true
unfolding finished
not_last id from to more rs [] h = absurd (clash h)
  where
    clash : false ≡ true → ⊥
    clash h = cc
not_last id from to more rs (m ∷ ms) h = h

module _ (fails : ℕ → Bool) (reads : (n : ℕ) → fails n ≡ false) (id : String) (rows : List Row)
    (asc : Ascending rows) where
  -- The last page: everything that is left, and what was covered before it.
  pub replay-last :
      (fuel from k covered : ℕ)
      → read_range rows from (suc k) ≡ (from_seq from rows, false)
      → replay (suc fuel) fails id rows from (suc k) covered ≡ (
        history id from (last_seq 0 (from_seq from rows)) false (keep_if shown (from_seq from rows))
            ∷ [],
        covered,
      )
  unfolding replay
  replay-last fuel from k covered page =
      rw (reads from) (rw page (rw (or_true (no_rows (from_seq from rows))) refl))

  replay-more :
      (fuel from k covered : ℕ) (sel : List Row)
      → from_seq from rows ≡ sel
      → read_range rows from (suc k) ≡ (take (suc k) sel, true)
      → suc k < length sel
      → (next : ℕ) × ((replay (suc fuel) fails id rows from (suc k) covered ≡ (
        page_event id from (take (suc k) sel, true)
            ∷ (replay fuel fails id rows next (suc k) next).0,
        (replay fuel fails id rows next (suc k) next).1,
      ))
          × (from_seq next rows ≡ drop (suc k) sel))
  unfolding replay
  replay-more fuel from k covered [] same page lt = absurd (omega (arith, lt))
  replay-more fuel from k covered (r ∷ rs) same page lt =
      let next : ℕ = last_seq 0 (r ∷ take k rs) + 1 in
      let (le, rest) =
        after_page k 0 r rs (subst Ascending same (from_seq-Ascending from rows asc)) in
      let low =
        (subst (λ xs. All (λ (x : Row). from ≤ x.seq) xs) same (from_seq-All from rows)).0 in
      (
        next,
        (
          rw (reads from) (rw page refl),
          sym (from_seq-from_seq from next rows (omega (arith, le, low)))
              ∙ ap (from_seq next) same
              ∙ rest,
        ),
      )

  replay-chunks :
      (fuel from k covered : ℕ)
      → length (from_seq from rows) < fuel
      → chunks (replay fuel fails id rows from (suc k) covered).0
        ≡ keep_if shown (from_seq from rows)
  replay-chunks zero from k covered lt = absurd (omega (arith, lt))
  replay-chunks (suc fuel) from k covered lt =
      let sel : List Row = from_seq from rows in
      elim (page_cases rows from k) [
        | inl (page, _) ↦
            ap (λ (p : List Message × ℕ). chunks p.0) (replay-last fuel from k covered page)
            ∙ one_page id from (last_seq 0 sel) (keep_if shown sel)
        | inr (page, more) ↦
            let (next, (same, rest)) = replay-more fuel from k covered sel refl page more in
            ap (λ (p : List Message × ℕ). chunks p.0) same
            ∙ first_page id from (last_seq 0 (take (suc k) sel)) true
                (keep_if shown (take (suc k) sel)) _
            ∙ ap (◌++◌ (keep_if shown (take (suc k) sel))) (
                replay-chunks fuel next k next (
                  omega (
                    arith,
                    lt,
                    more,
                    ap (λ (xs : List Row). length xs) rest,
                    length-drop (suc k) sel,
                  ))
                ∙ ap (keep_if shown) rest)
            ∙ sym (keep_if-append shown (take (suc k) sel) (drop (suc k) sel))
            ∙ ap (keep_if shown) (take-append-drop (suc k) sel)
      ]

  -- A replay with enough rounds stops at a page that says so: with no round left it would send nothing.
  replay-finished :
      (fuel from k covered : ℕ)
      → length (from_seq from rows) < fuel
      → finished (replay fuel fails id rows from (suc k) covered).0 ≡ true
  replay-finished zero from k covered lt = absurd (omega (arith, lt))
  replay-finished (suc fuel) from k covered lt =
      let sel : List Row = from_seq from rows in
      elim (page_cases rows from k) [
        | inl (page, _) ↦
            ap (λ (p : List Message × ℕ). finished p.0) (replay-last fuel from k covered page)
            ∙ last_page id from (last_seq 0 sel) (keep_if shown sel)
        | inr (page, more) ↦
            let (next, (same, rest)) = replay-more fuel from k covered sel refl page more in
            ap (λ (p : List Message × ℕ). finished p.0) same
            ∙ not_last id from (last_seq 0 (take (suc k) sel)) true
                (keep_if shown (take (suc k) sel)) (replay fuel fails id rows next (suc k) next).0
                (replay-finished fuel next k next (
                  omega (
                    arith,
                    lt,
                    more,
                    ap (λ (xs : List Row). length xs) rest,
                    length-drop (suc k) sel,
                  )))
      ]

  enough : (from : ℕ) → length (from_seq from rows) < suc (length rows)
  unfolding from_seq
  enough from = omega (arith, length-keep_if (λ (r : Row). leb from r.seq) rows)

  -- A client that replays from a number gets, in its history events put together, every output and
  -- resize row from that number on, once each and in ascending order, whatever the page size, and the last of
  -- these events says that no more follows, so the pages have ended within as many rounds as there are rows, and
  -- one. Assumed: no query fails and the rows ascend.
  pub replay_complete :
      (from limit : ℕ)
      → (chunks (replay_history fails id rows from limit).0 ≡ keep_if shown (from_seq from rows))
        × (finished (replay_history fails id rows from limit).0 ≡ true)
  replay_complete from zero = (
    replay-chunks (suc (length rows)) from 499 from (enough from),
    replay-finished (suc (length rows)) from 499 from (enough from),
  )
  replay_complete from (suc k) = (
    ap (λ (n : ℕ). chunks (replay (suc (length rows)) fails id rows from n from).0)
          (default_limit-suc k)
        ∙ replay-chunks (suc (length rows)) from k from (enough from),
    ap (λ (n : ℕ). finished (replay (suc (length rows)) fails id rows from n from).0)
          (default_limit-suc k)
        ∙ replay-finished (suc (length rows)) from k from (enough from),
  )
