-- ===== src/Ws/Subscribe.antt =====
-- What a client that subscribes is sent, and what its resize requests do (conn.go).
use shell_sync.Base.{
  ℕ, suc, ◌≤◌, ◌≡◌, refl, ap, ◌∙◌, Bool, true, false, ◌&&◌, ◌||◌, not, String, some, List, [], ◌∷◌,
  ◌++◌, map, length, keep_if, if◌then◌else◌, ◌↔◌, ltb, nat_eqb, All, arith, Bool-cases, inl, inr,
}
use shell_sync.Log.{Row}
use shell_sync.Log.Order.{Ascending}
use shell_sync.Ws.{
  Message, history, output, subscribed, Session, Conn, replay, replay_history, shown, last_seq,
  release, size_event, subscribe_live, handle_resize,
}
use shell_sync.Ws.Pages.{from_seq, page_cases, default_limit-suc}
use shell_sync.Ws.Paging.{replay-last}

nothing_covered :
    (from : ℕ) (rs : List Row)
    → All (λ (r : Row). from ≤ r.seq) rs
    → keep_if (λ r. not (ltb r.seq from)) rs ≡ rs
nothing_covered from [] h = refl
nothing_covered from (r ∷ rs) (le, h) =
    rw (not_below from r.seq le) (ap (◌∷◌ r) (nothing_covered from rs h))
  where
    not_below : (a b : ℕ) → a ≤ b → not (ltb b a) ≡ true
    not_below a b le = ground arith

-- When the rows from the asked number on fit in one page, subscribing to a running terminal sends, after
-- the size, one history event with all of them that are shown, and then every chunk that was flushed during the
-- replay as live output, although the history may hold it already: of those numbered from the asked one on,
-- none is skipped. Assumed: no query fails and the rows ascend.
pub subscribe_resends :
    (fails : ℕ → Bool) (cn : Conn) (id : String) (s : Session) (rows buffered : List Row)
    (from k : ℕ)
    → ((n : ℕ) → fails n ≡ false)
    → Ascending rows
    → length (from_seq from rows) ≤ suc k
    → All (λ (r : Row). from ≤ r.seq) buffered
    → (subscribe_live fails cn id s rows buffered from (suc k)).sent
      ≡ cn.sent
        ++ (size_event id s
            ++ (history id from
                  (last_seq 0 (from_seq from rows))
                  false
                  (keep_if shown (from_seq from rows))
                ∷ [])
            ++ map (output id) buffered
            ++ subscribed id true ∷ [])
unfolding subscribe_live release
subscribe_resends fails cn id s rows buffered from k reads asc short late =
    ap
      (λ (p : List Message × ℕ).
        cn.sent
        ++ (size_event id s
            ++ p.0
            ++ map (output id) (keep_if (λ r. not (ltb r.seq p.1)) buffered)
            ++ subscribed id true ∷ []))
      one_page
    ∙ ap
        (λ (rs : List Row).
          cn.sent
          ++ (size_event id s
              ++ (history id from (last_seq 0 (from_seq from rows)) false
                    (keep_if shown (from_seq from rows))
                  ∷ [])
              ++ map (output id) rs
              ++ subscribed id true ∷ []))
        (nothing_covered from buffered late)
  where
    one_page : replay_history fails id rows from (suc k) ≡ (
      history id from (last_seq 0 (from_seq from rows)) false (keep_if shown (from_seq from rows))
          ∷ [],
      from,
    )
    one_page =
        ap (λ (n : ℕ). replay (suc (length rows)) fails id rows from n from) (default_limit-suc k)
        ∙ elim (page_cases rows from k) [
          | inl (page, _) ↦ replay-last fails reads id rows asc (length rows) from k from page
          | inr (_, more) ↦ absurd (omega (arith, short, more))
        ]

-- A resize request on a running terminal is broadcast exactly when it asks for at least ten columns and three
-- rows, its grid differs from the present one, and the terminal takes it. When it is broadcast, the terminal has
-- that grid; otherwise it keeps the one it had.
pub handle_resize_grid :
    (works : Bool) (cn : Conn) (s : Session) (cols rows : ℕ)
    → ((handle_resize works cn (some s) cols rows).2 ≡ true ↔ (
        (10 ≤ cols)
        × (3 ≤ rows)
        × (nat_eqb s.cols cols && nat_eqb s.rows rows ≡ false)
        × (works ≡ true)))
      × ((handle_resize works cn (some s) cols rows).1 ≡ (
          if (handle_resize works cn (some s) cols rows).2
          then some (record s { cols = cols; rows = rows })
          else some s))
unfolding handle_resize
handle_resize_grid works cn s cols rows = elim (Bool-cases (ltb cols 10 || ltb rows 3)) [
  | inl e ↦ rw e (((λ h. cc), (λ h. absurd (small cols rows e h.0 h.1))), refl)
  | inr e ↦ elim (Bool-cases (nat_eqb s.cols cols && nat_eqb s.rows rows)) [
    | inl g ↦ rw e (rw g (((λ h. cc), (λ h. cc)), refl))
    | inr g ↦ elim (Bool-cases works) [
      | inl w ↦ rw e (
          rw g
            (rw w (((λ h. (wide cols rows e, tall cols rows e, refl, refl)), (λ h. refl)), refl)))
      | inr w ↦ rw e (rw g (rw w (((λ h. cc), (λ h. cc)), refl)))
    ]
  ]
]
  where
    small : (c r : ℕ) → ltb c 10 || ltb r 3 ≡ true → 10 ≤ c → 3 ≤ r → ⊥
    small c r e w t = ground arith

    wide : (c r : ℕ) → ltb c 10 || ltb r 3 ≡ false → 10 ≤ c
    wide c r e = ground arith

    tall : (c r : ℕ) → ltb c 10 || ltb r 3 ≡ false → 3 ≤ r
    tall c r e = ground arith
