-- ===== src/Relay/Limiter/Window.antt =====
-- What the limiter promises of a whole history of attempts.
use shell_sync.Base.{
  ℕ, ◌+◌, ◌-◌, ◌≤◌, ◌<◌, ◌≡◌, refl, sym, ap, subst, ◌∙◌, Bool, true, false, List, [], ◌∷◌, ◌++◌,
  length, length-append, keep_if, keep_if-append, All, All-append, ltb, leb, ltb→lt, ◌&&◌,
  if◌then◌else◌, arith, Bool-cases, inl, inr,
}
use shell_sync.Relay.Limiter.{Limiter, allow, recent, new_limiter, minute}

-- The attempts of one address, oldest first, and the times at which one was permitted, oldest first.
unfoldable pub run : Limiter → List ℕ → List ℕ → Limiter × List ℕ
run l [] permitted = (l, permitted)
run l (t ∷ ts) permitted =
    let (l', good) = allow l t in run l' ts (if good then permitted ++ t ∷ [] else permitted)

-- The times do not go back, and none is before t.
abbrev pub Ascending : ℕ → List ℕ → Type 0
Ascending t [] = Unit {0}
Ascending t (x ∷ xs) = (t ≤ x) × Ascending x xs

-- The attempt e lies in the window that ends at u.
abbrev pub within : ℕ → ℕ → ℕ → Bool
within window u e = leb e u && ltb (u - e) window

-- The limiter remembers every permitted attempt that can still count.
record Remembers (l : Limiter) (now : ℕ) (permitted : List ℕ) : Type 0 where
  black : l.window ≤ l.black_for
  past : All (λ e. e ≤ now) permitted
  complete :
      (t : ℕ) → now ≤ t → l.blacklist ≤ t → recent l.window t permitted ≡ recent l.window t l.events
  limited : (u : ℕ) → length (keep_if (within l.window u) permitted) ≤ l.max_events

past_mono : (s t : ℕ) (xs : List ℕ) → s ≤ t → All (λ e. e ≤ s) xs → All (λ e. e ≤ t) xs
past_mono s t [] h a = tt
past_mono s t (x ∷ xs) h a = (omega arith, past_mono s t xs h a.1)

recent-recent : (w s t : ℕ) (xs : List ℕ) → s ≤ t → recent w t (recent w s xs) ≡ recent w t xs
unfolding recent
recent-recent w s t [] h = refl
recent-recent w s t (x ∷ xs) h = ground (arith, recent-recent w s t xs h)

recent-expired : (w s t : ℕ) (xs : List ℕ) → s + w ≤ t → All (λ e. e ≤ s) xs → recent w t xs ≡ []
unfolding recent
recent-expired w s t [] h a = refl
recent-expired w s t (x ∷ xs) h a = ground (arith, recent-expired w s t xs h a.1)

recent-append : (w t : ℕ) (xs ys : List ℕ) → recent w t (xs ++ ys) ≡ recent w t xs ++ recent w t ys
unfolding recent
recent-append w t xs ys = keep_if-append _ xs ys

-- A window that ends later holds no more of what is past.
within-recent :
    (w t u : ℕ) (xs : List ℕ) → t ≤ u → length (keep_if (within w u) xs) ≤ length (recent w t xs)
unfolding recent
within-recent w t u [] h = omega arith
within-recent w t u (x ∷ xs) h = ground (arith, within-recent w t u xs h)

within_earlier :
    (w t u : ℕ) (xs : List ℕ)
    → u < t
    → length (keep_if (within w u) (xs ++ t ∷ [])) ≡ length (keep_if (within w u) xs)
within_earlier w t u [] h = ground arith
within_earlier w t u (x ∷ xs) h = ground (arith, within_earlier w t u xs h)

recent_short : (w t : ℕ) (xs : List ℕ) → length (recent w t (t ∷ [])) ≤ 1
unfolding recent
recent_short w t xs = ground arith

refused_black :
    (l : Limiter) (now t : ℕ) (permitted : List ℕ)
    → now ≤ t
    → Remembers l now permitted
    → Remembers (record l { blacklist = t + l.black_for; events = [] }) t permitted
unfolding recent
refused_black l now t permitted h r = record {
  black = r.black;
  past = past_mono now t permitted h r.past;
  complete = λ u a b. recent-expired l.window now u permitted (omega (arith, r.black)) r.past;
  limited = r.limited;
}

accepted :
    (l : Limiter) (now t : ℕ) (permitted : List ℕ)
    → now ≤ t
    → l.blacklist ≤ t
    → length (recent l.window t l.events) < l.max_events
    → Remembers l now permitted
    → Remembers (record l { events = recent l.window t l.events ++ t ∷ [] }) t (permitted ++ t ∷ [])
accepted l now t permitted h b small r = record {
  black = r.black;
  past = All-append _ permitted (t ∷ []) (past_mono now t permitted h r.past) (omega arith);
  complete = λ u a c.
      recent-append l.window u permitted (t ∷ [])
      ∙ ap (λ (zs : List ℕ). zs ++ recent l.window u (t ∷ []))
          (r.complete u (omega arith) c ∙ sym (recent-recent l.window t u l.events a))
      ∙ sym (recent-append l.window u (recent l.window t l.events) (t ∷ []));
  limited = λ u. elim (Bool-cases (ltb u t)) [
    | inl e ↦ omega (arith, r.limited u, within_earlier l.window t u permitted (ltb→lt u t e))
    | inr e ↦ omega (
      arith,
      within-recent l.window t u (permitted ++ t ∷ []) (ground arith),
      ap length (recent-append l.window t permitted (t ∷ [])),
      ap length (r.complete t h b),
      length-append (recent l.window t permitted) (recent l.window t (t ∷ [])),
      recent_short l.window t [],
    )
  ];
}

allow-Remembers :
    (l : Limiter) (now t : ℕ) (permitted : List ℕ)
    → now ≤ t
    → Remembers l now permitted
    → Remembers (allow l t).0 t (if (allow l t).1 then permitted ++ t ∷ [] else permitted)
unfolding allow
allow-Remembers l now t permitted h r = elim (Bool-cases (ltb t l.blacklist)) [
  | inl e ↦ rw e (record {
    black = r.black;
    past = past_mono now t permitted h r.past;
    complete = λ u a b. r.complete u (omega arith) b;
    limited = r.limited;
  })
  | inr e ↦ elim (Bool-cases (leb l.max_events (length (recent l.window t l.events)))) [
    | inl full ↦ rw (e, full) (refused_black l now t permitted h r)
    | inr free ↦ rw (e, free) (accepted l now t permitted h (ground arith) (ground arith) r)
  ]
]

run-Remembers :
    (ts : List ℕ) (l : Limiter) (now : ℕ) (permitted : List ℕ)
    → Ascending now ts
    → Remembers l now permitted
    → (now' : ℕ) × Remembers (run l ts permitted).0 now' (run l ts permitted).1
unfolding run
run-Remembers [] l now permitted asc r = (now, r)
run-Remembers (t ∷ ts) l now permitted asc r =
    run-Remembers ts (allow l t).0 t _ asc.1 (allow-Remembers l now t permitted asc.0 r)

allow-config :
    (l : Limiter) (t : ℕ)
    → ((allow l t).0.window ≡ l.window) × ((allow l t).0.max_events ≡ l.max_events)
unfolding allow
allow-config l t = ground arith

run-config :
    (ts : List ℕ) (l : Limiter) (permitted : List ℕ)
    → ((run l ts permitted).0.window ≡ l.window)
      × ((run l ts permitted).0.max_events ≡ l.max_events)
unfolding run
run-config [] l permitted = (refl, refl)
run-config (t ∷ ts) l permitted =
    let (a, b) = allow-config l t in
    let (c, d) =
      run-config ts (allow l t).0 (if (allow l t).1 then permitted ++ t ∷ [] else permitted) in
    (c ∙ a, d ∙ b)

new-Remembers : Remembers new_limiter 0 []
unfolding new_limiter recent
new-Remembers = record {
  black = omega arith;
  past = tt;
  complete = λ t a b. refl;
  limited = λ u. omega arith;
}

-- In whatever order an address tries over time, no window of one minute, wherever it ends, holds more
-- than five attempts that the limiter permitted. The times of the attempts do not go back.
pub run-limited :
    (ts : List ℕ) (u : ℕ)
    → Ascending 0 ts
    → length (keep_if (within minute u) (run new_limiter ts []).1) ≤ 5
unfolding new_limiter
run-limited ts u asc =
    let (now, r) = run-Remembers ts new_limiter 0 [] asc new-Remembers in
    let (w, m) = run-config ts new_limiter [] in limited_by _ _ w m (r.limited u)
  where
    permitted : List ℕ
    permitted = (run new_limiter ts []).1

    limited_by :
        (k n : ℕ)
        → k ≡ new_limiter.window
        → n ≡ new_limiter.max_events
        → length (keep_if (within k u) permitted) ≤ n
        → length (keep_if (within minute u) permitted) ≤ 5
    limited_by k n ek en h =
        subst (λ k. length (keep_if (within k u) permitted) ≤ 5) ek
          (subst (λ n. length (keep_if (within k u) permitted) ≤ n) en h)

-- An attempt in the window of max_events others is refused and starts the blacklist: every attempt of
-- the next black_for nanoseconds is refused and changes nothing, and the first one after that, with
-- room for an event, is permitted.
pub allow_blacklists :
    (l : Limiter) (t u v : ℕ)
    → l.blacklist ≤ t
    → l.max_events ≤ length (recent l.window t l.events)
    → 0 < l.max_events
    → u < t + l.black_for
    → t + l.black_for ≤ v
    → let l' = (allow l t).0 in
      ((allow l t).1 ≡ false) × (allow l' u ≡ (l', false)) × ((allow l' v).1 ≡ true)
unfolding allow recent
allow_blacklists l t u v b full room early late = (ground arith, ground arith, ground arith)
