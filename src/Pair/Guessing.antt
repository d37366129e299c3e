-- ===== src/Pair/Guessing.antt =====
-- How fast codes can be guessed (pair.go checkCode and the lockout policy above it).
use shell_sync.Base.{
  string_key, ℕ, suc, ◌+◌, ◌-◌, ◌*◌, ◌≤◌, ◌<◌, ◌≡◌, refl, ap, true, false, String, Option, none,
  some, List, [], ◌∷◌, ltb, ltb→lt, leb, ◌⊎◌, arith, Bool-cases, inl, inr,
}
use shell_sync.Base.Dict.{lookup, delete}
use shell_sync.Pair.{
  PairService, Outcome, paired, pairing_locked, invalid_pairing, wrong_code, consume, check_code,
  lock_duration,
}

-- The outcomes of attempts, each at its time.
unfoldable pub attempts : PairService → List (ℕ × String) → List Outcome
attempts s [] = []
attempts s ((now, code) ∷ rest) = let (s', o) = check_code s now code in o ∷ attempts s' rest

-- How many attempts looked at the codes and refused.
unfoldable pub wrong : List Outcome → ℕ
wrong [] = 0
wrong (invalid_pairing ∷ os) = suc (wrong os)
wrong (paired ∷ os) = wrong os
wrong (pairing_locked ∷ os) = wrong os

-- No attempt succeeded.
unfoldable pub NonePaired : List Outcome → Type 0
NonePaired [] = Unit {0}
NonePaired (o ∷ os) = ¬ (o ≡ paired) × NonePaired os

-- The times do not go back and stay between two bounds.
unfoldable pub Between : ℕ → ℕ → List (ℕ × String) → Type 0
Between low high [] = low ≤ high
Between low high ((now, code) ∷ rest) = (low ≤ now) × Between now high rest

low_high : (low high : ℕ) (xs : List (ℕ × String)) → Between low high xs → low ≤ high
unfolding Between
low_high low high [] h = h
low_high low high ((now, code) ∷ xs) (le, h) = omega (arith, le, low_high now high xs h)

-- Until the lock ends no code is looked at.
all_locked :
    (s : PairService) (low high : ℕ) (xs : List (ℕ × String))
    → high < s.locked_until
    → Between low high xs
    → wrong (attempts s xs) ≡ 0
unfolding attempts wrong Between check_code
all_locked s low high [] lt h = refl
all_locked s low high ((now, code) ∷ xs) lt (le, h) =
    let early : ltb now s.locked_until ≡ true =
      early_lem now s.locked_until high lt (low_high now high xs h) in
    rw early (all_locked s now high xs lt h)
  where
    early_lem : (n u t : ℕ) → t < u → n ≤ t → ltb n u ≡ true
    early_lem n u t a b = ground arith

-- An attempt either meets the lock, or pairs, or fails in one of two ways.
data Step (s : PairService) (now : ℕ) : PairService × Outcome → Type 0 where
  meets_lock : now < s.locked_until → Step s now (s, pairing_locked)
  pairs : (s' : PairService) → Step s now (s', paired)
  counts :
      (s' : PairService)
      → s.locked_until ≤ now
      → s.fail_count + 1 < 3
      → s'.fail_count ≡ s.fail_count + 1
      → s'.locked_until ≡ s.locked_until
      → Step s now (s', invalid_pairing)
  locks :
      (s' : PairService)
      → s.locked_until ≤ now
      → 3 ≤ s.fail_count + 1
      → s'.fail_count ≡ 0
      → s'.locked_until ≡ now + lock_duration
      → Step s now (s', invalid_pairing)

ltb-ge : (n m : ℕ) → ltb n m ≡ false → m ≤ n
ltb-ge n m e = ground arith

leb-lt : (n m : ℕ) → leb n m ≡ false → m < n
leb-lt n m e = ground arith

wrong_code-Step :
    (s t : PairService) (now : ℕ)
    → s.locked_until ≤ now
    → t.fail_count ≡ s.fail_count
    → t.locked_until ≡ s.locked_until
    → Step s now (wrong_code t now, invalid_pairing)
unfolding wrong_code
wrong_code-Step s t now le f u = elim (Bool-cases (leb 3 (t.fail_count + 1))) [
  | inl e ↦ rw e (locks _ le (third s t f e) refl refl)
  | inr e ↦
      rw e
        (counts _ le (omega (arith, leb-lt 3 (t.fail_count + 1) e, f)) (ap (λ (n : ℕ). n + 1) f) u)
]
  where
    third :
        (s t : PairService)
        → t.fail_count ≡ s.fail_count
        → leb 3 (t.fail_count + 1) ≡ true
        → 3 ≤ s.fail_count + 1
    third s t f e = ground arith

consume-Step :
    (s : PairService) (now : ℕ) (code : String) (o : Option ℕ)
    → s.locked_until ≤ now
    → Step s now (consume s now code o)
unfolding consume
consume-Step s now code none le = wrong_code-Step s s now le refl refl
consume-Step s now code (some expires) le = elim (Bool-cases (ltb expires now)) [
  | inl e ↦ rw e (wrong_code-Step s (record s { codes = delete code s.codes }) now le refl refl)
  | inr e ↦ rw e (pairs _)
]

check_code-Step : (s : PairService) (now : ℕ) (code : String) → Step s now (check_code s now code)
unfolding check_code
check_code-Step s now code = elim (Bool-cases (ltb now s.locked_until)) [
  | inl e ↦ rw e (meets_lock (lt_of now s.locked_until e))
  | inr e ↦ rw e (consume-Step s now code (lookup code s.codes) (ltb-ge now s.locked_until e))
]
  where
    lt_of : (n m : ℕ) → ltb n m ≡ true → n < m
    lt_of n m e = ground arith

-- From a time m on that is past, or at which the lock still holds: what the counter still allows, and three
-- more for each lock that fits in.
abbrev Budget : PairService → ℕ → ℕ → ℕ → Type 0
Budget s low high n =
    (m : ℕ)
    → m ≤ high
    → (m ≤ low) ⊎ (m ≤ s.locked_until)
    → lock_duration * n + 3 * m ≤ 3 * high + lock_duration * (3 - s.fail_count)

past_lock : (m low now u : ℕ) → low ≤ now → u ≤ now → (m ≤ low) ⊎ (m ≤ u) → m ≤ now
past_lock m low now u a b (inl h) = omega (arith, a, h)
past_lock m low now u a b (inr h) = omega (arith, b, h)

later : (m low now u : ℕ) → low ≤ now → (m ≤ low) ⊎ (m ≤ u) → (m ≤ now) ⊎ (m ≤ u)
later m low now u a (inl h) = inl (omega (arith, a, h))
later m low now u a (inr h) = inr h

le-or-lt : (a b : ℕ) → (a ≤ b) ⊎ (b < a)
le-or-lt a b = elim (Bool-cases (ltb b a)) [
  | inl e ↦ inr (ltb→lt b a e)
  | inr e ↦ inl (ltb-ge b a e)
]

-- One attempt, with the budget of the attempts after it.
Budget-Step :
    (s : PairService) (low high now : ℕ) (xs : List (ℕ × String))
    → ((t : PairService)
        → t.fail_count < 3
        → NonePaired (attempts t xs)
        → Budget t now high (wrong (attempts t xs)))
    → s.fail_count < 3
    → low ≤ now
    → Between now high xs
    → (r : PairService × Outcome) → Step s now r
    → ¬ (r.1 ≡ paired) × NonePaired (attempts r.0 xs)
    → Budget s low high (wrong (r.1 ∷ attempts r.0 xs))
unfolding wrong
Budget-Step s low high now xs rest f le h _ (meets_lock lt) (_, np) =
    λ m. λ mh. λ w. rest s f np m mh (later m low now s.locked_until le w)
Budget-Step s low high now xs rest f le h _ (pairs s') (unpaired, np) = absurd (unpaired refl)
Budget-Step s low high now xs rest f le h _ (counts s' u lt fc lu) (_, np) = λ m. λ mh. λ w.
    let more =
      rest s' (omega (arith, lt, fc)) np m mh (inl (past_lock m low now s.locked_until le u w)) in
    omega (arith, more, fc, lt)
Budget-Step s low high now xs rest f le h _ (locks s' u ge fc lu) (_, np) = λ m. λ mh. λ w.
    let mn = past_lock m low now s.locked_until le u w in
    let nh = low_high now high xs h in
    elim (le-or-lt s'.locked_until high) [
      | inl fits ↦
          let more = rest s' (omega (arith, fc)) np s'.locked_until fits (inr (omega arith)) in
          omega (arith, more, fc, lu, ge, f, mn)
      | inr over ↦
          let none_left = all_locked s' now high xs over h in
          omega (arith, none_left, ge, f, mn, nh)
    ]

budget :
    (s : PairService) (low high : ℕ) (xs : List (ℕ × String))
    → s.fail_count < 3
    → Between low high xs
    → NonePaired (attempts s xs)
    → Budget s low high (wrong (attempts s xs))
unfolding attempts wrong NonePaired Between
budget s low high [] f h np = λ m. λ le. λ w. omega (arith, le, f)
budget s low high ((now, code) ∷ xs) f (le, h) np =
    Budget-Step s low high now xs (λ t. λ ft. λ nt. budget t now high xs ft h nt) f le h
      (check_code s now code) (check_code-Step s now code) np

-- Take any state whose failure counter is below three, and any attempts, none of which pairs, at times that
-- do not go back and lie between low and high. Then the number of wrong codes that are looked at is at
-- most three, and three more for each lock duration (five minutes) between low and high, in proportion; the
-- other attempts meet the lock.
pub guesses_bounded :
    (s : PairService) (low high : ℕ) (xs : List (ℕ × String))
    → s.fail_count < 3
    → Between low high xs
    → NonePaired (attempts s xs)
    → lock_duration * wrong (attempts s xs) ≤ 3 * (high - low) + 3 * lock_duration
guesses_bounded s low high xs f h np =
    let b = budget s low high xs f h np low (low_high low high xs h) (inl (omega arith)) in
    omega (arith, b, low_high low high xs h)
