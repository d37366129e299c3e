-- ===== src/Store/Rows.antt =====
-- Statements on one table, as changes to the list of its rows.
use shell_sync.Base.{
  string_key, suc, ◌≤◌, ◌≡◌, refl, sym, ap, subst, ◌∙◌, Bool, true, false, String, none, some, List,
  [], ◌∷◌, ◌++◌, length, keep_if, if◌then◌else◌, ◌==◌, All, arith, Bool-cases, inl, inr,
}
use shell_sync.Base.Dict.{Dict, lookup, insert, delete}
use shell_sync.Store.{rows_of, select, update_where}

module _ {R : Type 0} where
  pub rows_of-insert :
      (k : String) (v : R) (t : Dict String R)
      → lookup k t ≡ none
      → rows_of (insert k v t) ≡ rows_of t ++ v ∷ []
  unfolding lookup insert
  rows_of-insert k v [] h = refl
  rows_of-insert k v ((j, w) ∷ t) h = elim (Bool-cases (j == k)) [
    | inl e ↦ clash (rw e at h)
    | inr e ↦ rw e (ap (◌∷◌ w) (rows_of-insert k v t (rw e at h)))
  ]
    where
      clash : {P : Type 0} → some w ≡ none → P
      clash h = cc

  pub All-insert {κ} :
      (P : R → Type κ) (k : String) (v : R) (t : Dict String R)
      → P v
      → All P (rows_of t)
      → All P (rows_of (insert k v t))
  unfolding insert
  All-insert P k v [] p a = (p, tt)
  All-insert P k v ((j, w) ∷ t) p (q, a) = elim (Bool-cases (j == k)) [
    | inl e ↦ rw e (p, a)
    | inr e ↦ rw e (q, All-insert P k v t p a)
  ]

  pub All-delete {κ} :
      (P : R → Type κ) (k : String) (t : Dict String R)
      → All P (rows_of t)
      → All P (rows_of (delete k t))
  unfolding delete
  All-delete P k [] a = tt
  All-delete P k ((j, w) ∷ t) (q, a) = elim (Bool-cases (j == k)) [
    | inl e ↦ rw e (All-delete P k t a)
    | inr e ↦ rw e (q, All-delete P k t a)
  ]

  pub All-lookup {κ} :
      (P : R → Type κ) (k : String) (r : R) (t : Dict String R)
      → lookup k t ≡ some r
      → All P (rows_of t)
      → P r
  unfolding lookup
  All-lookup P k r [] h a = absurd (clash h)
    where
      clash : none ≡ some r → ⊥
      clash h = cc
  All-lookup P k r ((j, w) ∷ t) h (q, a) = elim (Bool-cases (j == k)) [
    | inl e ↦ subst P (unwrap (rw e at h)) q
    | inr e ↦ All-lookup P k r t (rw e at h) a
  ]
    where
      unwrap : some w ≡ some r → w ≡ r
      unwrap h = cc

  -- A row that stays within the test, or without it, leaves their number as it was.
  pub length-select_replaced :
      (test : R → Bool) (k : String) (v d : R) (t : Dict String R)
      → lookup k t ≡ some d
      → test v ≡ test d
      → length (select test (insert k v t)) ≡ length (select test t)
  unfolding lookup insert
  length-select_replaced test k v d [] h same = cc
  length-select_replaced test k v d ((j, w) ∷ t) h same = elim (Bool-cases (j == k)) [
    | inl e ↦ rw e (counted (unwrap (rw e at h)))
    | inr e ↦ rw e (under (test w) (length-select_replaced test k v d t (rw e at h) same))
  ]
    where
      unwrap : some w ≡ some d → w ≡ d
      unwrap h = cc

      counted :
          w ≡ d
          → length (if test v then v ∷ select test t else select test t)
            ≡ length (if test w then w ∷ select test t else select test t)
      counted e = rw (same ∙ sym (ap test e)) (both (test w))
        where
          both :
              (b : Bool)
              → length (if b then v ∷ select test t else select test t)
                ≡ length (if b then w ∷ select test t else select test t)
          both true = refl
          both false = refl

      under :
          (b : Bool)
          → length (select test (insert k v t)) ≡ length (select test t)
          → length (if b then w ∷ select test (insert k v t) else select test (insert k v t))
            ≡ length (if b then w ∷ select test t else select test t)
      under true e = ap suc e
      under false e = e

  pub length-select-delete :
      (test : R → Bool) (k : String) (t : Dict String R)
      → length (select test (delete k t)) ≤ length (select test t)
  unfolding delete
  length-select-delete test k [] = omega arith
  length-select-delete test k ((j, w) ∷ t) = ground (arith, length-select-delete test k t)

  none_left :
      (test : R → Bool) (rs : List R) → length (keep_if test rs) ≡ 0 → All (λ r. test r ≡ false) rs
  none_left test [] h = tt
  none_left test (r ∷ rs) h = elim (Bool-cases (test r)) [
    | inl e ↦ absurd (omega (arith, (rw e at h)))
    | inr e ↦ (e, none_left test rs (rw e at h))
  ]

  pub All-weaken {κ μ} :
      (P : R → Type κ) (Q : R → Type μ)
      → ((r : R) → P r → Q r)
      → (rs : List R) → All P rs
      → All Q rs
  All-weaken P Q f [] a = tt
  All-weaken P Q f (r ∷ rs) (p, a) = (f r p, All-weaken P Q f rs a)

  has_row :
      (test : R → Bool) (k : String) (d : R) (t : Dict String R)
      → lookup k t ≡ some d
      → test d ≡ true
      → 1 ≤ length (select test t)
  unfolding lookup
  has_row test k d [] h p = cc
  has_row test k d ((j, w) ∷ t) h p = elim (Bool-cases (j == k)) [
    | inl e ↦ rw (ap test (unwrap (rw e at h)) ∙ p) (omega arith)
    | inr e ↦ elim (Bool-cases (test w)) [
      | inl q ↦ rw q (omega arith)
      | inr q ↦ rw q (has_row test k d t (rw e at h) p)
    ]
  ]
    where
      unwrap : some w ≡ some d → w ≡ d
      unwrap h = cc

  -- When a test picks out one row at most, replacing that row settles what holds of the rows it picks.
  pub All-insert_unique {κ} :
      (test : R → Bool) (Q : R → Type κ) (k : String) (v d : R) (t : Dict String R)
      → lookup k t ≡ some d
      → test d ≡ true
      → length (select test t) ≤ 1
      → Q v
      → All (λ r. test r ≡ true → Q r) (rows_of (insert k v t))
  unfolding lookup insert
  All-insert_unique test Q k v d [] h p le q = absurd (clash h)
    where
      clash : none ≡ some d → ⊥
      clash h = cc
  All-insert_unique test Q k v d ((j, w) ∷ t) h p le q = elim (Bool-cases (j == k)) [
    | inl e ↦ rw e (λ _. q, outside (rest0 (unwrap (rw e at h)) le))
    | inr e ↦
        let found = has_row test k d t (rw e at h) p in
        elim (Bool-cases (test w)) [
          | inl y ↦ absurd (omega (arith, found, (rw y at le)))
          | inr y ↦ rw e (
            (λ (z : test w ≡ true). absurd (clash_bool (test w) z y)),
            All-insert_unique test Q k v d t (rw e at h) p (rw y at le) q,
          )
        ]
  ]
    where
      unwrap : some w ≡ some d → w ≡ d
      unwrap h = cc

      clash_bool : (b : Bool) → b ≡ true → b ≡ false → ⊥
      clash_bool true h g = cc
      clash_bool false h g = cc

      rest0 :
          w ≡ d
          → length (if test w then w ∷ select test t else select test t) ≤ 1
          → length (select test t) ≡ 0
      rest0 e le = omega (arith, (rw (ap test e ∙ p) at le))

      outside : length (select test t) ≡ 0 → All (λ r. test r ≡ true → Q r) (rows_of t)
      outside z =
          All-weaken (λ r. test r ≡ false) (λ r. test r ≡ true → Q r)
            (λ r n y. absurd (clash_bool (test r) y n)) (rows_of t) (none_left test (rows_of t) z)

  pub All-update_where {κ μ} :
      (P : R → Type κ) (Q : R → Type μ) (test : R → Bool) (f : R → R) (t : Dict String R)
      → ((r : R) → P r → test r ≡ true → Q (f r))
      → ((r : R) → P r → test r ≡ false → Q r)
      → All P (rows_of t)
      → All Q (rows_of (update_where test f t))
  unfolding update_where
  All-update_where P Q test f [] hit miss a = tt
  All-update_where P Q test f ((k, r) ∷ t) hit miss (p, a) = elim (Bool-cases (test r)) [
    | inl e ↦ rw e (hit r p e, All-update_where P Q test f t hit miss a)
    | inr e ↦ rw e (miss r p e, All-update_where P Q test f t hit miss a)
  ]
