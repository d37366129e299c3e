-- ===== src/Base/Pool.antt =====
-- Numbered resources that stand in a Go map until they are released.
use shell_sync.Base.Tests.{nat_eqb, Key, ◌==◌, nat_key, Bool-cases}
use shell_sync.Base.Dict.{
  Dict, lookup, insert, delete, lookup-insert_self, lookup-insert_ne, lookup-delete_ne, ne_of_beq,
}
use Prim.Native.Nat.{ℕ}
use mathlib.Core.Path.{◌≡◌, refl, sym, ap, ◌∙◌}
use mathlib.Core.Logic.{◌⊎◌, inl, inr}
use mathlib.Core.List.{List, [], ◌∷◌, ◌++◌}
use mathlib.Core.Option.{Option, none, some}
use mathlib.Core.Bool.{Bool, true, false, ◌||◌}
use native.Mathlib.Omega.{arith}

-- Whether a number is in a list.
unfoldable pub has : ℕ → List ℕ → Bool
has n [] = false
has n (x ∷ xs) = nat_eqb x n || has n xs

has-append_left : (n : ℕ) (xs ys : List ℕ) → has n xs ≡ true → has n (xs ++ ys) ≡ true
unfolding has
has-append_left n [] ys h = cc
has-append_left n (x ∷ xs) ys h = ground (arith, has-append_left n xs ys)

pub has-append_right : (n : ℕ) (xs ys : List ℕ) → has n ys ≡ true → has n (xs ++ ys) ≡ true
unfolding has
has-append_right n [] ys h = h
has-append_right n (x ∷ xs) ys h = ground (arith, has-append_right n xs ys h)

or_right : (a b : Bool) → b ≡ true → a || b ≡ true
or_right true b h = refl
or_right false b h = h

has_head : (n x : ℕ) (xs : List ℕ) → some x ≡ some n → has n (x ∷ xs) ≡ true
unfolding has
has_head n x xs h = ground arith

none_some : {P : Type 0} (n : ℕ) → none ≡ some n → P
none_some n h = cc

-- What a range loop over the map releases.
abbrev pub values {ℓ} : {K : Type ℓ} → Dict K ℕ → List ℕ
values [] = []
values ((k, v) ∷ m) = v ∷ values m

-- Releasing an entry that may be there.
abbrev pub dropped : Option ℕ → List ℕ → List ℕ
dropped none xs = xs
dropped (some x) xs = x ∷ xs

module _ {ℓ} {K : Type ℓ} ⦃e : Key K⦄ where
  -- A resource stands in the map or has been released.
  abbrev pub Accounted : Dict K ℕ → List ℕ → ℕ → Type ℓ
  Accounted m released n = ((k : K) × (lookup k m ≡ some n)) ⊎ (has n released ≡ true)

module _ {ℓ} {K : Type ℓ} ⦃e : Key K⦄ where
  has-values : (k : K) (n : ℕ) (m : Dict K ℕ) → lookup k m ≡ some n → has n (values m) ≡ true
  unfolding lookup has
  has-values k n [] h = cc
  has-values k n ((j, v) ∷ m) h = elim (Bool-cases (j == k)) [
    | inl same ↦ has_head n v (values m) (rw same at h)
    | inr other ↦ or_right (nat_eqb v n) (has n (values m)) (has-values k n m (rw other at h))
  ]

  pub Accounted-dropped :
      (m : Dict K ℕ) (released : List ℕ) (n : ℕ) (o : Option ℕ)
      → Accounted m released n
      → Accounted m (dropped o released) n
  Accounted-dropped m released n none a = a
  Accounted-dropped m released n (some x) (inl f) = inl f
  Accounted-dropped m released n (some x) (inr h) = inr (has-append_right n (x ∷ []) released h)

  pub Accounted-delete :
      (m : Dict K ℕ) (released : List ℕ) (n : ℕ) (k : K)
      → Accounted m released n
      → Accounted (delete k m) (dropped (lookup k m) released) n
  Accounted-delete m released n k (inr h) =
      Accounted-dropped (delete k m) released n (lookup k m) (inr h)
  Accounted-delete m released n k (inl (j, found)) = elim (Bool-cases (k == j)) [
    | inl same ↦
        inr (own (lookup k m) (ap (λ (i : K). lookup i m) ((e.same_iff k j).0 same) ∙ found))
    | inr other ↦ inl (j, lookup-delete_ne j k m (ne_of_beq k j other) ∙ found)
  ]
    where
      own : (o : Option ℕ) → o ≡ some n → has n (dropped o released) ≡ true
      own none h = none_some n h
      own (some x) h = has_head n x released h

  -- A new resource goes under a key that is not in use.
  pub Accounted-insert :
      (m : Dict K ℕ) (released : List ℕ) (n v : ℕ) (k : K)
      → lookup k m ≡ none
      → (n ≡ v) ⊎ Accounted m released n
      → Accounted (insert k v m) released n
  Accounted-insert m released n v k free (inl same) =
      inl (k, lookup-insert_self k v m ∙ ap some (sym same))
  Accounted-insert m released n v k free (inr (inr h)) = inr h
  Accounted-insert m released n v k free (inr (inl (j, found))) = inl (
    j,
    lookup-insert_ne j k v m
          (λ same. none_some n (sym free ∙ ap (λ (i : K). lookup i m) same ∙ found))
        ∙ found,
  )

  pub Accounted-clear :
      (m : Dict K ℕ) (released : List ℕ) (n : ℕ)
      → Accounted m released n
      → has n (values m ++ released) ≡ true
  Accounted-clear m released n (inl (k, found)) =
      has-append_left n (values m) released (has-values k n m found)
  Accounted-clear m released n (inr h) = has-append_right n (values m) released h

pub has-append_between :
    (n : ℕ) (xs ys zs : List ℕ) → has n (xs ++ zs) ≡ true → has n (xs ++ (ys ++ zs)) ≡ true
unfolding has
has-append_between n [] ys zs h = has-append_right n ys zs h
has-append_between n (x ∷ xs) ys zs h = ground (arith, has-append_between n xs ys zs)
