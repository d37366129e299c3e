-- ===== src/Base/Dict.antt =====
-- A Go map as an association list with one entry for each key that was inserted.
use Prim.Native.Nat.{ℕ}
use mathlib.Core.Path.{◌≡◌, refl, ◌∙◌}
use mathlib.Core.Logic.{◌≢◌, ◌⊎◌, inl, inr}
use mathlib.Core.List.{List, [], ◌∷◌}
use mathlib.Core.Option.{Option, none, some}
use mathlib.Core.Bool.{Bool, true, false}
use native.Mathlib.Omega.{arith}
use shell_sync.Base.Tests.{Key, ◌==◌, if◌then◌else◌, Bool-cases}
use shell_sync.Base.Lists.{length}

abbrev pub Dict {ℓ κ} : Type ℓ → Type κ → Type (ℓ ⊔ κ)
Dict K V = List (K × V)

module _ {ℓ} {K : Type ℓ} ⦃e : Key K⦄ where
  pub beq_self : (k : K) → (k == k) ≡ true
  beq_self k = (e.same_iff k k).1 refl

  pub beq_ne : (k j : K) → k ≢ j → (k == j) ≡ false
  beq_ne k j h = elim (Bool-cases (k == j)) [
    | inl y ↦ absurd (h ((e.same_iff k j).0 y))
    | inr n ↦ n
  ]

module _ {ℓ} {K : Type ℓ} ⦃e : Key K⦄ where
  pub ne_of_beq : (k j : K) → (k == j) ≡ false → k ≢ j
  ne_of_beq k j n same = cc (n, (e.same_iff k j).1 same)

module _ {ℓ} {V : Type ℓ} where
  -- What an entry looks like after a range loop that deletes.
  abbrev pub kept : (V → Bool) → Option V → Option V
  kept t none = none
  kept t (some v) = if t v then some v else none

  pub kept-eq_some :
      (t : V → Bool) (o : Option V) (v : V) → kept t o ≡ some v → (o ≡ some v) × (t v ≡ true)
  kept-eq_some t none v h = cc
  kept-eq_some t (some w) v h = ground arith

module _ {ℓ κ} {K : Type ℓ} {V : Type κ} ⦃e : Key K⦄ where
  unfoldable pub lookup : K → Dict K V → Option V
  lookup k [] = none
  lookup k ((j, v) ∷ m) = if j == k then some v else lookup k m

  unfoldable pub insert : K → V → Dict K V → Dict K V
  insert k v [] = (k, v) ∷ []
  insert k v ((j, w) ∷ m) = if j == k then (j, v) ∷ m else (j, w) ∷ insert k v m

  unfoldable pub delete : K → Dict K V → Dict K V
  delete k [] = []
  delete k ((j, w) ∷ m) = if j == k then delete k m else (j, w) ∷ delete k m

  -- A range loop that deletes every entry whose value a test refuses.
  unfoldable pub retain : (V → Bool) → Dict K V → Dict K V
  unfolding delete
  retain t [] = []
  retain t ((j, w) ∷ m) = if t w then (j, w) ∷ retain t m else delete j (retain t m)

  unfoldable pub size : Dict K V → ℕ
  size m = length m

  pub lookup-insert :
      (j k : K) (v : V) (m : Dict K V)
      → lookup j (insert k v m) ≡ (if k == j then some v else lookup j m)
  unfolding lookup insert
  lookup-insert j k v [] = refl
  lookup-insert j k v ((i, w) ∷ m) =
      ground (arith, e.same_iff k j, e.same_iff i k, e.same_iff i j, lookup-insert j k v m)

  pub lookup-delete :
      (j k : K) (m : Dict K V) → lookup j (delete k m) ≡ (if k == j then none else lookup j m)
  unfolding lookup delete
  lookup-delete j k [] = ground arith
  lookup-delete j k ((i, w) ∷ m) =
      ground (arith, e.same_iff k j, e.same_iff i k, e.same_iff i j, lookup-delete j k m)

  pub lookup-insert_self : (k : K) (v : V) (m : Dict K V) → lookup k (insert k v m) ≡ some v
  lookup-insert_self k v m = lookup-insert k k v m ∙ rw (beq_self k)

  pub lookup-insert_ne :
      (j k : K) (v : V) (m : Dict K V) → k ≢ j → lookup j (insert k v m) ≡ lookup j m
  lookup-insert_ne j k v m h = lookup-insert j k v m ∙ rw (beq_ne k j h)

  pub lookup-delete_self : (k : K) (m : Dict K V) → lookup k (delete k m) ≡ none
  lookup-delete_self k m = lookup-delete k k m ∙ rw (beq_self k)

  pub lookup-delete_ne : (j k : K) (m : Dict K V) → k ≢ j → lookup j (delete k m) ≡ lookup j m
  lookup-delete_ne j k m h = lookup-delete j k m ∙ rw (beq_ne k j h)

  pub lookup-retain :
      (t : V → Bool) (j : K) (m : Dict K V) → lookup j (retain t m) ≡ kept t (lookup j m)
  unfolding lookup retain
  lookup-retain t j [] = refl
  lookup-retain t j ((i, w) ∷ m) =
      ground (arith, e.same_iff i j, lookup-retain t j m, lookup-delete j i (retain t m))

module _ {ℓ κ} {K : Type ℓ} {V : Type κ} ⦃e : Key K⦄ where
  -- Where an entry of an extended map comes from.
  pub lookup-insert_cases :
      (j k : K) (v w : V) (m : Dict K V)
      → lookup j (insert k v m) ≡ some w
      → ((k ≡ j) × (v ≡ w)) ⊎ (lookup j m ≡ some w)
  lookup-insert_cases j k v w m h = ground (arith, e.same_iff k j, lookup-insert j k v m)

  pub lookup-delete-some :
      (j k : K) (w : V) (m : Dict K V)
      → lookup j (delete k m) ≡ some w
      → (k ≢ j) × (lookup j m ≡ some w)
  lookup-delete-some j k w m h = (
    λ same. ground (arith, e.same_iff k j, lookup-delete j k m),
    ground (arith, e.same_iff k j, lookup-delete j k m),
  )
