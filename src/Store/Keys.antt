-- ===== src/Store/Keys.antt =====
-- The keys of a table under statements on its rows.
use shell_sync.Base.{
  string_key, ◌≡◌, refl, sym, ap, ◌∙◌, Bool, true, false, String, Option, none, some, [], ◌∷◌,
  if◌then◌else◌, ◌==◌, ◌||◌, Bool-cases, inl, inr,
}
use shell_sync.Base.Dict.{
  Dict, lookup, insert, delete, lookup-insert, lookup-delete, beq_ne, ne_of_beq,
}
use shell_sync.Store.{has_key, is_some, refers, update_where}

pub key_of :
    {V : Type 0} (j : String) (v : V) (t : Dict String V) → lookup j t ≡ some v → has_key j t ≡ true
key_of j v t h = ap is_some h

pub value_of :
    {V : Type 0} (j : String) (t : Dict String V)
    → has_key j t ≡ true
    → (v : V) × (lookup j t ≡ some v)
value_of {V} j t h = by_case (lookup j t) refl
  where
    by_case : (o : Option V) → lookup j t ≡ o → (v : V) × (lookup j t ≡ some v)
    by_case none e = absurd (clash (sym (ap is_some e) ∙ h))
      where
        clash : false ≡ true → ⊥
        clash h = cc
    by_case (some v) e = (v, e)

module _ {V : Type 0} where
  pub has_key-insert :
      (j k : String) (v : V) (t : Dict String V)
      → has_key j t ≡ true
      → has_key j (insert k v t) ≡ true
  has_key-insert j k v t h = elim (Bool-cases (k == j)) [
    | inl e ↦ key_of j v (insert k v t) (lookup-insert j k v t ∙ rw e refl)
    | inr e ↦
        let (w, found) = value_of j t h in
        key_of j w (insert k v t) (lookup-insert j k v t ∙ rw e found)
  ]

  pub has_key-delete :
      (j k : String) (t : Dict String V)
      → has_key j t ≡ true
      → (k == j) ≡ false
      → has_key j (delete k t) ≡ true
  has_key-delete j k t h e =
      let (w, found) = value_of j t h in key_of j w (delete k t) (lookup-delete j k t ∙ rw e found)

  pub has_key-insert_other :
      (j k : String) (v : V) (t : Dict String V)
      → (k == j) ≡ false
      → has_key j (insert k v t) ≡ true
      → has_key j t ≡ true
  has_key-insert_other j k v t e h = sym (ap is_some (lookup-insert j k v t ∙ rw e refl)) ∙ h

  pub has_key-delete_self :
      (j k : String) (t : Dict String V) → (k == j) ≡ true → has_key j (delete k t) ≡ false
  has_key-delete_self j k t e = ap is_some (lookup-delete j k t) ∙ rw e refl

  pub has_key-delete_other :
      (j k : String) (t : Dict String V)
      → (k == j) ≡ false
      → has_key j (delete k t) ≡ true
      → has_key j t ≡ true
  has_key-delete_other j k t e h = sym (ap is_some (lookup-delete j k t ∙ rw e refl)) ∙ h

  here_or_later :
      (r r' : V) (later later' : Option V) (here : Bool)
      → is_some (if here then some r else later) ≡ true
      → (is_some later ≡ true → is_some later' ≡ true)
      → is_some (if here then some r' else later') ≡ true
  here_or_later r r' later later' true h grows = refl
  here_or_later r r' later later' false h grows = grows h

  pub has_key-update_where :
      (j : String) (test : V → Bool) (f : V → V) (t : Dict String V)
      → has_key j t ≡ true
      → has_key j (update_where test f t) ≡ true
  unfolding update_where lookup
  has_key-update_where j test f [] h = h
  has_key-update_where j test f ((k, r) ∷ t) h = elim (Bool-cases (test r)) [
    | inl e ↦ rw e (
        here_or_later r (f r) (lookup j t) (lookup j (update_where test f t)) (k == j) h
          (has_key-update_where j test f t))
    | inr e ↦ rw e (
        here_or_later r r (lookup j t) (lookup j (update_where test f t)) (k == j) h
          (has_key-update_where j test f t))
  ]

or_left : (a b c : Bool) → (b ≡ true → c ≡ true) → a || b ≡ true → a || c ≡ true
or_left true b c f h = refl
or_left false b c f h = f h

module _ {V : Type 0} where
  pub refers-grows :
      (j : String) (t t' : Dict String V)
      → ((k : String) → has_key k t ≡ true → has_key k t' ≡ true)
      → refers j t ≡ true
      → refers j t' ≡ true
  refers-grows j t t' grows h = or_left (j == "") (has_key j t) (has_key j t') (grows j) h

  pub refers-delete :
      (j k : String) (t : Dict String V)
      → (j == k) ≡ false
      → refers j t ≡ true
      → refers j (delete k t) ≡ true
  refers-delete j k t e h =
      or_left (j == "") (has_key j t) (has_key j (delete k t))
        (λ found. has_key-delete j k t found (beq_ne k j (λ same. ne_of_beq j k e (sym same)))) h
