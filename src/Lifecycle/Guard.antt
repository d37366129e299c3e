-- ===== src/Lifecycle/Guard.antt =====
-- Processes that hold the lock, and the steps that write nothing into the file (daemon/internal/lifecycle/lock.go).
use shell_sync.Base.{
  nat_key, ℕ, ◌≡◌, ◌≢◌, refl, sym, ap, subst, ◌∙◌, Bool, true, false, not, Option, none, some, List,
  [], ◌∷◌, if◌then◌else◌, ◌==◌, nat_eqb, keep_if, Bool-cases, inl, inr,
}
use shell_sync.Base.Dict.{
  lookup, insert, delete, lookup-insert_self, lookup-insert_ne, lookup-delete-some, ne_of_beq,
  beq_ne,
}
use shell_sync.Lifecycle.{
  LockData, System, Lock, Machine, file_after, is_alive, read_lock, release, release_in,
}

-- `some` is one to one.
unwrap : {A : Type 0} (a b : A) → ◌≡◌ {A = Option A} (some a) (some b) → a ≡ b
unwrap a b h = cc

pub unread : {A : Type 0} (d : A) → ◌≡◌ {A = Option A} none (some d) → ⊥
unread d h = cc

pub set_apart : true ≡ false → ⊥
set_apart h = cc

module _ (c : System) where
  -- The file names the process that holds a lock.
  pub record Held (m : Machine) (pid : ℕ) : Type 0 where
    pub living : is_alive m.running pid ≡ true
    pub text : LockData
    pub in_file : read_lock c m.file ≡ some text
    pub named : text.pid ≡ pid

  unfoldable pub Guarded : Machine → Type 0
  Guarded m =
      (pid : ℕ) (l : Lock)
      → lookup pid m.locks ≡ some l
      → (l.own.pid ≡ pid) × (l.released ≡ false → Held m pid)

  -- Two holders are one.
  pub one_holder : (m : Machine) (p q : ℕ) → Held m p → Held m q → p ≡ q
  one_holder m p q a b =
      sym a.named
      ∙ (ap (λ (d : LockData). d.pid) (unwrap a.text b.text (sym a.in_file ∙ b.in_file)) ∙ b.named)

  alive_after :
      (ps : List ℕ) (p q : ℕ)
      → p ≢ q
      → is_alive ps q ≡ true
      → is_alive (keep_if (λ x. not (nat_eqb x p)) ps) q ≡ true
  alive_after [] p q ne h = h
  alive_after (x ∷ ps) p q ne h = elim (Bool-cases (x == p)) [
    | inl e ↦ rw e (alive_after ps p q ne (behind e (x == q) refl h))
    | inr e ↦ rw e (here (alive_after ps p q ne) (x == q) h)
  ]
    where
      behind :
          (x == p) ≡ true
          → (b : Bool) → (x == q) ≡ b
          → (if b then true else is_alive ps q) ≡ true
          → is_alive ps q ≡ true
      behind e true f h =
          absurd (ne (sym ((nat_key.same_iff x p).0 e) ∙ (nat_key.same_iff x q).0 f))
      behind e false f h = h

      here :
          (is_alive ps q ≡ true → is_alive (keep_if (λ x. not (nat_eqb x p)) ps) q ≡ true)
          → (b : Bool) → (if b then true else is_alive ps q) ≡ true
          → (if b then true else is_alive (keep_if (λ x. not (nat_eqb x p)) ps) q) ≡ true
      here more true h = refl
      here more false h = more h

  pub Guarded-starts :
      (m : Machine) (p : ℕ) → Guarded m → Guarded (record m { running = p ∷ m.running })
  unfolding Guarded
  Guarded-starts m p g q l found =
      let (same, held) = g q l found in
      (
        same,
        λ still.
            let a = held still in
            record {
              living = more (p == q) a.living;
              text = a.text;
              in_file = a.in_file;
              named = a.named;
            },
      )
    where
      more : {x : Bool} (b : Bool) → x ≡ true → (if b then true else x) ≡ true
      more true h = refl
      more false h = h

  pub Guarded-ends :
      (m : Machine) (p : ℕ)
      → Guarded m
      → Guarded (record m {
        running = keep_if (λ x. not (nat_eqb x p)) m.running;
        locks = delete p m.locks;
      })
  unfolding Guarded
  Guarded-ends m p g q l found =
      let (ne, old) = lookup-delete-some q p l m.locks found in
      let (same, held) = g q l old in
      (
        same,
        λ still.
            let a = held still in
            record {
              living = alive_after m.running p q ne a.living;
              text = a.text;
              in_file = a.in_file;
              named = a.named;
            },
      )

  pub Guarded-release : (m : Machine) (pid : ℕ) → Guarded m → Guarded (release c m pid)
  unfolding Guarded release
  Guarded-release m pid g = by_lock (lookup pid m.locks) refl
    where
      by_lock : (o : Option Lock) → lookup pid m.locks ≡ o → Guarded (release_in c o m pid)
      by_lock none e = g
      by_lock (some l) e = λ q x found.
          let mine = (g pid l e).0 in
          elim (Bool-cases (pid == q)) [
            | inl s ↦
                let same : pid ≡ q = (nat_key.same_iff pid q).0 s in
                let is_l : record l { released = true } ≡ x =
                  unwrap (record l { released = true }) x
                    (sym (lookup-insert_self pid (record l { released = true }) m.locks)
                      ∙ subst
                          (λ (k : ℕ).
                            lookup k (insert pid (record l { released = true }) m.locks) ≡ some x)
                          (sym same) found) in
                (
                  ap (λ (y : Lock). y.own.pid) (sym is_l) ∙ (mine ∙ same),
                  λ still. absurd (set_apart (ap (λ (y : Lock). y.released) is_l ∙ still)),
                )
            | inr n ↦
                let ne = ne_of_beq pid q n in
                let old =
                  sym (lookup-insert_ne q pid (record l { released = true }) m.locks ne) ∙ found in
                let (same, held) = g q x old in
                (
                  same,
                  λ still.
                      let a = held still in
                      record {
                        living = a.living;
                        text = a.text;
                        in_file = kept l a ne mine ∙ a.in_file;
                        named = a.named;
                      },
                )
          ]
        where
          kept :
              (l : Lock) {q : ℕ} (a : Held m q)
              → pid ≢ q
              → l.own.pid ≡ pid
              → read_lock c (file_after c (read_lock c m.file) l.own m.file) ≡ read_lock c m.file
          kept l {q} a ne mine = ap (read_lock c) (
              ap (λ (o : Option LockData). file_after c o l.own m.file) a.in_file
              ∙ rw (beq_ne a.text.pid l.own.pid (λ h. ne (sym mine ∙ (sym h ∙ a.named)))) refl)
