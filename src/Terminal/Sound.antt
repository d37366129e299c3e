-- ===== src/Terminal/Sound.antt =====
-- Live sessions and the rows that are shown as running (daemon/internal/terminal).
pub mod Steps
pub mod Runs
pub mod Ends
pub mod Always
use shell_sync.Base.{
  string_key, nat_key, ℕ, zero, suc, ◌+◌, ◌≤◌, ◌<◌, ◌≡◌, ◌≢◌, refl, sym, ap, subst, ◌∙◌, Bool, true,
  false, String, Option, none, some, List, [], ◌∷◌, if◌then◌else◌, ◌==◌, arith, Bool-cases,
  Option-cases, inl, inr,
}
use shell_sync.Base.Dict.{
  Dict, lookup, insert, delete, lookup-insert, lookup-delete, lookup-insert_self, lookup-insert_ne,
  lookup-delete_self, lookup-delete_ne, ne_of_beq, beq_ne, beq_self, lookup-insert_cases,
  lookup-delete-some,
}
use shell_sync.Store.{is_some}
use shell_sync.Terminal.{Session, Manager}

abbrev pub Rows : Type 0
Rows = Dict String shell_sync.Store.Terminal

-- The map of sessions names exactly the sessions that have not exited, one for each terminal whose row is
-- shown as running.
pub record Sound (rows : Rows) (heap : Dict ℕ Session) (next : ℕ) (sessions : Dict String ℕ)
    : Type 0 where
  pub live :
      (id : String) (h : ℕ)
      → lookup id sessions ≡ some h
      → (s : Session) × (lookup h heap ≡ some s) × (s.id ≡ id) × (s.exited ≡ false)
  pub shown :
      (id : String) (h : ℕ)
      → lookup id sessions ≡ some h
      → (t : shell_sync.Store.Terminal) × (lookup id rows ≡ some t) × (t.status ≡ "running")
  pub running :
      (id : String) (t : shell_sync.Store.Terminal)
      → lookup id rows ≡ some t
      → t.status ≡ "running"
      → is_some (lookup id sessions) ≡ true
  pub named :
      (h : ℕ) (s : Session)
      → lookup h heap ≡ some s
      → s.exited ≡ false
      → lookup s.id sessions ≡ some h
  pub bounded : (h : ℕ) (s : Session) → lookup h heap ≡ some s → h < next

abbrev pub Ok : Manager → Type 0
Ok m = Sound m.db.terminals m.heap m.next_handle m.sessions

pub unwrap : {A : Type 0} (a b : A) → ◌≡◌ {A = Option A} (some a) (some b) → a ≡ b
unwrap a b h = cc

pub clash_none : {A : Type 0} (a : A) → ◌≡◌ {A = Option A} none (some a) → ⊥
clash_none a h = cc

module _ {rows : Rows} {heap : Dict ℕ Session} {next : ℕ} {sessions : Dict String ℕ} where
  -- A session keeps its terminal and whether it has exited.
  pub Sound-session :
      (h : ℕ) (s s' : Session)
      → lookup h heap ≡ some s
      → s'.id ≡ s.id
      → s'.exited ≡ s.exited
      → Sound rows heap next sessions
      → Sound rows (insert h s' heap) next sessions
  Sound-session h s s' at_h same_id same_exited o = record {
    live = λ id k found.
        let (x, there, named, alive) = o.live id k found in
        elim (Bool-cases (h == k)) [
          | inl e ↦
              let hk : h ≡ k = (nat_key.same_iff h k).0 e in
              let xs : x ≡ s =
                unwrap x s (sym there ∙ (ap (λ (j : ℕ). lookup j heap) (sym hk) ∙ at_h)) in
              (
                s',
                subst (λ (j : ℕ). lookup j (insert h s' heap) ≡ some s') hk
                    (lookup-insert_self h s' heap),
                same_id ∙ (ap (λ (z : Session). z.id) (sym xs) ∙ named),
                same_exited ∙ (ap (λ (z : Session). z.exited) (sym xs) ∙ alive),
              )
          | inr e ↦ (x, lookup-insert_ne k h s' heap (ne_of_beq h k e) ∙ there, named, alive)
        ];
    shown = o.shown;
    running = o.running;
    named = λ k x found alive. elim (lookup-insert_cases k h s' x heap found) [
      | inl (hk, sx) ↦
          subst (λ (z : Session). lookup z.id sessions ≡ some k) sx
            (ap (λ (i : String). lookup i sessions) same_id
              ∙ (o.named h s at_h (sym same_exited ∙ (ap (λ (z : Session). z.exited) sx ∙ alive))
                  ∙ ap some hk))
      | inr old ↦ o.named k x old alive
    ];
    bounded = λ k x found. elim (lookup-insert_cases k h s' x heap found) [
      | inl (hk, sx) ↦ subst (λ (j : ℕ). j < next) hk (o.bounded h s at_h)
      | inr old ↦ o.bounded k x old
    ];
  }

  -- A session is started for a terminal that has none, whose row is then running.
  pub Sound-start :
      (id : String) (v : shell_sync.Store.Terminal) (s : Session)
      → lookup id sessions ≡ none
      → v.status ≡ "running"
      → s.id ≡ id
      → s.exited ≡ false
      → Sound rows heap next sessions
      → Sound (insert id v rows) (insert next s heap) (next + 1) (insert id next sessions)
  Sound-start id v s free runs named_id fresh o = record {
    live = λ j h found. elim (lookup-insert_cases j id next h sessions found) [
      | inl (ij, nh) ↦ (
        s,
        subst (λ (k : ℕ). lookup k (insert next s heap) ≡ some s) nh
            (lookup-insert_self next s heap),
        named_id ∙ ij,
        fresh,
      )
      | inr old ↦
          let (x, there, named, alive) = o.live j h old in
          (
            x,
            lookup-insert_ne h next s heap (not_next h (o.bounded h x there)) ∙ there,
            named,
            alive,
          )
    ];
    shown = λ j h found. elim (lookup-insert_cases j id next h sessions found) [
      | inl (ij, nh) ↦ (
        v,
        subst (λ (k : String). lookup k (insert id v rows) ≡ some v) ij
            (lookup-insert_self id v rows),
        runs,
      )
      | inr old ↦
          let (t, there, r) = o.shown j h old in
          (
            t,
            lookup-insert_ne j id v rows (λ ij.
                  clash_none h (sym free ∙ (ap (λ (k : String). lookup k sessions) ij ∙ old)))
                ∙ there,
            r,
          )
    ];
    running = λ j t found r. elim (Bool-cases (id == j)) [
      | inl e ↦ ap is_some (lookup-insert j id next sessions) ∙ rw e refl
      | inr e ↦
          ap is_some (lookup-insert_ne j id next sessions (ne_of_beq id j e))
          ∙ o.running j t (sym (lookup-insert_ne j id v rows (ne_of_beq id j e)) ∙ found) r
    ];
    named = λ h x found alive. elim (lookup-insert_cases h next s x heap found) [
      | inl (nh, sx) ↦
          subst (λ (z : Session). lookup z.id (insert id next sessions) ≡ some h) sx
            (ap (λ (k : String). lookup k (insert id next sessions)) named_id
              ∙ (lookup-insert_self id next sessions ∙ ap some nh))
      | inr old ↦
          let there = o.named h x old alive in
          lookup-insert_ne x.id id next sessions
            (λ ij. clash_none h (sym free ∙ (ap (λ (k : String). lookup k sessions) ij ∙ there)))
          ∙ there
    ];
    bounded = λ h x found. elim (lookup-insert_cases h next s x heap found) [
      | inl (nh, sx) ↦ omega (arith, nh)
      | inr old ↦ omega (arith, o.bounded h x old)
    ];
  }
    where
      not_next : (h : ℕ) → h < next → next ≢ h
      not_next h lt e = omega (arith, lt, e)
