-- ===== src/Terminal/Sound/Steps.antt =====
-- Ends of sessions, and changes of rows (daemon/internal/terminal).
use shell_sync.Base.{
  string_key, nat_key, ℕ, ◌<◌, ◌≡◌, ◌≢◌, sym, ap, subst, ◌∙◌, true, false, String, none, some, ◌==◌,
  Bool-cases, inl, inr,
}
use shell_sync.Base.Dict.{
  Dict, lookup, insert, delete, lookup-insert_self, lookup-insert_ne, lookup-delete_ne, ne_of_beq,
  lookup-insert_cases, lookup-delete-some,
}
use shell_sync.Store.{is_some}
use shell_sync.Terminal.{Session}
use shell_sync.Terminal.Sound.{Rows, Sound, unwrap, clash_none}

module _ {rows : Rows} {heap : Dict ℕ Session} {next : ℕ} {sessions : Dict String ℕ} where
  -- A row that changes keeps or has no part in being shown as running.
  pub Sound-row :
      (id : String) (t v : shell_sync.Store.Terminal)
      → lookup id rows ≡ some t
      → v.status ≡ t.status
      → Sound rows heap next sessions
      → Sound (insert id v rows) heap next sessions
  Sound-row id t v at_id same o = record {
    live = o.live;
    shown = λ j h found. elim (Bool-cases (id == j)) [
      | inl e ↦
          let ij : id ≡ j = (string_key.same_iff id j).0 e in
          let (x, there, r) = o.shown j h found in
          let xt : x ≡ t =
            unwrap x t (sym there ∙ (ap (λ (k : String). lookup k rows) (sym ij) ∙ at_id)) in
          (
            v,
            subst (λ (k : String). lookup k (insert id v rows) ≡ some v) ij
                (lookup-insert_self id v rows),
            same ∙ (ap (λ (z : shell_sync.Store.Terminal). z.status) (sym xt) ∙ r),
          )
      | inr e ↦
          let (x, there, r) = o.shown j h found in
          (x, lookup-insert_ne j id v rows (ne_of_beq id j e) ∙ there, r)
    ];
    running = λ j x found r. elim (lookup-insert_cases j id v x rows found) [
      | inl (ij, vx) ↦
          subst (λ (k : String). is_some (lookup k sessions) ≡ true) ij
            (o.running id t at_id
              (sym same ∙ (ap (λ (z : shell_sync.Store.Terminal). z.status) vx ∙ r)))
      | inr old ↦ o.running j x old r
    ];
    named = o.named;
    bounded = o.bounded;
  }

  -- A row goes whose terminal has no session.
  pub Sound-delete :
      (id : String)
      → lookup id sessions ≡ none
      → Sound rows heap next sessions
      → Sound (delete id rows) heap next sessions
  Sound-delete id free o = record {
    live = o.live;
    shown = λ j h found.
        let (x, there, r) = o.shown j h found in
        (
          x,
          lookup-delete_ne j id rows (λ ij.
                clash_none h (sym free ∙ (ap (λ (k : String). lookup k sessions) ij ∙ found)))
              ∙ there,
          r,
        );
    running =
        λ j x found r. let (ne, old) = lookup-delete-some j id x rows found in o.running j x old r;
    named = o.named;
    bounded = o.bounded;
  }

  -- A session ends: its row, if there is one, stops being shown as running, and the map forgets the terminal.
  pub Sound-end :
      (h : ℕ) (s s' : Session) (v : shell_sync.Store.Terminal)
      → lookup h heap ≡ some s
      → s.exited ≡ false
      → s'.exited ≡ true
      → v.status ≢ "running"
      → Sound rows heap next sessions
      → Sound (insert s.id v rows) (insert h s' heap) next (delete s.id sessions)
  Sound-end h s s' v at_h alive dead not_running o = record {
    live = λ j k found.
        let (ne, old) = lookup-delete-some j s.id k sessions found in
        let (x, there, named, x_alive) = o.live j k old in
        (
          x,
          lookup-insert_ne k h s' heap (λ hk. ne (
                ap (λ (z : Session). z.id)
                  (unwrap s x (sym at_h ∙ (ap (λ (i : ℕ). lookup i heap) hk ∙ there)))
                ∙ named))
              ∙ there,
          named,
          x_alive,
        );
    shown = λ j k found.
        let (ne, old) = lookup-delete-some j s.id k sessions found in
        let (x, there, r) = o.shown j k old in (x, lookup-insert_ne j s.id v rows ne ∙ there, r);
    running = λ j x found r. elim (lookup-insert_cases j s.id v x rows found) [
      | inl (ij, vx) ↦
          absurd (not_running (ap (λ (z : shell_sync.Store.Terminal). z.status) vx ∙ r))
      | inr old ↦ elim (Bool-cases (s.id == j)) [
        | inl e ↦
            let ij : s.id ≡ j = (string_key.same_iff s.id j).0 e in
            absurd (
              not_running (
                ap (λ (z : shell_sync.Store.Terminal). z.status)
                  (unwrap v x (
                    sym (lookup-insert_self s.id v rows)
                    ∙ (ap (λ (k : String). lookup k (insert s.id v rows)) ij ∙ found)))
                ∙ r))
        | inr e ↦
            ap is_some (lookup-delete_ne j s.id sessions (ne_of_beq s.id j e)) ∙ o.running j x old r
      ]
    ];
    named = λ k x found x_alive. elim (lookup-insert_cases k h s' x heap found) [
      | inl (hk, sx) ↦ absurd (clash (sym dead ∙ (ap (λ (z : Session). z.exited) sx ∙ x_alive)))
      | inr old ↦ elim (Bool-cases (s.id == x.id)) [
        | inl e ↦
            let ij : s.id ≡ x.id = (string_key.same_iff s.id x.id).0 e in
            let hk : h ≡ k = unwrap h k (
              sym (o.named h s at_h alive)
              ∙ (ap (λ (i : String). lookup i sessions) ij ∙ o.named k x old x_alive)) in
            absurd (
              clash (
                sym dead
                ∙ (ap (λ (z : Session). z.exited)
                      (unwrap s' x (
                        sym (lookup-insert_self h s' heap)
                        ∙ (ap (λ (i : ℕ). lookup i (insert h s' heap)) hk ∙ found)))
                    ∙ x_alive)))
        | inr e ↦
            lookup-delete_ne x.id s.id sessions (ne_of_beq s.id x.id e) ∙ o.named k x old x_alive
      ]
    ];
    bounded = λ k x found. elim (lookup-insert_cases k h s' x heap found) [
      | inl (hk, sx) ↦ subst (λ (j : ℕ). j < next) hk (o.bounded h s at_h)
      | inr old ↦ o.bounded k x old
    ];
  }
    where
      clash : true ≡ false → ⊥
      clash h = cc

  -- A live session has a row, which is what lets its end be recorded.
  pub row_of :
      (h : ℕ) (s : Session)
      → lookup h heap ≡ some s
      → s.exited ≡ false
      → Sound rows heap next sessions
      → (t : shell_sync.Store.Terminal) × (lookup s.id rows ≡ some t) × (t.status ≡ "running")
  row_of h s at_h alive o = o.shown s.id h (o.named h s at_h alive)
