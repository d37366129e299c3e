-- ===== src/Lifecycle/Exclusive.antt =====
-- One daemon at a time (daemon/internal/lifecycle/lock.go).
use shell_sync.Base.{
  nat_key, ℕ, ◌≡◌, refl, sym, ap, subst, ◌∙◌, Bool, true, false, not, ◌&&◌, String, Option, none,
  some, List, [], ◌∷◌, if◌then◌else◌, arith, Bool-cases, inl, inr,
}
use shell_sync.Base.Dict.{Dict, lookup, insert, lookup-insert_cases}
use shell_sync.Lifecycle.{
  LockData, System, Lock, Machine, process_alive, is_alive, read_lock, atomic_write, acquire,
  acquire_check, acquire_write, set_port, checked_in, acquire_on, port_in,
}
use shell_sync.Lifecycle.Runs.{
  LockEvent, starts, ends, acquires, binds, releases, unreleased, lock_step, lock_run, binds_well,
  orderly,
}
use shell_sync.Lifecycle.Guard.{
  Held, Guarded, unread, set_apart, one_holder, Guarded-starts, Guarded-ends, Guarded-release,
}

both_true : (a b : Bool) → a && b ≡ true → (a ≡ true) × (b ≡ true)
both_true a b h = ground arith

module _ (c : System) where
  module _ (permitted : (p q : ℕ) → c.may_signal p q ≡ true) where
    -- Who passes the check finds nobody with a lock that is not released.
    nobody :
        (m : Machine) (me : ℕ) (file : Option String)
        → Guarded c m
        → acquire_check c m me ≡ some file
        → (q : ℕ) (l : Lock) → lookup q m.locks ≡ some l
        → l.released ≡ false
        → ⊥
    unfolding Guarded acquire_check process_alive
    nobody m me file g passed q l found still =
        let a = (g q l found).1 still in
        unread file (
          sym (
            ap (λ (o : Option LockData). checked_in c o m me) a.in_file
            ∙ rw (ap (is_alive m.running) a.named ∙ a.living, permitted me a.text.pid) refl)
          ∙ passed)

    module _ (reads_back : (d : LockData) → c.unmarshal (c.marshal d) ≡ some d) where
      Guarded-acquire_write :
          (m : Machine) (file : Option String) (own : LockData) (written : Bool)
          → is_alive m.running own.pid ≡ true
          → Guarded c m
          → ((q : ℕ) (x : Lock) → lookup q m.locks ≡ some x → x.released ≡ false → ⊥)
          → Guarded c (acquire_write c m file own written).0
      unfolding Guarded acquire_write atomic_write read_lock
      Guarded-acquire_write m file own false alive g free q x found =
          ((g q x found).0, λ still. absurd (free q x found still))
      Guarded-acquire_write m file own true alive g free q x found =
          elim (lookup-insert_cases q own.pid (record { own = own; released = false }) x m.locks
            found) [
              | inl (pq, ox) ↦ (
                ap (λ (l : Lock). l.own.pid) (sym ox) ∙ pq,
                λ still. record {
                  living = subst (λ (p : ℕ). is_alive m.running p ≡ true) pq alive;
                  text = own;
                  in_file = reads_back own;
                  named = pq;
                },
              )
              | inr old ↦ ((g q x old).0, λ still. absurd (free q x old still))
            ]

      Guarded-acquire :
          (m : Machine) (own : LockData) (written : Bool)
          → is_alive m.running own.pid ≡ true
          → Guarded c m
          → Guarded c (acquire c m own written).0
      unfolding acquire
      Guarded-acquire m own written alive g = by_check (acquire_check c m own.pid) refl
        where
          by_check :
              (o : Option (Option String))
              → acquire_check c m own.pid ≡ o
              → Guarded c (acquire_on c o m own written).0
          by_check none e = g
          by_check (some file) e =
              Guarded-acquire_write m file own written alive g (nobody m own.pid file g e)

      Guarded-set_port :
          (m : Machine) (pid port : ℕ) (written : Bool)
          → unreleased (lookup pid m.locks) ≡ true
          → Guarded c m
          → Guarded c (set_port c m pid port written)
      unfolding Guarded set_port atomic_write read_lock
      Guarded-set_port m pid port written live g = by_lock (lookup pid m.locks) refl live
        where
          by_lock :
              (o : Option Lock)
              → lookup pid m.locks ≡ o
              → unreleased o ≡ true
              → Guarded c (port_in c o m pid port written)
          by_lock none e w = g
          by_lock (some l) e w = λ q x found.
              let (mine, held) = g pid l e in
              let own_hold = held (open_lock l.released w) in
              elim (lookup-insert_cases q pid (record l { own = record (l.own) { port = port } }) x
                m.locks found) [
                  | inl (pq, ox) ↦ (
                    ap (λ (y : Lock). y.own.pid) (sym ox) ∙ (mine ∙ pq),
                    λ still. after written l q (mine ∙ pq) (subst (Held c m) pq own_hold),
                  )
                  | inr old ↦
                      let (same, other) = g q x old in
                      (
                        same,
                        λ still.
                            let a = other still in
                            after written l q (mine ∙ one_holder c m pid q own_hold a) a,
                      )
                ]
            where
              open_lock : (b : Bool) → not b ≡ true → b ≡ false
              open_lock false h = refl
              open_lock true h = absurd (set_apart (sym h))

              after :
                  (w : Bool) (l : Lock) (q : ℕ)
                  → l.own.pid ≡ q
                  → Held c m q
                  → Held c
                      (record m {
                        file =
                            (if w
                              then some (c.marshal (record (l.own) { port = port }))
                              else m.file);
                        locks =
                            insert pid (record l { own = record (l.own) { port = port } }) m.locks;
                      })
                      q
              after true l q same a = record {
                living = a.living;
                text = record (l.own) { port = port };
                in_file = reads_back (record (l.own) { port = port });
                named = same;
              }
              after false l q same a = record {
                living = a.living;
                text = a.text;
                in_file = a.in_file;
                named = a.named;
              }

      Guarded-step :
          (m : Machine) (e : LockEvent)
          → binds_well c m e ≡ true
          → Guarded c m
          → Guarded c (lock_step c m e)
      unfolding lock_step
      Guarded-step m (starts pid) w g = Guarded-starts c m pid g
      Guarded-step m (ends pid) w g = Guarded-ends c m pid g
      Guarded-step m (acquires pid token now written) w g =
          elim (Bool-cases (is_alive m.running pid)) [
            | inl e ↦ rw e (
                Guarded-acquire m (record { pid = pid; port = 0; token = token; started_at = now })
                  written e g)
            | inr e ↦ rw e g
          ]
      Guarded-step m (binds pid port written) w g = Guarded-set_port m pid port written w g
      Guarded-step m (releases pid) w g = Guarded-release c m pid g

      Guarded-run :
          (m : Machine) (es : List LockEvent)
          → orderly c m es ≡ true
          → Guarded c m
          → Guarded c (lock_run c m es)
      unfolding lock_run orderly
      Guarded-run m [] o g = g
      Guarded-run m (e ∷ es) o g =
          let (now, later) = both_true (binds_well c m e) (orderly c (lock_step c m e) es) o in
          Guarded-run (lock_step c m e) es later (Guarded-step m e now g)

      -- Start on a machine where no process has a lock object, whatever the lock file holds. Let processes start, end
      -- with or without a release, acquire the lock, set its port and release it, with writes of the file that may
      -- fail. Then two processes that both have a lock which they have not released are one process, it is alive, and
      -- the file names it. Assumed: the file's coding can be read back, each Acquire is undisturbed, every process may
      -- signal every other one (they belong to one user), and no process sets the port of a lock that it has released.
      pub one_daemon :
          (m : Machine) (es : List LockEvent) (p q : ℕ) (x y : Lock)
          → m.locks ≡ []
          → orderly c m es ≡ true
          → lookup p (lock_run c m es).locks ≡ some x
          → lookup q (lock_run c m es).locks ≡ some y
          → x.released ≡ false
          → y.released ≡ false
          → (p ≡ q)
            × (is_alive (lock_run c m es).running p ≡ true)
            × ((d : LockData) × (read_lock c (lock_run c m es).file ≡ some d) × (d.pid ≡ p))
      unfolding Guarded lookup
      one_daemon m es p q x y none_yet in_order at_p at_q open_p open_q =
          let g = Guarded-run m es in_order (λ r z found.
            absurd (unread z (subst (λ (t : Dict ℕ Lock). lookup r t ≡ some z) none_yet found))) in
          let a = (g p x at_p).1 open_p in
          (
            one_holder c (lock_run c m es) p q a ((g q y at_q).1 open_q),
            a.living,
            (a.text, a.in_file, a.named),
          )
