-- ===== src/Terminal/Hearing/Bytes.antt =====
-- What reaches a handler of a session until the session is finalised (session.go, manager.go and the log of
-- daemon/internal/logstore).
use shell_sync.Base.{
  string_key, nat_key, ℕ, ◌<◌, ◌≡◌, refl, sym, ap, subst, ◌∙◌, true, false, String, Option, List,
  [], ◌∷◌, ◌++◌,
}
use shell_sync.Base.Order.{ℤ}
use shell_sync.Base.Dict.{Dict, lookup, lookup-insert_self}
use mathlib.Core.List.{append-nil, append_assoc}
use shell_sync.Log.{Log, Row, Direction, stdin, stdout, Backend, set_pending_resize}
use shell_sync.Log.Growth.{Grows-close}
use shell_sync.Terminal.{
  Session, Manager, Call, hears, told, log_of, log_to, dispatch, heard_by, heard_all, subs_of,
  to_session, set_session, set_in,
}
use shell_sync.Log.{close}
use shell_sync.Log.Flushing.{persisted}
use shell_sync.Log.Delivery.{close-run-delivers}
use shell_sync.Terminal.Sessions.{
  finalize, finalize_session, finalize_in, record_exit, close_log, unregister, mark_exited,
  told_all, final_status,
}
use shell_sync.Terminal.Hearing.{
  heard_of, heard_of-append, Once, Attached, Heard, Heard-log_to, log_of-log_to,
}
use shell_sync.Terminal.Hearing.Moves.{Going, Heard-joined, rest-set, Heard-set}
use shell_sync.Log.Conserve.{run, Settled}
use mathlib.Core.List.{append_cancel_left}
use shell_sync.Terminal.Hearing.Inputs.{
  Input, act_all, Stays, output_of, events_of, appended-events_of, act_all-Moved,
}

module _ (b : Backend) (max : ℕ) (id : String) (h k : ℕ) where
  heard_of-told_all :
      (ks : List ℕ) (status : String) (code : Option ℤ)
      → heard_of h k (told_all h ks status code) ≡ []
  unfolding heard_of
  heard_of-told_all [] status code = refl
  heard_of-told_all (j ∷ ks) status code = heard_of-told_all ks status code

  -- finalize records the exit, and then closes the log.
  abbrev Ended : Manager → Manager → Type 0
  Ended m m' = Heard id h k m m' × (log_of m' id ≡ close b (log_of m id))

  Heard-record_exit :
      (m : Manager) (s : Session) (code : Option ℤ) (now : ℕ)
      → Heard id h k m (record_exit m h s code now)
  unfolding record_exit log_of
  Heard-record_exit m s code now = (
    [],
    heard_of-append h k m.calls (told_all h s.status_subs (final_status code s.force_stop) code)
        ∙ ap (◌++◌ (heard_of h k m.calls))
            (heard_of-told_all s.status_subs (final_status code s.force_stop) code),
    sym (append-nil _),
  )

  ended_session :
      (m : Manager) (s : Session) (i : String) (code : Option ℤ) (now : ℕ)
      → Attached id h k m
      → Once k s.output_subs
      → k < s.next_sub
      → s.id ≡ id
      → i ≡ id
      → Ended m (
          set_session
            (unregister (close_log b (record_exit m h s code now) i) i)
            h
            (λ s. record s { finished = true }))
  unfolding close_log record_exit unregister log_of
  ended_session m s i code now a once known same_id same =
      subst (λ (j : String). Ended m (set_session (unregister (close_log b m1 j) j) h finish))
        (sym same)
        (
          Heard-joined id h k m m1 m4 (Heard-record_exit m s code now) (
              Heard-joined id h k m1 m2 m4 closed
                (Heard-joined id h k m2 m3 m4 forgotten (Heard-set id h k m3 finish))),
          log_set
              ∙ (log_unregister
                  ∙ (log_of-log_to m1 id (close b (log_of m1 id)) ∙ ap (close b) log_exit)),
        )
    where
      finish : Session → Session
      finish = λ s. record s { finished = true }

      m1 : Manager
      m1 = record_exit m h s code now

      m2 : Manager
      m2 = close_log b m1 id

      m3 : Manager
      m3 = unregister m2 id

      m4 : Manager
      m4 = set_session m3 h finish

      attached : Attached id h k m1
      attached = record {
        session = mark_exited code s;
        named = a.named;
        object = lookup-insert_self h (mark_exited code s) m.heap;
        same_id = same_id;
        once = once;
        known = known;
      }

      closed : Heard id h k m1 m2
      closed =
          Heard-log_to id h k m1 (close b (log_of m1 id)) attached (Grows-close b (log_of m1 id))

      forgotten : Heard id h k m2 m3
      forgotten = ([], sym (append-nil _), sym (append-nil _))

      log_set : log_of (set_session m3 h finish) id ≡ log_of m3 id
      log_set =
          ap (λ (x : Dict String Log). shell_sync.Terminal.or_empty (lookup id x))
            (rest-set m3 h finish).1

      log_unregister : log_of m3 id ≡ log_of m2 id
      log_unregister = refl

      log_exit : log_of m1 id ≡ log_of m id
      log_exit = refl

  ended :
      (m : Manager) (code : Option ℤ) (now : ℕ) → Going id h k m → Ended m (finalize b m h code now)
  unfolding finalize finalize_session
  ended m code now (a, alive) =
      subst (Ended m)
        (sym (ap (λ (x : Option Session). finalize_in b x m h code now) a.object ∙ rw alive refl))
        (ended_session m a.session a.session.id code now a a.once a.known a.same_id a.same_id)

persisted-append :
    (decode : String → List ℕ) (d : Direction) (xs ys : List Row)
    → persisted decode d (xs ++ ys) ≡ persisted decode d xs ++ persisted decode d ys
unfolding persisted
persisted-append decode d [] ys = refl
persisted-append decode d (r ∷ xs) ys =
    ap (◌++◌ _) (persisted-append decode d xs ys)
    ∙ sym (append_assoc _ (persisted decode d xs) (persisted decode d ys))

-- Let a handler be subscribed to the output of the live session of a terminal, and let the shell put out bytes, clients
-- type, timers fire, sizes and markers come and other handlers join and leave, in any order, until the shell ends.
-- Provided the text encoding can be read back and the database takes every row, and a log that is not registered
-- holds nothing back at the start, the stdout chunks that the handler is called with from then on are, read in order,
-- exactly the bytes that were still buffered at the start followed by those that the shell has put out since: none is
-- lost, repeated or moved, also of those that are buffered when the shell ends.
pub handler_hears_all :
    (b : Backend) (decode : String → List ℕ)
    → ((bytes : List ℕ) → decode (b.encode bytes) ≡ bytes)
    → ((seq : ℕ) → b.accepts seq ≡ true)
    → (max : ℕ) (id : String) (h k : ℕ) (m : Manager) (is : List Input) (code : Option ℤ) (now : ℕ)
      (a : Attached id h k m)
    → a.session.exited ≡ false
    → Settled (log_of m id)
    → Stays k is
    → persisted decode stdout (heard_of h k (finalize b (act_all b max id h m is) h code now).calls)
      ≡ persisted decode stdout (heard_of h k m.calls) ++ ((log_of m id).output.buf ++ output_of is)
handler_hears_all b decode decodes stored max id h k m is code now a alive settled st =
    let m1 = act_all b max id h m is in
    let m2 = finalize b m1 h code now in
    let (g, heard1, log1) = act_all-Moved b max id h k is m st (a, alive) in
    let (heard2, log2) = ended b max id h k m1 code now g in
    let (new, heard, stored_rows) = Heard-joined id h k m m1 m2 heard1 heard2 in
    let l0 = log_of m id in
    let log : log_of m2 id ≡ close b (run b max l0 (events_of is)) = log2 ∙ ap (close b) log1 in
    let old = persisted decode stdout l0.rows in
    let delivered : persisted decode stdout (l0.rows ++ new)
        ≡ (old ++ l0.output.buf) ++ output_of is =
      ap (persisted decode stdout) (sym stored_rows ∙ ap (λ (l : Log). l.rows) log)
      ∙ close-run-delivers b decode decodes stored stdout not_resize max l0 (events_of is) settled
      ∙ ap (◌++◌ (old ++ l0.output.buf)) (appended-events_of is) in
    let bytes : persisted decode stdout new ≡ l0.output.buf ++ output_of is =
      append_cancel_left old (persisted decode stdout new) (l0.output.buf ++ output_of is) (
        sym (persisted-append decode stdout l0.rows new)
        ∙ delivered
        ∙ append_assoc old l0.output.buf (output_of is)) in
    ap (persisted decode stdout) heard
    ∙ persisted-append decode stdout (heard_of h k m.calls) new
    ∙ ap (◌++◌ (persisted decode stdout (heard_of h k m.calls))) bytes
  where
    not_resize : stdout ≡ shell_sync.Log.resize → ⊥
    not_resize e = cc
