-- ===== src/Pair/Codes.antt =====
-- What a pairing code is good for (pair.go Init and checkCode).
use shell_sync.Base.{
  string_key, ℕ, ◌+◌, ◌≤◌, ◌≡◌, refl, sym, ap, ◌∙◌, ◌≢◌, false, not, String, Option, none, some,
  ltb, arith, Bool-cases, inl, inr,
}
use shell_sync.Base.Dict.{
  lookup, insert, delete, lookup-delete_self, lookup-delete_ne, lookup-insert_self, lookup-retain,
  kept,
}
use shell_sync.Pair.{
  PairService, RelayLink, Outcome, paired, pairing_locked, invalid_pairing, wrong_code, consume,
  check_code, purge, init, pair_ttl,
}

ltb-ge : (n m : ℕ) → ltb n m ≡ false → m ≤ n
ltb-ge n m e = ground arith

le-ltb : (n m : ℕ) → m ≤ n → ltb n m ≡ false
le-ltb n m e = ground arith

consume-absent :
    (s : PairService) (now : ℕ) (code : String) (o : Option ℕ)
    → o ≡ none
    → (consume s now code o).1 ≡ invalid_pairing
unfolding consume
consume-absent s now code none e = refl
consume-absent s now code (some x) e = cc

absent-refused :
    (s : PairService) (now : ℕ) (code : String)
    → lookup code s.codes ≡ none
    → (check_code s now code).1 ≢ paired
unfolding check_code
absent-refused s now code e = elim (Bool-cases (ltb now s.locked_until)) [
  | inl l ↦ rw l (λ (h : pairing_locked ≡ paired). cc)
  | inr l ↦ rw l (
      rw (consume-absent s now code (lookup code s.codes) e) (λ (h : invalid_pairing ≡ paired). cc))
]

consume-paired :
    (s s' : PairService) (now : ℕ) (code : String) (o : Option ℕ)
    → consume s now code o ≡ (s', paired)
    → (expires : ℕ) × ((o ≡ some expires)
        × (now ≤ expires)
        × (s' ≡ record s { codes = delete code s.codes; fail_count = 0 }))
unfolding consume
consume-paired s s' now code none e = cc
consume-paired s s' now code (some expires) e = elim (Bool-cases (ltb expires now)) [
  | inl l ↦
      let h : (wrong_code (record s { codes = delete code s.codes }) now, invalid_pairing)
          ≡ (s', paired) =
        (rw l at e) in
      cc
  | inr l ↦
      let h : (record s { codes = delete code s.codes; fail_count = 0 }, paired) ≡ (s', paired) =
        (rw l at e) in
      (expires, (refl, ltb-ge expires now l, sym (ap (λ (p : PairService × Outcome). p.0) h)))
]

-- When an attempt pairs, the lock was over, the code was on record and had not expired; the other
-- codes are as before, the failure count is back at zero, and the same code never pairs again from that
-- state, at whatever time it is tried.
pub check_code_once :
    (s s' : PairService) (now later : ℕ) (code other : String)
    → code ≢ other
    → check_code s now code ≡ (s', paired)
    → (s.locked_until ≤ now)
      × ((expires : ℕ) × ((lookup code s.codes ≡ some expires) × (now ≤ expires)))
      × (lookup other s'.codes ≡ lookup other s.codes)
      × (s'.fail_count ≡ 0)
      × ((check_code s' later code).1 ≢ paired)
unfolding check_code
check_code_once s s' now later code other ne e = elim (Bool-cases (ltb now s.locked_until)) [
  | inl l ↦ let h : (s, pairing_locked) ≡ (s', paired) = (rw l at e) in cc
  | inr l ↦
      let h : consume s now code (lookup code s.codes) ≡ (s', paired) = (rw l at e) in
      let (expires, (found, fresh, same)) = consume-paired s s' now code (lookup code s.codes) h in
      (
        ltb-ge now s.locked_until l,
        (expires, (found, fresh)),
        ap (λ (x : PairService). lookup other x.codes) same
            ∙ lookup-delete_ne other code s.codes ne,
        ap (λ (x : PairService). x.fail_count) same,
        absent-refused s' later code
            (ap (λ (x : PairService). lookup code x.codes) same ∙ lookup-delete_self code s.codes),
      )
]

init_lookup :
    (s : PairService) (now : ℕ) (code : String)
    → lookup code (purge now (insert code (now + pair_ttl) s.codes)) ≡ some (now + pair_ttl)
unfolding purge
init_lookup s now code =
    lookup-retain (λ expires. not (ltb expires now)) code (insert code (now + pair_ttl) s.codes)
    ∙ ap (kept (λ expires. not (ltb expires now)))
        (lookup-insert_self code (now + pair_ttl) s.codes)
    ∙ rw (le-ltb (now + pair_ttl) now (omega arith)) refl

-- A code that Init has just issued pairs when it is used within its two minutes, both ends included,
-- unless the service is locked at that time; the state that is left is the one Init left without the code,
-- and with no failures counted.
pub init_then_pair :
    (decimal : ℕ → String) (relay : Option RelayLink) (port : ℕ) (ip : String)
    → (s : PairService) (now later : ℕ) (code : String) → s.locked_until ≤ later
    → later ≤ now + pair_ttl
    → check_code (init decimal relay port ip s now code).0 later code ≡ (
      record (init decimal relay port ip s now code).0 {
        codes = delete code (init decimal relay port ip s now code).0.codes;
        fail_count = 0;
      },
      paired,
    )
unfolding check_code init consume
init_then_pair decimal relay port ip s now later code unlocked intime =
    rw
      (
        le-ltb later s.locked_until unlocked,
        init_lookup s now code,
        le-ltb (now + pair_ttl) later intime,
      )
      refl
