-- ===== src/Auth/Unique.antt =====
-- Session tokens are unique in the table of devices (device_repo.go).
use shell_sync.Base.{
  string_key, ℕ, ◌≤◌, ◌≡◌, refl, sym, ap, subst, ◌∙◌, ◌≢◌, Bool, true, false, ◌||◌, not, String,
  Option, none, some, List, [], ◌∷◌, ◌++◌, length, length-append, keep_if, keep_if-append, ◌==◌,
  All, arith, Bool-cases, inl, inr,
}
use shell_sync.Base.Dict.{Dict, lookup, insert}
use shell_sync.Store.{Database, Device, select, rows_of, has_key, is_some}
use shell_sync.Store.Devices.{
  create, new_device, revoke, remove, touch_last_seen, token_used, change,
}
use shell_sync.Store.Rows.{rows_of-insert, length-select_replaced, length-select-delete}

-- What happens to the table of devices.
pub data DeviceEvent : Type 0 where
  creates : String → String → String → String → String → ℕ → DeviceEvent
  revokes : String → DeviceEvent
  removes : String → DeviceEvent
  touches : String → ℕ → DeviceEvent

unfoldable pub step : Database → DeviceEvent → Database
step db (creates id user name platform token now) = (create db id user name platform token now).0
step db (revokes id) = (revoke db id).0
step db (removes id) = (remove db id).0
step db (touches id now) = touch_last_seen db id now

unfoldable pub run : Database → List DeviceEvent → Database
run db [] = db
run db (e ∷ es) = run (step db e) es

-- No event hands the token to a device.
unfoldable pub Spares : String → DeviceEvent → Type 0
Spares token (creates id user name platform t now) = t ≢ token
Spares token _ = Unit {0}

unfoldable pub NotIssued : String → List DeviceEvent → Type 0
NotIssued token [] = Unit {0}
NotIssued token (e ∷ es) = Spares token e × NotIssued token es

abbrev pub with_token : String → Device → Bool
with_token token d = d.session_token == token

-- No two rows have one token.
abbrev pub Unique : Database → Type 0
Unique db = (token : String) → length (select (with_token token) db.devices) ≤ 1

-- Every device with the token is revoked.
abbrev pub Banned : String → Database → Type 0
Banned token db = All (λ d. with_token token d ≡ true → d.revoked ≡ true) (rows_of db.devices)

pub unused :
    (t : Dict String Device) (token : String)
    → token_used t token ≡ false
    → select (with_token token) t ≡ []
unused t token h = empty (select (with_token token) t) h
  where
    empty :
        (ds : List Device)
        → (elim ds as (λ _. Bool) [ [] ↦ false | x ∷ xs ↦ true ]) ≡ false
        → ds ≡ []
    empty [] h = refl
    empty (x ∷ xs) h = cc

pub missing :
    {V : Type 0} (k : String) (t : Dict String V) → has_key k t ≡ false → lookup k t ≡ none
missing k t h = empty (lookup k t) h
  where
    empty : {V : Type 0} (o : Option V) → is_some o ≡ false → o ≡ none
    empty none h = refl
    empty (some x) h = cc

allowed : (a b c : Bool) → a || b || c ≡ false → (a ≡ false) × (b ≡ false)
allowed true b c h = cc
allowed false true c h = cc
allowed false false c h = (refl, refl)

pub select-new :
    (test : Device → Bool) (id : String) (v : Device) (t : Dict String Device)
    → lookup id t ≡ none
    → select test (insert id v t) ≡ select test t ++ keep_if test (v ∷ [])
select-new test id v t free =
    ap (keep_if test) (rows_of-insert id v t free) ∙ keep_if-append test (rows_of t) (v ∷ [])

at_most_one : (test : Device → Bool) (v : Device) → length (keep_if test (v ∷ [])) ≤ 1
at_most_one test v = elim (Bool-cases (test v)) [
  | inl e ↦ rw e (omega arith)
  | inr e ↦ rw e (omega arith)
]

Unique-create :
    (db : Database) (id user name platform token : String) (now : ℕ)
    → Unique db
    → Unique (create db id user name platform token now).0
unfolding create
Unique-create db id user name platform token now u other =
    elim (Bool-cases
      (has_key id db.devices || token_used db.devices token || not (has_key user db.users))) [
        | inl e ↦ rw e (u other)
        | inr e ↦
            let (free, new) =
              allowed (has_key id db.devices) (token_used db.devices token)
                (not (has_key user db.users)) e in
            let v : Device = new_device id user name platform token now in
            rw e (
              subst (λ (xs : List Device). length xs ≤ 1)
                (sym (select-new (with_token other) id v db.devices (missing id db.devices free)))
                (elim (Bool-cases (token == other)) [
                  | inl same ↦
                      rw
                        (ap (λ (x : String). select (with_token x) db.devices)
                            (sym ((string_key.same_iff token other).0 same))
                          ∙ unused db.devices token new)
                        (at_most_one (with_token other) v)
                  | inr apart ↦ rw apart (
                      omega
                        (arith, u other, length-append (select (with_token other) db.devices) []))
                ]))
      ]

Unique-change :
    (f : Device → Device) (db : Database) (id : String)
    → ((d : Device) → (f d).session_token ≡ d.session_token)
    → Unique db
    → Unique (change f (lookup id db.devices) db id).0
Unique-change f db id keeps u = by_row (lookup id db.devices) refl
  where
    by_row : (o : Option Device) → lookup id db.devices ≡ o → Unique (change f o db id).0
    by_row none e = u
    by_row (some d) e = λ token.
        subst (λ (n : ℕ). n ≤ 1)
          (sym (
            length-select_replaced (with_token token) id (f d) d db.devices e
              (ap (λ (t : String). t == token) (keeps d))))
          (u token)

Unique-remove : (db : Database) (id : String) → Unique db → Unique (remove db id).0
unfolding remove
Unique-remove db id u = elim (Bool-cases (has_key id db.devices)) [
  | inl e ↦
      rw e (λ token. omega (arith, u token, length-select-delete (with_token token) id db.devices))
  | inr e ↦ rw e u
]

Unique-step : (db : Database) (e : DeviceEvent) → Unique db → Unique (step db e)
unfolding step revoke touch_last_seen
Unique-step db (creates id user name platform token now) u =
    Unique-create db id user name platform token now u
Unique-step db (revokes id) u = Unique-change (λ d. record d { revoked = true }) db id (λ d. refl) u
Unique-step db (touches id now) u =
    Unique-change (λ d. record d { last_seen_at = now }) db id (λ d. refl) u
Unique-step db (removes id) u = Unique-remove db id u

pub Unique-run : (db : Database) (es : List DeviceEvent) → Unique db → Unique (run db es)
unfolding run
Unique-run db [] u = u
Unique-run db (e ∷ es) u = Unique-run (step db e) es (Unique-step db e u)
