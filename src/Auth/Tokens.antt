-- ===== src/Auth/Tokens.antt =====
-- A revoked device stays out (auth.go over device_repo.go).
use shell_sync.Base.{
  string_key, ℕ, ◌≤◌, ◌≡◌, refl, sym, subst, ◌≢◌, Bool, true, false, ◌&&◌, ◌||◌, not, String,
  Option, none, some, List, [], ◌∷◌, length, keep_if, if◌then◌else◌, ◌==◌, All, arith, Bool-cases,
  inl, inr,
}
use shell_sync.Base.Dict.{Dict, lookup, beq_ne, beq_self}
use shell_sync.Store.{Database, Device, select, rows_of, has_key}
use shell_sync.Store.Devices.{
  create, new_device, get_by_token, revoke, remove, touch_last_seen, token_used, change,
}
use shell_sync.Store.Rows.{All-insert, All-delete, All-insert_unique, All-lookup}
use shell_sync.Auth.{verify_token}
use shell_sync.Auth.Unique.{
  DeviceEvent, creates, revokes, removes, touches, step, run, Spares, NotIssued, with_token, Unique,
  Banned, Unique-run,
}

-- Neither a revocation nor a touch lifts a ban.
Banned-change :
    (f : Device → Device) (db : Database) (id token : String)
    → ((d : Device)
        → (with_token token d ≡ true → d.revoked ≡ true)
        → with_token token (f d) ≡ true
        → (f d).revoked ≡ true)
    → Banned token db
    → Banned token (change f (lookup id db.devices) db id).0
Banned-change f db id token keeps b = by_row (lookup id db.devices) refl
  where
    by_row : (o : Option Device) → lookup id db.devices ≡ o → Banned token (change f o db id).0
    by_row none e = b
    by_row (some d) e =
        All-insert (λ x. with_token token x ≡ true → x.revoked ≡ true) id (f d) db.devices
          (keeps d
            (All-lookup (λ x. with_token token x ≡ true → x.revoked ≡ true) id d db.devices e b))
          b

Banned-create :
    (db : Database) (id user name platform token banned : String) (now : ℕ)
    → token ≢ banned
    → Banned banned db
    → Banned banned (create db id user name platform token now).0
unfolding create
Banned-create db id user name platform token banned now ne b =
    elim (Bool-cases
      (has_key id db.devices || token_used db.devices token || not (has_key user db.users))) [
        | inl e ↦ rw e b
        | inr e ↦ rw e (
            All-insert (λ x. with_token banned x ≡ true → x.revoked ≡ true) id
              (new_device id user name platform token now) db.devices
              (λ same. absurd (ne ((string_key.same_iff token banned).0 same))) b)
      ]

Banned-remove :
    (db : Database) (id token : String) → Banned token db → Banned token (remove db id).0
unfolding remove
Banned-remove db id token b = elim (Bool-cases (has_key id db.devices)) [
  | inl e ↦ rw e (All-delete (λ x. with_token token x ≡ true → x.revoked ≡ true) id db.devices b)
  | inr e ↦ rw e b
]

Banned-step :
    (db : Database) (token : String) (e : DeviceEvent)
    → Spares token e
    → Banned token db
    → Banned token (step db e)
unfolding step Spares revoke touch_last_seen
Banned-step db token (creates id user name platform t now) ne b =
    Banned-create db id user name platform t token now ne b
Banned-step db token (revokes id) n b =
    Banned-change (λ d. record d { revoked = true }) db id token (λ d h s. refl) b
Banned-step db token (touches id now) n b =
    Banned-change (λ d. record d { last_seen_at = now }) db id token (λ d h s. h s) b
Banned-step db token (removes id) n b = Banned-remove db id token b

Banned-run :
    (db : Database) (token : String) (es : List DeviceEvent)
    → NotIssued token es
    → Banned token db
    → Banned token (run db es)
unfolding run NotIssued
Banned-run db token [] n b = b
Banned-run db token (e ∷ es) (ne, n) b =
    Banned-run (step db e) token es n (Banned-step db token e ne b)

pub no_match :
    (token : String) (rs : List Device)
    → All (λ d. with_token token d ≡ true → d.revoked ≡ true) rs
    → keep_if (λ d. d.session_token == token && not d.revoked) rs ≡ []
no_match token [] a = refl
no_match token (d ∷ rs) (p, a) =
    rw (out (d.session_token == token) d.revoked p) (no_match token rs a)
  where
    out : (s r : Bool) → (s ≡ true → r ≡ true) → s && not r ≡ false
    out true r p = rw (p refl) refl
    out false r p = refl

Banned-refused :
    (lock token : String) (db : Database)
    → token ≢ lock
    → Banned token db
    → verify_token lock db token ≡ none
unfolding verify_token get_by_token
Banned-refused lock token db ne b =
    rw (beq_ne token lock ne, no_match token (rows_of db.devices) b) (either (token == ""))
  where
    either : (c : Bool) → ◌≡◌ {A = Option String} (if c then none else none) none
    either true = refl
    either false = refl

-- Start with no devices, and let devices be paired, revoked, removed and touched in any order. If a device
-- is then revoked, its token is refused from that moment on, whatever happens to the devices
-- afterwards, provided no device is given that token again and it is not the daemon's local token.
pub revoked_refused :
    (lock id : String) (db : Database) (before after : List DeviceEvent) (d : Device)
    → db.devices ≡ []
    → lookup id (run db before).devices ≡ some d
    → d.session_token ≢ lock
    → NotIssued d.session_token after
    → verify_token lock (run (revoke (run db before) id).0 after) d.session_token ≡ none
unfolding revoke
revoked_refused lock id db before after d none_yet found ne n =
    Banned-refused lock d.session_token _ ne (
      Banned-run _ d.session_token after n (
        subst
          (λ (o : Option Device).
            Banned d.session_token (change (λ x. record x { revoked = true }) o db1 id).0)
          (sym found)
          (All-insert_unique (with_token d.session_token) (λ x. x.revoked ≡ true) id
            (record d { revoked = true }) d db1.devices found (beq_self d.session_token)
            (unique d.session_token) refl)))
  where
    db1 : Database
    db1 = run db before

    unique : Unique db1
    unique = Unique-run db before (λ token.
        subst (λ (t : Dict String Device). length (select (with_token token) t) ≤ 1) (sym none_yet)
          (omega arith))
