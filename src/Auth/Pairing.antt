-- ===== src/Auth/Pairing.antt =====
-- From a pairing code to a token that is accepted (pair.go Verify, device_repo.go Create, auth.go Verify).
use shell_sync.Base.{
  string_key, ℕ, ◌≡◌, refl, sym, ap, ◌∙◌, ◌≢◌, Bool, true, false, ◌&&◌, not, String, Option, none,
  some, List, [], ◌∷◌, ◌++◌, keep_if, if◌then◌else◌, ◌==◌, Bool-cases, inl, inr,
}
use shell_sync.Base.Dict.{insert, beq_ne, beq_self}
use shell_sync.Store.{Database, Device, Result, ok, select, rows_of, has_key, first}
use shell_sync.Store.Devices.{create, new_device, get_by_token, token_used}
use shell_sync.Pair.{PairService, VerifyResult, verified, paired, check_code, verify, conclude}
use mathlib.Core.List.{append-nil}
use shell_sync.Auth.{default_user_id, verify_token, owner, issued, settle, pair_device}
use shell_sync.Auth.Unique.{select-new, unused, missing}

-- A token that is in use by no device, nor the daemon's own.
pub record Fresh (lock_token : String) (db : Database) (id user token : String) : Type 0 where
  pub new_id : has_key id db.devices ≡ false
  pub new_token : token_used db.devices token ≡ false
  pub known_user : has_key user db.users ≡ true
  pub named : id ≢ ""
  pub not_empty : token ≢ ""
  pub not_local : token ≢ lock_token

usable : String → Device → Bool
usable token d = d.session_token == token && not d.revoked

narrow :
    (token : String) (ds : List Device)
    → keep_if (λ d. d.session_token == token) ds ≡ []
    → keep_if (usable token) ds ≡ []
unfolding usable
narrow token [] h = refl
narrow token (d ∷ ds) h = elim (Bool-cases (d.session_token == token)) [
  | inl e ↦ clash (rw e at h)
  | inr e ↦ rw e (narrow token ds (rw e at h))
]
  where
    clash : {P : Type 0} {xs : List Device} → d ∷ xs ≡ [] → P
    clash h = cc

verify-paired :
    {D : Type 0} (create : String → Option D) (d : D) (s s' : PairService) (now : ℕ)
    (code token : String)
    → create token ≡ some d
    → check_code s now code ≡ (s', paired)
    → verify create s now code token ≡ (s', verified token d)
unfolding verify conclude
verify-paired create d s s' now code token c e = ap (conclude create token) e ∙ rw c refl

module _ (lock_token : String) (db : Database) (id user name platform token : String) (stamp : ℕ)
    (fresh : Fresh lock_token db id user token) where
  device : Device
  device = new_device id user name platform token stamp

  stored : Database
  stored = record db { devices = insert id device db.devices }

  create-ok : create db id user name platform token stamp ≡ (stored, ok device)
  unfolding create stored device
  create-ok = rw (fresh.new_id, fresh.new_token, fresh.known_user) refl

  by_token :
      (t : String)
      → get_by_token stored t
        ≡ first (select (usable t) db.devices ++ keep_if (usable t) (device ∷ []))
  unfolding get_by_token stored usable
  by_token t =
      ap first (select-new (usable t) id device db.devices (missing id db.devices fresh.new_id))

  none_usable : select (usable token) db.devices ≡ []
  none_usable = narrow token (rows_of db.devices) (unused db.devices token fresh.new_token)

  own_row : owner (first (keep_if (usable token) (device ∷ []))) ≡ some user
  unfolding usable device
  own_row = rw (beq_self token) (rw (beq_ne id "" fresh.named) refl)

  accepted : verify_token lock_token stored token ≡ some user
  unfolding verify_token
  accepted =
      rw (beq_ne token "" fresh.not_empty) (
        rw (beq_ne token lock_token fresh.not_local) (rw (by_token token) (rw none_usable own_row)))

  result :
      (s s' : PairService) (now : ℕ) (code : String)
      → check_code s now code ≡ (s', paired)
      → pair_device s db now code user name platform token id stamp
        ≡ (s', stored, verified token device)
  unfolding pair_device settle
  result s s' now code e =
      ap (λ (p : Database × Result Device). settle db p.0 (verify (issued p.1) s now code token))
        create-ok
      ∙ ap (settle db stored) (verify-paired (issued (ok device)) device s s' now code token refl e)

  foreign : (t : String) → t ≢ token → keep_if (usable t) (device ∷ []) ≡ []
  unfolding usable device
  foreign t ne = rw (beq_ne token t (λ e. ne (sym e))) refl

  others :
      (t : String) → t ≢ token → verify_token lock_token stored t ≡ verify_token lock_token db t
  unfolding verify_token get_by_token usable
  others t ne =
      ap
        (λ (r : Result Device).
          if t == "" then none else if t == lock_token then some default_user_id else owner r)
        (by_token t
          ∙ ap first (ap (◌++◌ (select (usable t) db.devices)) (foreign t ne) ∙ append-nil _))

  -- When an attempt to pair succeeds, and the new device's id and token are in use nowhere, the user is known
  -- and the token is not the local one, the device is stored and the caller gets the token and the
  -- device; from then on the token stands for the user, and what every other token stands for is as before.
  pub paired_token_accepted :
      (s s' : PairService) (now : ℕ) (code : String)
      → check_code s now code ≡ (s', paired)
      → (pair_device s db now code user name platform token id stamp ≡ (
        s',
        record db { devices = insert id (new_device id user name platform token stamp) db.devices },
        verified token (new_device id user name platform token stamp),
      ))
        × (verify_token lock_token
              (pair_device s db now code user name platform token id stamp).1
              token
            ≡ some user)
        × ((other : String)
            → other ≢ token
            → verify_token lock_token
                (pair_device s db now code user name platform token id stamp).1
                other
              ≡ verify_token lock_token db other)
  unfolding stored device
  paired_token_accepted s s' now code e = (
    result s s' now code e,
    ap (λ (p : PairService × Database × VerifyResult Device). verify_token lock_token p.1 token)
          (result s s' now code e)
        ∙ accepted,
    λ other ne.
        ap (λ (p : PairService × Database × VerifyResult Device). verify_token lock_token p.1 other)
          (result s s' now code e)
        ∙ others other ne,
  )
