-- ===== src/Relay/Hub/Claims.antt =====
-- Pairing codes: what a daemon may advertise, and what a claim binds (handleCode, handleClaim).
use shell_sync.Base.{
  ℕ, ◌+◌, ◌≤◌, ◌<◌, ◌≡◌, refl, ap, ◌≢◌, ◌⊎◌, Bool, true, false, not, String, Option, none, some,
  nat_key, string_key, arith, Bool-cases, inl, inr,
}
use shell_sync.Base.Dict.{
  lookup, insert, delete, retain, lookup-delete-some, lookup-delete_self, lookup-insert_cases,
  lookup-insert_self, lookup-insert_ne, lookup-retain, kept, beq_ne,
}
use shell_sync.Wire.Control.{Frame}
use shell_sync.Relay.Limiter.{Limiter, allow}
use shell_sync.Relay.Hub.{
  Hub, Metrics, daemon, client, CodeEntry, is_client, session_at, valid_token, max_code_len,
  max_code_ttl,
}
use shell_sync.Relay.Hub.Net.{send, close_session, fail, error_frame}
use shell_sync.Relay.Hub.Handlers.{
  code_ttl, expired, put_code, handle_code, use_code, handle_claim, limiter_of,
}
use shell_sync.Relay.Hub.Same.{send-Same}
use shell_sync.Relay.Hub.Closing.{close_session-claimed}

code_ttl_bounds : (n : ℕ) → (0 < code_ttl n) × (code_ttl n ≤ max_code_ttl)
unfolding code_ttl
code_ttl_bounds n = ground arith

-- A registered daemon that advertises a well-formed code, with any lifetime at all, has it recorded
-- under its own device id, to expire after more than no time and at most ten minutes; any other code is
-- kept exactly if it has not expired.
pub handle_code_records :
    (up : ℕ → ℕ → Bool) (h : Hub) (s : ℕ) (f : Frame) (now : ℕ) (other : String)
    → (session_at h s).role ≡ daemon
    → (session_at h s).dev_id ≢ ""
    → valid_token f.code_text max_code_len ≡ true
    → f.code_text ≢ other
    → let codes = (handle_code up h s f now).codes in
      (lookup f.code_text codes
        ≡ some (record { owner = (session_at h s).dev_id; expires_at = now + code_ttl f.ttl }))
      × (0 < code_ttl f.ttl)
      × (code_ttl f.ttl ≤ max_code_ttl)
      × (lookup other codes ≡ kept (λ e. not (expired now e)) (lookup other h.codes))
handle_code_records up h s f now other r d t ne = (recorded, lo, hi, others)
  where
    lo : 0 < code_ttl f.ttl
    lo = (code_ttl_bounds f.ttl).0

    hi : code_ttl f.ttl ≤ max_code_ttl
    hi = (code_ttl_bounds f.ttl).1

    entry : CodeEntry
    entry = record { owner = (session_at h s).dev_id; expires_at = now + code_ttl f.ttl }

    codes :
        (handle_code up h s f now).codes
        ≡ retain (λ e. not (expired now e)) (insert f.code_text entry h.codes)
    codes =
        unfold handle_code put_code in
        rw (r, beq_ne (session_at h s).dev_id "" d, t) (send-Same up _ s _).codes

    recorded : lookup f.code_text (handle_code up h s f now).codes ≡ some entry
    recorded =
        rw (codes, lookup-retain, lookup-insert_self f.code_text entry h.codes) (ground arith)

    others :
        lookup other (handle_code up h s f now).codes
        ≡ kept (λ e. not (expired now e)) (lookup other h.codes)
    others = rw (codes, lookup-retain, lookup-insert_ne other f.code_text entry h.codes ne) refl

module _ (up : ℕ → ℕ → Bool) (t : ℕ) (dev : String) where
  fail-claimed :
      (h : Hub) (s : ℕ) (code why : String)
      → lookup t (fail up h s code why).claimed ≡ some dev
      → lookup t h.claimed ≡ some dev
  unfolding fail
  fail-claimed h s code why e =
      rw (send-Same up h s (error_frame code why)).claimed at
        (closed (send up h s (error_frame code why)) e)
    where
      closed :
          (k : Hub)
          → lookup t (close_session up k s).claimed ≡ some dev
          → lookup t k.claimed ≡ some dev
      closed k e = elim (Bool-cases (session_at k s).closed) [
        | inl c ↦ unfold close_session in rw c at e
        | inr c ↦
            (lookup-delete-some t s dev k.claimed (rw (close_session-claimed up k s c) at e)).1
      ]

  -- What ties a session to a device after a claim: it was tied before, or the code paid for it.
  abbrev pub Paid : Option CodeEntry → Hub → ℕ → String → ℕ → Hub → Type 0
  Paid o h s code now h' =
      (lookup t h.claimed ≡ some dev)
      ⊎ ((e : CodeEntry) × (s ≡ t)
          × (o ≡ some e)
          × (e.owner ≡ dev)
          × (now ≤ e.expires_at)
          × (lookup code h'.codes ≡ none))

  use_code-Paid :
      (o : Option CodeEntry) (h : Hub) (s : ℕ) (code : String) (now : ℕ)
      → lookup t (use_code up o h s code now).claimed ≡ some dev
      → Paid o h s code now (use_code up o h s code now)
  unfolding use_code
  use_code-Paid none h s code now e = inl (fail-claimed h s _ _ e)
  use_code-Paid (some c) h s code now e = elim (Bool-cases (expired now c)) [
    | inl late ↦ inl (fail-claimed (record h { codes = delete code h.codes }) s _ _ (rw late at e))
    | inr live ↦
        elim (lookup-insert_cases t s c.owner dev h.claimed
          (rw (send-Same up bound s _).claimed at (rw live at e))) [
            | inr old ↦ inl old
            | inl (same, owner) ↦ inr (
              c,
              same,
              refl,
              owner,
              ground arith,
              rw live (rw (send-Same up bound s _).codes (lookup-delete_self code h.codes)),
            )
          ]
  ]
    where
      bound : Hub
      bound = record h {
        codes = delete code h.codes;
        claimed = insert s c.owner h.claimed;
        metrics = record h.metrics { claim_hit = h.metrics.claim_hit + 1 };
      }

  -- A claim frame of a session s binds a session to a device only if that session was bound to it
  -- already, or is s itself, and the code of the frame was live, belonged to that device and is consumed
  -- by the claim.
  pub claim-Paid :
      (h : Hub) (s : ℕ) (f : Frame) (now : ℕ)
      → lookup t (handle_claim up h s f now).claimed ≡ some dev
      → Paid (lookup f.code_text h.codes) h s f.code_text now (handle_claim up h s f now)
  unfolding handle_claim
  claim-Paid h s f now e = elim (Bool-cases (not (is_client (session_at h s).role))) [
    | inl r ↦ inl (fail-claimed h s _ _ (rw r at e))
    | inr r ↦ elim (Bool-cases (allow lim now).1) [
      | inl g ↦
          rw (r, g)
            (use_code-Paid (lookup f.code_text h.codes)
              (record limited { metrics = record h.metrics { claims = h.metrics.claims + 1 } }) s
              f.code_text now (rw (r, g) at e))
      | inr g ↦ inl (fail-claimed limited s _ _ (rw (r, g) at e))
    ]
  ]
    where
      lim : Limiter
      lim = limiter_of (lookup (session_at h s).remote_ip h.limiters)

      limited : Hub
      limited = record h {
        limiters = insert (session_at h s).remote_ip (allow lim now).0 h.limiters;
      }

-- A phone whose address is within its budget and that claims a live code of a device is bound to the
-- device, the code is gone, and the hit is counted.
pub claim_binds :
    (up : ℕ → ℕ → Bool) (h : Hub) (s : ℕ) (f : Frame) (now : ℕ) (e : CodeEntry)
    → (session_at h s).role ≡ client
    → (allow (limiter_of (lookup (session_at h s).remote_ip h.limiters)) now).1 ≡ true
    → lookup f.code_text h.codes ≡ some e
    → now ≤ e.expires_at
    → (lookup s (handle_claim up h s f now).claimed ≡ some e.owner)
      × (lookup f.code_text (handle_claim up h s f now).codes ≡ none)
      × ((handle_claim up h s f now).metrics.claim_hit ≡ h.metrics.claim_hit + 1)
unfolding handle_claim use_code
claim_binds up h s f now e r g l live = rw r (
    rw (g, l)
      (rw (use_code, alive)
        (
          rw (send-Same up _ s _).claimed (lookup-insert_self s e.owner h.claimed),
          rw (send-Same up _ s _).codes (lookup-delete_self f.code_text h.codes),
          ap (λ (m : Metrics). m.claim_hit) (send-Same up _ s _).metrics,
        )))
  where
    alive : expired now e ≡ false
    alive = ground arith
