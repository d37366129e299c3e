-- ===== src/Relay/Hub/Links.antt =====
-- The tables of streams: what removing an id, and taking the pipes of a session, does to each entry.
use shell_sync.Base.{
  ℕ, ◌≤◌, ◌≡◌, refl, ◌≢◌, Bool, false, ◌||◌, none, List, [], ◌∷◌, ◌++◌, length, ◌==◌, nat_key,
  if◌then◌else◌, arith, Option-cases, inl, inr,
}
use shell_sync.Base.Dict.{Dict, lookup, delete, lookup-insert, lookup-delete}
use shell_sync.Relay.Hub.{
  Pipe, or_empty, remove_first, remove_in, remove_session_stream, take_pipes,
}

unfoldable pub contains : ℕ → List ℕ → Bool
contains x [] = false
contains x (y ∷ ys) = y == x || contains x ys

-- The ids that by_sess holds for a session.
abbrev pub ids_at : Dict ℕ (List ℕ) → ℕ → List ℕ
ids_at m s = or_empty (lookup s m)

pub contains-append :
    (x y : ℕ) (xs : List ℕ) → contains x (xs ++ y ∷ []) ≡ (contains x xs || y == x)
unfolding contains
contains-append x y [] = ground arith
contains-append x y (z ∷ xs) = ground (arith, contains-append x y xs)

contains-remove_first :
    (x id : ℕ) (xs : List ℕ) → x ≢ id → contains x (remove_first id xs) ≡ contains x xs
unfolding contains remove_first
contains-remove_first x id [] h = refl
contains-remove_first x id (y ∷ xs) h = ground (arith, contains-remove_first x id xs h)

length-remove_first : (id : ℕ) (xs : List ℕ) → length (remove_first id xs) ≤ length xs
unfolding remove_first
length-remove_first id [] = omega arith
length-remove_first id (y ∷ xs) = ground (arith, length-remove_first id xs)

pub ids_at-remove_session_stream :
    (t s id : ℕ) (m : Dict ℕ (List ℕ))
    → ids_at (remove_session_stream s id m) t
      ≡ (if s == t then remove_first id (ids_at m t) else ids_at m t)
unfolding remove_session_stream
ids_at-remove_session_stream t s id m = elim (Option-cases (lookup s m)) [
  | inl e ↦ rw (e, remove_in) (ground (arith, e, nat_empty t))
  | inr (ids, e) ↦ rw (e, remove_in) (rw lookup-insert (ground (arith, e)))
]
  where
    nat_empty : (u : ℕ) → remove_first id [] ≡ []
    nat_empty u = unfold remove_first in refl

pub contains-remove_session_stream :
    (x t s id : ℕ) (m : Dict ℕ (List ℕ))
    → x ≢ id
    → contains x (ids_at (remove_session_stream s id m) t) ≡ contains x (ids_at m t)
contains-remove_session_stream x t s id m h =
    ground (arith, ids_at-remove_session_stream t s id m, contains-remove_first x id (ids_at m t) h)

pub length-remove_session_stream :
    (t s id : ℕ) (m : Dict ℕ (List ℕ))
    → length (ids_at (remove_session_stream s id m) t) ≤ length (ids_at m t)
length-remove_session_stream t s id m =
    ground (arith, ids_at-remove_session_stream t s id m, length-remove_first id (ids_at m t))

-- Taking the pipes of some ids removes exactly these.
pub lookup-take_pipes :
    (x : ℕ) (ids : List ℕ) (m : Dict ℕ Pipe)
    → lookup x (take_pipes ids m).1 ≡ (if contains x ids then none else lookup x m)
unfolding take_pipes contains
lookup-take_pipes x [] m = refl
lookup-take_pipes x (id ∷ ids) m =
    ground (arith, lookup-take_pipes x ids (delete id m), lookup-delete x id m)
