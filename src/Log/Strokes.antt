-- ===== src/Log/Strokes.antt =====
-- A backend to run the log with: a text encoding that writes a number as so many strokes and a bar.
use shell_sync.Base.{
  ℕ, zero, suc, ◌+◌, ◌≡◌, refl, ap, ◌∙◌, true, String, List, [], ◌∷◌, nat_eqb, if◌then◌else◌, arith,
}
use Prim.Native.Char.{code}
use Prim.Native.String as S
use shell_sync.Log.{Backend}

abbrev pub put : ℕ → String → String
put zero s = S.◌∷◌ "b" s
put (suc n) s = S.◌∷◌ "a" (put n s)

abbrev pub write : List ℕ → String
write [] = S.[]
write (n ∷ ns) = put n (write ns)

abbrev read_from : String → ℕ → List ℕ
read_from S.[] acc = []
read_from (S.◌∷◌ c s) acc =
    if nat_eqb (code c) b'a' then read_from s (suc acc) else acc ∷ read_from s 0

abbrev pub read : String → List ℕ
read s = read_from s 0

read_from-put : (n acc : ℕ) (s : String) → read_from (put n s) acc ≡ (acc + n) ∷ read_from s 0
read_from-put zero acc s = ap (λ (m : ℕ). m ∷ read_from s 0) (omega arith)
read_from-put (suc n) acc s =
    read_from-put n (suc acc) s ∙ ap (λ (m : ℕ). m ∷ read_from s 0) (omega arith)

zero_plus : (n : ℕ) → 0 + n ≡ n
zero_plus n = omega arith

pub read-write : (ns : List ℕ) → read (write ns) ≡ ns
read-write [] = refl
read-write (n ∷ ns) =
    read_from-put n 0 (write ns)
    ∙ ap (λ (m : ℕ). m ∷ read (write ns)) (zero_plus n)
    ∙ ap (◌∷◌ n) (read-write ns)

abbrev pub backend : Backend
backend = record {
  encode = write;
  grid_json = λ cols rows. cols ∷ rows ∷ [];
  clock = λ seq. 1000 + seq;
  accepts = λ seq. true;
}
