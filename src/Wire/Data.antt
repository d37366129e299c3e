-- ===== src/Wire/Data.antt =====
-- Data frames of the relay server (frame.go, lines 55-57 and 107-133). A byte is a number below 256, a
-- uint32 a number below 2 ^ 32; encoding/binary's big-endian words are written out.
use shell_sync.Base.{
  ℕ, ◌+◌, ◌*◌, ◌/◌, ◌%◌, ◌^◌, ◌<◌, List, [], ◌∷◌, ◌++◌, length, ltb, ◌==◌, nat_key, if◌then◌else◌,
}

abbrev pub max_chunk : ℕ
max_chunk = 32 * 1024

abbrev pub IsByte : ℕ → Type 0
IsByte b = b < 256

abbrev pub IsU32 : ℕ → Type 0
IsU32 v = v < 2 ^ 32

-- binary.BigEndian.PutUint32 and Uint32.
abbrev pub put_u32 : ℕ → List ℕ
put_u32 v = v / 2 ^ 24 % 256 ∷ v / 2 ^ 16 % 256 ∷ v / 2 ^ 8 % 256 ∷ v % 256 ∷ []

abbrev pub get_u32 : ℕ → ℕ → ℕ → ℕ → ℕ
get_u32 a b c d = a * 2 ^ 24 + b * 2 ^ 16 + c * 2 ^ 8 + d

pub data DataError : Type 0 where
  chunk_too_large too_short header_too_large length_mismatch : DataError

pub data DataResult {ℓ} (A : Type ℓ) : Type ℓ where
  ok : A → DataResult A
  err : DataError → DataResult A

unfoldable pub encode_data : ℕ → List ℕ → DataResult (List ℕ)
encode_data stream_id payload =
    if ltb max_chunk (length payload)
    then err chunk_too_large
    else ok (put_u32 stream_id ++ (put_u32 (length payload % 2 ^ 32) ++ payload))

-- The checks behind the length of the header: n is the header's length field.
abbrev pub checked : ℕ → ℕ → List ℕ → DataResult (ℕ × List ℕ)
checked stream_id n payload =
    if ltb max_chunk n
    then err header_too_large
    else (if n == length payload then ok (stream_id, payload) else err length_mismatch)

unfoldable pub decode_data : List ℕ → DataResult (ℕ × List ℕ)
decode_data (a ∷ b ∷ c ∷ d ∷ e ∷ f ∷ g ∷ h ∷ payload) =
    checked (get_u32 a b c d) (get_u32 e f g h) payload
decode_data _ = err too_short
