-- ===== src/Wire/Mirror.antt =====
-- The daemon's copy of the data codec (daemon/internal/transport/relay/client.go, lines 66-85).
use Prim.Native.Nat.{bit_or}
use shell_sync.Base.{
  ℕ, ◌*◌, ◌/◌, ◌%◌, ◌^◌, List, [], ◌∷◌, ◌++◌, length, ◌==◌, nat_key, if◌then◌else◌,
}
use shell_sync.Wire.Data.{DataResult, ok, err, too_short, length_mismatch}

-- byte(v >> k)
abbrev pub byte_at : ℕ → ℕ → ℕ
byte_at v k = v / 2 ^ k % 256

-- The four bytes, most significant first.
abbrev pub shifted_bytes : ℕ → List ℕ
shifted_bytes v = byte_at v 24 ∷ byte_at v 16 ∷ byte_at v 8 ∷ v % 256 ∷ []

abbrev pub joined : ℕ → ℕ → ℕ → ℕ → ℕ
joined a b c d = bit_or (bit_or (bit_or (a * 2 ^ 24) (b * 2 ^ 16)) (c * 2 ^ 8)) d

unfoldable pub encode_data : ℕ → List ℕ → List ℕ
encode_data stream_id payload =
    shifted_bytes stream_id ++ (shifted_bytes (length payload % 2 ^ 32) ++ payload)

unfoldable pub decode_data : List ℕ → DataResult (ℕ × List ℕ)
decode_data (a ∷ b ∷ c ∷ d ∷ e ∷ f ∷ g ∷ h ∷ payload) =
    if joined e f g h == length payload then ok (joined a b c d, payload) else err length_mismatch
decode_data _ = err too_short
