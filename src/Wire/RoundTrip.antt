-- ===== src/Wire/RoundTrip.antt =====
-- The data codecs of the relay (server/relay/frame.go) and of the daemon (daemon/internal/transport/relay/client.go).
use shell_sync.Base.{ℕ, ◌+◌, ◌*◌, ◌/◌, ◌%◌, ◌^◌, ◌≤◌, ◌≡◌, List, [], ◌∷◌, ◌++◌, length, arith, All}
use shell_sync.Wire.Bits.{bit_or_low}
use shell_sync.Wire.Data.{ok, IsU32, IsByte, max_chunk, encode_data, decode_data, put_u32, get_u32}
use shell_sync.Wire.Mirror
use shell_sync.Wire.Mirror.{joined}

get_u32-put_u32 :
    (v : ℕ)
    → IsU32 v
    → get_u32 (v / 2 ^ 24 % 256) (v / 2 ^ 16 % 256) (v / 2 ^ 8 % 256) (v % 256) ≡ v
get_u32-put_u32 v h = omega arith

put_u32-get_u32 :
    (a b c d : ℕ)
    → IsByte a
    → IsByte b
    → IsByte c
    → IsByte d
    → put_u32 (get_u32 a b c d) ≡ a ∷ b ∷ c ∷ d ∷ []
put_u32-get_u32 a b c d ha hb hc hd = ground arith

joined-get_u32 : (a b c d : ℕ) → IsByte b → IsByte c → IsByte d → joined a b c d ≡ get_u32 a b c d
joined-get_u32 a b c d hb hc hd = rw (bit_or_low 24 a (b * 2 ^ 16) (omega arith)) (
    rw (regroup, bit_or_low 16 (a * 2 ^ 8 + b) (c * 2 ^ 8) (omega arith))
      (rw (regroup', bit_or_low 8 ((a * 2 ^ 8 + b) * 2 ^ 8 + c) d (omega arith)) (omega arith)))
  where
    regroup : a * 2 ^ 24 + b * 2 ^ 16 ≡ (a * 2 ^ 8 + b) * 2 ^ 16
    regroup = omega arith

    regroup' : (a * 2 ^ 8 + b) * 2 ^ 16 + c * 2 ^ 8 ≡ ((a * 2 ^ 8 + b) * 2 ^ 8 + c) * 2 ^ 8
    regroup' = omega arith

-- For a stream id of 32 bits and a payload of at most 32 KiB, the server's encoder succeeds, and
-- decoding its result gives the id and the payload back.
pub decode_data-encode_data :
    (id : ℕ) (payload : List ℕ)
    → IsU32 id
    → length payload ≤ max_chunk
    → (b : List ℕ) × (encode_data id payload ≡ ok b) × (decode_data b ≡ ok (id, payload))
unfolding encode_data decode_data
decode_data-encode_data id payload hid hlen = (
  put_u32 id ++ (put_u32 (length payload % 2 ^ 32) ++ payload),
  ground arith,
  ground (arith, get_u32-put_u32 id hid, get_u32-put_u32 (length payload) (omega arith)),
)

-- The decoder is exact: on bytes, what it accepts is the encoding of what it returns, the id fits 32
-- bits and the payload is at most 32 KiB long.
pub encode_data-decode_data :
    (b : List ℕ) (id : ℕ) (payload : List ℕ)
    → All IsByte b
    → decode_data b ≡ ok (id, payload)
    → (encode_data id payload ≡ ok b) × IsU32 id × (length payload ≤ max_chunk)
unfolding encode_data decode_data
encode_data-decode_data (a ∷ b ∷ c ∷ d ∷ e ∷ f ∷ g ∷ h ∷ rest) id payload hb p =
    let hc = hb.1.1.1.1 in
    ground (
      arith,
      put_u32-get_u32 a b c d hb.0 hb.1.0 hb.1.1.0 hb.1.1.1.0,
      put_u32-get_u32 e f g h hc.0 hc.1.0 hc.1.1.0 hc.1.1.1.0,
    )
encode_data-decode_data _ id payload hb p = cc

decoders_agree :
    (b : List ℕ) (r : ℕ × List ℕ)
    → All IsByte b
    → decode_data b ≡ ok r
    → Mirror.decode_data b ≡ ok r
unfolding decode_data Mirror.decode_data
decoders_agree (a ∷ b ∷ c ∷ d ∷ e ∷ f ∷ g ∷ h ∷ rest) r hb p =
    let hc = hb.1.1.1.1 in
    ground (
      arith,
      joined-get_u32 a b c d hb.1.0 hb.1.1.0 hb.1.1.1.0,
      joined-get_u32 e f g h hc.1.0 hc.1.1.0 hc.1.1.1.0,
    )
decoders_agree _ r hb p = cc

-- The daemon's codec agrees with the server's: for a payload of at most 32 KiB the encoders write the
-- same bytes, and bytes that the server's decoder accepts the daemon's decodes to the same pair.
pub codecs_agree :
    (id : ℕ) (payload b : List ℕ) (r : ℕ × List ℕ)
    → length payload ≤ max_chunk
    → All IsByte b
    → decode_data b ≡ ok r
    → (encode_data id payload ≡ ok (Mirror.encode_data id payload)) × (Mirror.decode_data b ≡ ok r)
unfolding encode_data Mirror.encode_data
codecs_agree id payload b r h hb p = (ground arith, decoders_agree b r hb p)
