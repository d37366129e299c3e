-- ===== src/Wire/Tests.antt =====
-- The data codecs at concrete frames.
use shell_sync.Base.{ℕ, ◌≤◌, ◌≡◌, refl, List, [], ◌∷◌, length, arith}
use shell_sync.Wire.Data.{ok, err, too_short, IsU32, max_chunk, encode_data, decode_data}
use shell_sync.Wire.RoundTrip.{decode_data-encode_data, encode_data-decode_data, codecs_agree}
use shell_sync.Wire.Mirror

abbrev wire : List ℕ
wire = 0 ∷ 0 ∷ 1 ∷ 2 ∷ 0 ∷ 0 ∷ 0 ∷ 3 ∷ 10 ∷ 20 ∷ 30 ∷ []

abbrev body : List ℕ
body = 10 ∷ 20 ∷ 30 ∷ []

short_header : decode_data (1 ∷ 2 ∷ 3 ∷ []) ≡ err too_short
unfolding decode_data
short_header = refl

decode_data-encode_data_example :
    (b : List ℕ) × (encode_data 258 body ≡ ok b) × (decode_data b ≡ ok (258, body))
decode_data-encode_data_example = decode_data-encode_data 258 body (omega arith) (omega arith)

encode_data-decode_data_example :
    (encode_data 258 body ≡ ok wire) × IsU32 258 × (length body ≤ max_chunk)
unfolding decode_data
encode_data-decode_data_example = encode_data-decode_data wire 258 body (omega arith) refl

codecs_agree_example :
    (encode_data 7 body ≡ ok (Mirror.encode_data 7 body))
    × (Mirror.decode_data wire ≡ ok (258, body))
unfolding decode_data
codecs_agree_example = codecs_agree 7 body wire (258, body) (omega arith) (omega arith) refl
