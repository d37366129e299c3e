-- ===== src/Wire/Control.antt =====
-- Control frames (frame.go, lines 34-105). JSON is the library's: a decoder and an encoder are
-- parameters. The field t of a frame is its type.
use shell_sync.Base.{ℕ, ◌*◌, String, Option, none, some, List, [], ◌∷◌, length, ltb, if◌then◌else◌}

pub data FrameType : Type 0 where
  empty hello reg code claim open_stream accept close error : FrameType
  other : String → FrameType

-- ver, ts and ttl are Go integers: numbers below 2 ^ 64 that stand for their two's complement.
pub record Frame : Type 0 where
  pub t : FrameType
  pub role : String
  pub ver : ℕ
  pub dev_id : String
  pub sign : String
  pub nonce : String
  pub ts : ℕ
  pub code_text : String
  pub ttl : ℕ
  pub stream_id : ℕ
  pub why : String

-- The frame whose every other field has Go's zero value.
abbrev pub frame : FrameType → Frame
frame t = record {
  t = t;
  role = "";
  ver = 0;
  dev_id = "";
  sign = "";
  nonce = "";
  ts = 0;
  code_text = "";
  ttl = 0;
  stream_id = 0;
  why = "";
}

abbrev pub protocol_version : ℕ
protocol_version = 1

abbrev pub max_control_size : ℕ
max_control_size = 16 * 1024

pub data ControlError : Type 0 where
  missing_type empty_frame too_large bad_json unknown_type : ControlError

pub data Decoded {ℓ} (A : Type ℓ) : Type ℓ where
  ok : A → Decoded A
  err : ControlError → Decoded A

module _ (marshal : Frame → Option (List ℕ)) where
  unfoldable pub encode_control : Frame → Decoded (List ℕ)
  encode_control f = elim f.t [
    | empty ↦ err missing_type
    | _ ↦ elim (marshal f) [ some b ↦ ok b | none ↦ err bad_json ]
  ]

known_type : FrameType → Frame → Decoded Frame
known_type empty f = err unknown_type
known_type (other s) f = err unknown_type
known_type _ f = ok f

module _ (unmarshal : List ℕ → Option Frame) where
  unfoldable pub decode_control : List ℕ → Decoded Frame
  unfolding known_type
  decode_control [] = err empty_frame
  decode_control (x ∷ b) =
      if ltb max_control_size (length (x ∷ b))
      then err too_large
      else (elim (unmarshal (x ∷ b)) [ none ↦ err bad_json | some f ↦ known_type f.t f ])
