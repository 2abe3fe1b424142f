-- ===== src/Audiosocket.antt =====
-- internal/telephony/audiosocket: types.go, errors.go and frame.go. A byte is a number below 256.
pub mod Codec
pub mod Stream
pub mod Tests
use agentic_voice_sdr.Base.{
  ℕ, zero, suc, ◌+◌, ◌-◌, ◌*◌, ◌/◌, ◌%◌, Bool, true, false, not, ◌&&◌, ◌||◌, List, [], ◌∷◌, ◌++◌,
  Option, none, some, Result, ok, err, ◌>>=◌, ◌>>◌, guard, if◌then◌else◌, ltb, leb, ◌==◌, length,
  take, drop,
}

pub data Error : Type 0 where
  invalid_header truncated_payload unknown_type payload_too_large invalid_payload_length : Error

abbrev pub header_size : ℕ
header_size = 3

abbrev pub max_payload_size : ℕ
max_payload_size = 16384

abbrev pub type_hangup : ℕ
type_hangup = 0x00

abbrev pub type_id : ℕ
type_id = 0x01

abbrev pub type_dtmf : ℕ
type_dtmf = 0x03

abbrev pub type_slin16 : ℕ
type_slin16 = 0x12

abbrev pub type_slin24 : ℕ
type_slin24 = 0x13

-- `FrameType.Known`: hangup, id, dtmf, slin, slin12 to slin192, error.
unfoldable pub known : ℕ → Bool
known t =
    t == 0x00
    || t == 0x01
    || t == 0x03
    || t == 0x10
    || t == 0x11
    || t == 0x12
    || t == 0x13
    || t == 0x14
    || t == 0x15
    || t == 0x16
    || t == 0x17
    || t == 0x18
    || t == 0xff

pub record Frame : Type 0 where
  pub type : ℕ
  pub payload : List ℕ

unfoldable pub validate_payload_length : ℕ → ℕ → Result Error (Unit {0})
validate_payload_length t n =
    if t == type_hangup
    then guard (n == 0) invalid_payload_length
    else (if t == type_id
        then guard (n == 16) invalid_payload_length
        else (if t == type_dtmf then guard (n == 1) invalid_payload_length else ok tt))

-- `binary.BigEndian.PutUint16(…, uint16(n))` and its inverse.
abbrev pub put_uint16 : ℕ → List ℕ
put_uint16 n = (n % 65536 / 256 % 256) ∷ (n % 65536 % 256) ∷ []

abbrev pub uint16 : ℕ → ℕ → ℕ
uint16 hi lo = hi * 256 + lo

-- `Encode`.
unfoldable pub encode : Frame → Result Error (List ℕ)
encode f = do
  guard (known f.type) unknown_type
  guard (not (ltb max_payload_size (length f.payload))) payload_too_large
  guard (not (ltb 0xffff (length f.payload))) payload_too_large
  validate_payload_length f.type (length f.payload)
  ok (f.type % 256 ∷ (put_uint16 (length f.payload) ++ f.payload))

-- `Decode` past the header: the type, the two length bytes, and the bytes that follow. The number is
-- how many bytes are consumed.
unfoldable pub decode_body : ℕ → ℕ → ℕ → List ℕ → Result Error (Frame × ℕ)
decode_body t hi lo rest = do
  guard (known t) unknown_type
  guard (not (ltb max_payload_size (uint16 hi lo))) payload_too_large
  validate_payload_length t (uint16 hi lo)
  guard (not (ltb (length rest) (uint16 hi lo))) truncated_payload
  ok (record { type = t; payload = take (uint16 hi lo) rest }, header_size + uint16 hi lo)

-- `len(b) < HeaderSize` is one of the first three clauses.
unfoldable pub decode : List ℕ → Result Error (Frame × ℕ)
decode [] = err invalid_header
decode (t ∷ []) = err invalid_header
decode (t ∷ hi ∷ []) = err invalid_header
decode (t ∷ hi ∷ lo ∷ rest) = decode_body t hi lo rest
