-- ===== src/Audiosocket/Codec.antt =====
-- Encoding and decoding are inverse (internal/telephony/audiosocket/frame.go).
use mathlib.Core.Path.{◌∙◌}
use agentic_voice_sdr.Base.{
  ◌<◌, ◌≤◌, length-take, take-append, length-append, ℕ, suc, ◌+◌, ◌/◌, ◌%◌, ◌≡◌, refl, ap, true,
  List, [], ◌∷◌, ◌++◌, ok, length, take, arith, All,
}
use agentic_voice_sdr.Audiosocket.{
  Frame, known, validate_payload_length, encode, decode, decode_body, uint16, max_payload_size,
  header_size,
}

abbrev pub IsBytes : List ℕ → Type 0
IsBytes = All (λ b. b < 256)

known-lt : (t : ℕ) → known t ≡ true → t < 256
unfolding known
known-lt t h = ground arith

-- What a frame that is encoded satisfies.
pub record Encodes (f : Frame) (bytes : List ℕ) : Type 0 where
  pub is_known : known f.type ≡ true
  pub small : length f.payload ≤ max_payload_size
  pub fits : validate_payload_length f.type (length f.payload) ≡ ok tt
  pub layout : bytes ≡ f.type ∷ (length f.payload / 256) ∷ (length f.payload % 256) ∷ f.payload

pub encode-Encodes : (f : Frame) {bytes : List ℕ} → encode f ≡ ok bytes → Encodes f bytes
unfolding encode
encode-Encodes f {bytes} h = record {
  is_known = ground arith;
  small = small_of;
  fits = ground arith;
  layout = ground (arith, byte, high, low, small_of);
}
  where
    small_of : length f.payload ≤ max_payload_size
    small_of = ground arith

    byte : f.type % 256 ≡ f.type
    byte = let lt : f.type < 256 = known-lt f.type (ground arith) in omega arith

    high : length f.payload % 65536 / 256 % 256 ≡ length f.payload / 256
    high = omega (arith, small_of)

    low : length f.payload % 65536 % 256 ≡ length f.payload % 256
    low = omega (arith, small_of)

pub put_uint16_lem : (n : ℕ) → uint16 (n / 256) (n % 256) ≡ n
put_uint16_lem n = omega arith

decode_body-Encodes :
    (f : Frame) (rest : List ℕ) (n : ℕ)
    → n ≡ length f.payload
    → known f.type ≡ true
    → n ≤ max_payload_size
    → validate_payload_length f.type n ≡ ok tt
    → uint16 (n / 256) (n % 256) ≡ n
    → decode_body f.type (n / 256) (n % 256) (f.payload ++ rest) ≡ ok (f, header_size + n)
unfolding decode_body
decode_body-Encodes f rest n e k small fits same =
    rw (same, k, fits) (ground (arith, length-append f.payload rest, take-append f.payload rest))

-- Every frame that `Encode` accepts is read back by `Decode`, whole and with exactly its own bytes
-- consumed, whatever bytes follow it.
pub decode-encode :
    (f : Frame) {bytes : List ℕ} (rest : List ℕ)
    → encode f ≡ ok bytes
    → decode (bytes ++ rest) ≡ ok (f, length bytes)
unfolding decode
decode-encode f {bytes} rest h =
    let v = encode-Encodes f h in
    rw v.layout (
      decode_body-Encodes f rest (length f.payload) refl v.is_known v.small v.fits
        (put_uint16_lem (length f.payload))
      ∙ ap (λ n. ok (f, n)) (omega arith))

-- What a frame that is decoded satisfies.
record Decodes (t hi lo : ℕ) (rest : List ℕ) (f : Frame) (n : ℕ) : Type 0 where
  is_known : known t ≡ true
  small : uint16 hi lo ≤ max_payload_size
  fits : validate_payload_length t (uint16 hi lo) ≡ ok tt
  enough : uint16 hi lo ≤ length rest
  frame : f ≡ record { type = t; payload = take (uint16 hi lo) rest }
  consumed : n ≡ suc (suc (suc (uint16 hi lo)))

decode_body-Decodes :
    (t hi lo : ℕ) (rest : List ℕ) {f : Frame} {n : ℕ}
    → decode_body t hi lo rest ≡ ok (f, n)
    → Decodes t hi lo rest f n
unfolding decode_body
decode_body-Decodes t hi lo rest {f} {n} d = record {
  is_known = ground arith;
  small = ground arith;
  fits = ground arith;
  enough = ground arith;
  frame = ground arith;
  consumed = ground arith;
}

-- `Encode` on a type and a payload of a length that pass its checks.
encode_of_parts :
    (t hi lo : ℕ) (p : List ℕ)
    → t < 256
    → hi < 256
    → lo < 256
    → known t ≡ true
    → length p ≡ uint16 hi lo
    → uint16 hi lo ≤ max_payload_size
    → validate_payload_length t (uint16 hi lo) ≡ ok tt
    → encode (record { type = t; payload = p }) ≡ ok (t ∷ hi ∷ lo ∷ p)
unfolding encode
encode_of_parts t hi lo p bt bh bl k len small fits =
    rw (len, k, fits) (ground (arith, byte, high, low))
  where
    byte : t % 256 ≡ t
    byte = omega arith

    high : uint16 hi lo % 65536 / 256 % 256 ≡ hi
    high = omega arith

    low : uint16 hi lo % 65536 % 256 ≡ lo
    low = omega arith

-- Every frame that `Decode` reads is encoded to exactly the bytes that were consumed.
pub encode-decode :
    (b : List ℕ) {f : Frame} {n : ℕ} → IsBytes b → decode b ≡ ok (f, n) → encode f ≡ ok (take n b)
unfolding decode
encode-decode [] h d = cc
encode-decode (t ∷ []) h d = cc
encode-decode (t ∷ hi ∷ []) h d = cc
encode-decode (t ∷ hi ∷ lo ∷ rest) {f} {n} h d =
    let v = decode_body-Decodes t hi lo rest d in
    rw (v.frame, v.consumed)
      (encode_of_parts t hi lo (take (uint16 hi lo) rest) h.0 h.1.0 h.1.1.0 v.is_known
        (omega (arith, length-take (uint16 hi lo) rest, v.enough)) v.small v.fits)
