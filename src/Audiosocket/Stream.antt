-- ===== src/Audiosocket/Stream.antt =====
-- internal/telephony/audiosocket: stream.go, and `DecodeReader` of frame.go.
-- A reader is what it will still deliver and how it ends; a writer answers its n-th call of `Write`
-- with the number of bytes that it takes of those it is given, and perhaps an error.
pub mod Transport
use agentic_voice_sdr.Base.{
  ℕ, zero, suc, ◌+◌, ◌-◌, Bool, true, false, not, ◌&&◌, ◌||◌, List, [], ◌∷◌, ◌++◌, Option, none,
  some, Result, ok, err, ◌>>=◌, ◌>>◌, guard, if◌then◌else◌, ltb, leb, ◌==◌, length, take, drop,
}
use Prim.Native.Nat.{min}
use agentic_voice_sdr.Audiosocket.{
  Error, invalid_header, truncated_payload, unknown_type, payload_too_large, Frame, header_size,
  max_payload_size, known, uint16, validate_payload_length, encode,
}

pub data StreamError : Type 0 where
  frame : Error → StreamError
  eof closed_pipe short_write : StreamError
  io : ℕ → StreamError

-- The bytes to come, and the error after them; none is io.EOF.
pub record Reader : Type 0 where
  pub bytes : List ℕ
  pub end : Option ℕ

pub data Outcome : Type 0 where
  full eof unexpected_eof : Outcome
  failed : ℕ → Outcome

-- How `io.ReadFull` ends where there are too few bytes.
abbrev pub shortage : List ℕ → Option ℕ → Outcome
shortage bytes (some e) = failed e
shortage [] none = eof
shortage (b ∷ bs) none = unexpected_eof

-- `io.ReadFull`: the bytes read, the reader after it, and how it ended.
unfoldable pub read_full : ℕ → Reader → List ℕ × Reader × Outcome
read_full n r =
    if leb n (length r.bytes)
    then (take n r.bytes, record r { bytes = drop n r.bytes }, full)
    else (r.bytes, record r { bytes = [] }, shortage r.bytes r.end)

abbrev pub ended : Error → Outcome → Reader → Reader × Result StreamError Frame
ended e full r = (r, err (frame e))
ended e eof r = (r, err (frame e))
ended e unexpected_eof r = (r, err (frame e))
ended e (failed x) r = (r, err (io x))

-- `DecodeReader` past the header.
abbrev pub read_payload : ℕ → List ℕ × Reader × Outcome → Reader × Result StreamError Frame
read_payload t (payload, r, full) = (r, ok (record { type = t; payload = payload }))
read_payload t (payload, r, o) = ended truncated_payload o r

abbrev pub lift : Result Error (Unit {0}) → Result StreamError (Unit {0})
lift (ok u) = ok u
lift (err e) = err (frame e)

unfoldable pub check_header : ℕ → ℕ → Result Error (Unit {0})
check_header t n = do
  guard (known t) unknown_type
  guard (not (ltb max_payload_size n)) payload_too_large
  validate_payload_length t n

unfoldable pub decode_header : List ℕ → Reader → Reader × Result StreamError Frame
decode_header (t ∷ hi ∷ lo ∷ []) r = elim (check_header t (uint16 hi lo)) [
  | err e ↦ (r, err (frame e))
  | ok u ↦
      if ltb 0 (uint16 hi lo)
      then read_payload t (read_full (uint16 hi lo) r)
      else (r, ok (record { type = t; payload = [] }))
]
decode_header _ r = (r, err (frame invalid_header))

abbrev pub after_header : List ℕ × Reader × Outcome → Reader × Result StreamError Frame
after_header (header, r, full) = decode_header header r
after_header (header, r, o) = ended invalid_header o r

-- `DecodeReader`.
unfoldable pub decode_reader : Reader → Reader × Result StreamError Frame
decode_reader r = after_header (read_full header_size r)

-- `Stream.ReadFrame` on what reading the header gave: the header is put in front of the reader again.
abbrev pub reread : List ℕ × Reader × Outcome → Reader × Result StreamError Frame
reread (header, r, full) = decode_reader (record r { bytes = header ++ r.bytes })
reread ([], r, eof) = (r, err StreamError.eof)
reread (header, r, o) = ended invalid_header o r

-- `Stream.ReadFrame`; a nil stream or reader is none.
unfoldable pub read_frame : Option Reader → Option Reader × Result StreamError Frame
read_frame none = (none, err closed_pipe)
read_frame (some r) = let (s, f) = reread (read_full header_size r) in (some s, f)

-- A writer's answers by call, how many calls it has had, and the bytes it has taken.
pub record Writer : Type 0 where
  pub answer : ℕ → ℕ × Option ℕ
  pub calls : ℕ
  pub written : List ℕ

-- One call of `Write`, which takes no more than it is given.
unfoldable pub write : Writer → List ℕ → Writer × ℕ × Option ℕ
write w p =
    let n = min (w.answer w.calls).0 (length p) in
    (record w { calls = suc w.calls; written = w.written ++ take n p }, n, (w.answer w.calls).1)

-- The loop of `WriteFrame`, on fuel: each round that goes on has written a byte, so as much fuel as
-- there are bytes is enough; it runs out at a round with nothing left to write only.
unfoldable pub write_loop : ℕ → Writer → List ℕ → Writer × Result StreamError (Unit {0})
write_loop fuel w [] = (w, ok tt)
write_loop zero w (b ∷ bs) = (w, err short_write)
write_loop (suc fuel) w (b ∷ bs) =
    let (w', n, e) = write w (b ∷ bs) in
    let rest = write_loop fuel w' (drop n (b ∷ bs)) in
    elim e [ some x ↦ (w', err (io x)) | none ↦ if n == 0 then (w', err short_write) else rest ]

-- `Stream.WriteFrame`; a nil stream or writer is none.
unfoldable pub write_frame : Option Writer → Frame → Option Writer × Result StreamError (Unit {0})
write_frame none f = (none, err closed_pipe)
write_frame (some w) f = elim (encode f) [
  | err e ↦ (some w, err (frame e))
  | ok bytes ↦ let (w', r) = write_loop (length bytes) w bytes in (some w', r)
]
