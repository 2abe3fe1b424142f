-- ===== src/Audiosocket/Stream/Transport.antt =====
-- What is written to a stream is read back from it (internal/telephony/audiosocket/stream.go).
use mathlib.Core.Path.{◌∙◌, subst}
use agentic_voice_sdr.Base.{
  length-drop, take_nil, take-append-drop, Bool-cases, Option-cases, ◌==◌, >>=-eq-ok, ok-injective,
  ◌/◌, ◌%◌, ◌≤◌, ◌++◌, ◌≡◌, ℕ, zero, suc, ◌+◌, refl, sym, ap, List, [], ◌∷◌, Option, none, some,
  Result, ok, err, ◌>>=◌, length, take, drop, arith, length-append, take-append, drop-append, inl,
  inr,
}
use mathlib.Core.List.{append-nil, append_assoc}
use native.Mathlib.Nat.{zero-add, suc-add}
use agentic_voice_sdr.Audiosocket.{Error, Frame, encode, uint16}
use agentic_voice_sdr.Audiosocket.Codec.{Encodes, encode-Encodes, put_uint16_lem}
use agentic_voice_sdr.Audiosocket.Stream.{
  StreamError, Reader, full, read_full, check_header, decode_header, after_header, decode_reader,
  reread, read_frame, Writer, write, write_loop, write_frame,
}

read_full-append :
    (xs ys : List ℕ) (n : ℕ) (e : Option ℕ)
    → n ≡ length xs
    → read_full n (record { bytes = xs ++ ys; end = e })
      ≡ (xs, record { bytes = ys; end = e }, full)
unfolding read_full
read_full-append xs ys n e h =
    rw (h, take-append xs ys, drop-append xs ys) (ground (arith, length-append xs ys))

-- A payload of the announced length is read whole, also if it is empty.
decode_payload :
    (t hi lo : ℕ) (p rest : List ℕ) (e : Option ℕ)
    → uint16 hi lo ≡ length p
    → check_header t (length p) ≡ ok tt
    → decode_header (t ∷ hi ∷ lo ∷ []) (record { bytes = p ++ rest; end = e })
      ≡ (record { bytes = rest; end = e }, ok (record { type = t; payload = p }))
unfolding decode_header
decode_payload t hi lo [] rest e n c = ground arith
decode_payload t hi lo (b ∷ bs) rest e n c =
    ground (arith, read_full-append (b ∷ bs) rest (uint16 hi lo) e n)

check-Encodes :
    (f : Frame) {bytes : List ℕ} → Encodes f bytes → check_header f.type (length f.payload) ≡ ok tt
unfolding check_header
check-Encodes f v = ground arith

decode_reader-Encodes :
    (f : Frame) {bytes : List ℕ} (rest : List ℕ) (e : Option ℕ)
    → Encodes f bytes
    → decode_reader (record { bytes = bytes ++ rest; end = e })
      ≡ (record { bytes = rest; end = e }, ok f)
unfolding decode_reader
decode_reader-Encodes f rest e v = rw v.layout (
    ap after_header (read_full-append (f.type ∷ hi ∷ lo ∷ []) (f.payload ++ rest) 3 e refl)
    ∙ decode_payload f.type hi lo f.payload rest e (put_uint16_lem (length f.payload))
        (check-Encodes f v))
  where
    hi : ℕ
    hi = length f.payload / 256

    lo : ℕ
    lo = length f.payload % 256

-- `ReadFrame` takes an encoded frame off the front of the stream, and nothing after it, whatever
-- follows and however the stream ends.
pub read_frame-encode :
    (f : Frame) {bytes : List ℕ} (rest : List ℕ) (e : Option ℕ)
    → encode f ≡ ok bytes
    → read_frame (some (record { bytes = bytes ++ rest; end = e }))
      ≡ (some (record { bytes = rest; end = e }), ok f)
unfolding read_frame
read_frame-encode f {bytes} rest e h =
    let v = encode-Encodes f h in
    rw v.layout (
      ap {B = Option Reader × Result StreamError Frame} (λ z. (some z.0, z.1))
        (ap reread (read_full-append (f.type ∷ hi ∷ lo ∷ []) (f.payload ++ rest) 3 e refl)
          ∙ decode_reader-Encodes f rest e (normal v)))
  where
    hi : ℕ
    hi = length f.payload / 256

    lo : ℕ
    lo = length f.payload % 256

    normal : Encodes f bytes → Encodes f (f.type ∷ hi ∷ lo ∷ f.payload)
    normal v = record { is_known = v.is_known; small = v.small; fits = v.fits; layout = refl }

-- The bytes of a list of frames, if each can be encoded.
unfoldable pub encode_all : List Frame → Result Error (List ℕ)
encode_all [] = ok []
encode_all (f ∷ fs) = do bytes ← encode f; rest ← encode_all fs; ok (bytes ++ rest)

-- Reads as long as frames come, at most n of them: the frames, and the error that ended it.
unfoldable pub read_frames : ℕ → Option Reader → List Frame × Option StreamError
read_frames zero r = ([], none)
read_frames (suc n) r =
    let rest = read_frames n (read_frame r).0 in
    elim (read_frame r).1 [ ok f ↦ (f ∷ rest.0, rest.1) | err e ↦ ([], some e) ]

read_frames_step :
    (n : ℕ) (f : Frame) (r s : Option Reader)
    → read_frame r ≡ (s, ok f)
    → read_frames (suc n) r ≡ (f ∷ (read_frames n s).0, (read_frames n s).1)
unfolding read_frames
read_frames_step n f r s h = ground arith

clean_end :
    read_frame (some (record { bytes = []; end = none }))
    ≡ (some (record { bytes = []; end = none }), err StreamError.eof)
unfolding read_frame read_full
clean_end = refl

-- A stream that carries encoded frames and then ends is read as exactly those frames, and the end
-- after the last one is a clean one.
pub read_frames-encode_all :
    (fs : List Frame) {bytes : List ℕ} (k : ℕ)
    → encode_all fs ≡ ok bytes
    → read_frames (length fs + suc k) (some (record { bytes = bytes; end = none }))
      ≡ (fs, some StreamError.eof)
unfolding read_frames encode_all
read_frames-encode_all [] {bytes} k h = rw zero-add (ground (arith, clean_end))
read_frames-encode_all (f ∷ fs) {bytes} k h =
    let (one, e, more) = >>=-eq-ok (encode f) _ h in
    let (rest, es, whole) = >>=-eq-ok (encode_all fs) _ more in
    rw suc-add (
      ap (λ b. read_frames (suc (length fs + suc k)) (some (record { bytes = b; end = none })))
        (sym (ok-injective whole))
      ∙ read_frames_step (length fs + suc k) f _ _ (read_frame-encode f rest none e)
      ∙ ap {B = List Frame × Option StreamError} (λ z. (f ∷ z.0, z.1))
          (read_frames-encode_all fs k es))

-- The loop of `WriteFrame` has the same effect and result on any fuel that is at least the number of
-- bytes to write.
pub write_loop-fuel :
    (n m : ℕ) (w : Writer) (p : List ℕ)
    → length p ≤ n
    → length p ≤ m
    → write_loop n w p ≡ write_loop m w p
unfolding write_loop write
write_loop-fuel n m w [] h k = refl
write_loop-fuel zero m w (b ∷ bs) h k = absurd (omega arith)
write_loop-fuel (suc n) zero w (b ∷ bs) h k = absurd (omega arith)
write_loop-fuel (suc n) (suc m) w (b ∷ bs) h k =
    let (w', d, e) = write w (b ∷ bs) in
    elim (Option-cases e) [
      | inr (x, failed) ↦ rw failed refl
      | inl fine ↦ rw fine (elim (Bool-cases (d == 0)) [
        | inl stuck ↦ rw stuck refl
        | inr moved ↦ rw moved (
            write_loop-fuel n m w' (drop d (b ∷ bs)) (ground (arith, length-drop d (b ∷ bs)))
              (ground (arith, length-drop d (b ∷ bs))))
      ])
    ]

take-add : (n k : ℕ) (p : List ℕ) → take n p ++ take k (drop n p) ≡ take (n + k) p
take-add zero k p = rw zero-add
take-add (suc n) k [] = rw (take_nil k, take_nil (suc n + k)) refl
take-add (suc n) k (b ∷ bs) = rw suc-add (ap (◌∷◌ b) (take-add n k bs))

-- What a call of `Write` takes is a front part of what it is given.
write_lem : (w : Writer) (p : List ℕ) → (write w p).0.written ≡ w.written ++ take (write w p).1 p
unfolding write
write_lem w p = refl

-- A front part of the bytes has been taken, and all of them if there is no error.
abbrev pub Sent : Writer → List ℕ → Writer × Result StreamError (Unit {0}) → Type 0
Sent w p r = (k : ℕ) × (r.0.written ≡ w.written ++ take k p) × (r.1 ≡ ok tt → take k p ≡ p)

Sent-later :
    (w w' : Writer) (p : List ℕ) (d : ℕ) (r : Writer × Result StreamError (Unit {0}))
    → w'.written ≡ w.written ++ take d p
    → Sent w' (drop d p) r
    → Sent w p r
Sent-later w w' p d r first (k, later, whole) = (
  d + k,
  later ∙ rw (first, append_assoc, take-add d k p) refl,
  λ fine. sym (take-add d k p) ∙ ap (◌++◌ (take d p)) (whole fine) ∙ take-append-drop d p,
)

write_loop-Sent : (n : ℕ) (w : Writer) (p : List ℕ) → length p ≤ n → Sent w p (write_loop n w p)
unfolding write_loop write
write_loop-Sent n w [] h = (0, simp append-nil, λ e. refl)
write_loop-Sent zero w (b ∷ bs) h = absurd (omega arith)
write_loop-Sent (suc n) w (b ∷ bs) h =
    let (w', d, e) = write w (b ∷ bs) in
    elim (Option-cases e) [
      | inr (x, failed) ↦ rw failed (d, write_lem w (b ∷ bs), λ bad. cc)
      | inl fine ↦ rw fine (elim (Bool-cases (d == 0)) [
        | inl stuck ↦ rw stuck (d, write_lem w (b ∷ bs), λ bad. cc)
        | inr moved ↦ rw moved (
            Sent-later w w' (b ∷ bs) d (write_loop n w' (drop d (b ∷ bs))) (write_lem w (b ∷ bs))
              (write_loop-Sent n w' (drop d (b ∷ bs)) (ground (arith, length-drop d (b ∷ bs)))))
      ])
    ]

-- `WriteFrame` on a writer that takes the bytes in portions of its own choice, each of its calls
-- with an error or without: it has written a front part of the frame's encoding, and if it returns
-- no error the whole encoding.
pub write_frame-Sent :
    (w : Writer) (f : Frame) {bytes : List ℕ} {v : Writer} {r : Result StreamError (Unit {0})}
    → encode f ≡ ok bytes
    → write_frame (some w) f ≡ (some v, r)
    → Sent w bytes (v, r)
unfolding write_frame
write_frame-Sent w f {bytes} {v} {r} e h =
    subst (Sent w bytes) same (write_loop-Sent (length bytes) w bytes (omega arith))
  where
    same : write_loop (length bytes) w bytes ≡ (v, r)
    same = ground (arith, e)
