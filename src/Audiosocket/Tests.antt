-- ===== src/Audiosocket/Tests.antt =====
-- Frames and streams on concrete inputs (internal/telephony/audiosocket).
use agentic_voice_sdr.Base.{ℕ, ◌≡◌, refl, arith, List, [], ◌∷◌, ◌++◌, none, some, ok, err}
use agentic_voice_sdr.Audiosocket.{
  Frame, unknown_type, known, validate_payload_length, encode, decode, decode_body,
}
use agentic_voice_sdr.Audiosocket.Codec.{decode-encode, encode-decode}
use agentic_voice_sdr.Audiosocket.Stream.{StreamError, Writer, write, write_loop, write_frame}
use agentic_voice_sdr.Audiosocket.Stream.Transport.{
  encode_all, read_frames, read_frames-encode_all, write_loop-fuel, Sent, write_frame-Sent,
}

abbrev audio : Frame
audio = record { type = 0x12; payload = 7 ∷ 8 ∷ [] }

abbrev hangup : Frame
hangup = record { type = 0x00; payload = [] }

abbrev audio_bytes : List ℕ
audio_bytes = 0x12 ∷ 0 ∷ 2 ∷ 7 ∷ 8 ∷ []

audio_encoded : encode audio ≡ ok audio_bytes
unfolding encode known validate_payload_length
audio_encoded = refl

unknown_refused : encode (record { type = 0x20; payload = [] }) ≡ err unknown_type
unfolding encode known
unknown_refused = refl

audio_decoded : decode (audio_bytes ++ (1 ∷ [])) ≡ ok (audio, 5)
unfolding decode decode_body known validate_payload_length
audio_decoded = refl

decode-encode_example : decode (audio_bytes ++ (1 ∷ [])) ≡ ok (audio, 5)
decode-encode_example = decode-encode audio (1 ∷ []) audio_encoded

encode-decode_example : encode audio ≡ ok audio_bytes
encode-decode_example =
    encode-decode (audio_bytes ++ (1 ∷ []))
      (omega arith, (omega arith, (omega arith, (omega arith, (omega arith, (omega arith, tt))))))
      audio_decoded

two_encoded : encode_all (audio ∷ hangup ∷ []) ≡ ok (audio_bytes ++ (0 ∷ 0 ∷ 0 ∷ []))
unfolding encode_all encode known validate_payload_length
two_encoded = refl

read_frames-encode_all_example :
    read_frames 5 (some (record { bytes = audio_bytes ++ (0 ∷ 0 ∷ 0 ∷ []); end = none }))
    ≡ (audio ∷ hangup ∷ [], some StreamError.eof)
read_frames-encode_all_example = read_frames-encode_all (audio ∷ hangup ∷ []) 2 two_encoded

-- A writer that takes two bytes at a time.
abbrev slow : Writer
slow = record { answer = λ n. (2, none); calls = 0; written = [] }

abbrev slow_after : Writer
slow_after = record { answer = λ n. (2, none); calls = 3; written = audio_bytes }

slow_writes : write_frame (some slow) audio ≡ (some slow_after, ok tt)
unfolding write_frame write_loop write encode known validate_payload_length
slow_writes = refl

write_frame-Sent_example : Sent slow audio_bytes (slow_after, ok tt)
write_frame-Sent_example = write_frame-Sent slow audio audio_encoded slow_writes

write_loop-fuel_example : write_loop 5 slow audio_bytes ≡ write_loop 9 slow audio_bytes
write_loop-fuel_example = write_loop-fuel 5 9 slow audio_bytes (omega arith) (omega arith)
