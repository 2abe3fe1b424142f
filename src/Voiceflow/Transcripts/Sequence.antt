-- ===== src/Voiceflow/Transcripts/Sequence.antt =====
-- The numbers of the lead's turns (internal/voiceflow/transcript_handler.go).
use Prim.Native.Char.{code, len_utf8}
use agentic_voice_sdr.Base.Text.{byte_length, digit, put_digits}
use agentic_voice_sdr.Base.{
  ℕ, zero, suc, ◌+◌, ◌-◌, ◌*◌, ◌/◌, ◌%◌, ◌<◌, ◌≤◌, String, ◌≡◌, refl, ap, ◌∙◌, inl, inr, false,
  ◌||◌, List, [], ◌∷◌, some, arith, if◌then◌else◌, ltb, any, str_eq, eq_iff, Bool-cases,
}
use agentic_voice_sdr.Conversation.{Turn}
use agentic_voice_sdr.Voiceflow.Transcripts.{
  six, lead_id, lead_suffix, value, counted, seed_lead_sequence,
}

digit-code : (d : ℕ) → d < 10 → (code (digit d) ≡ d + 48) × (len_utf8 (digit d) ≡ 1)
unfolding digit
digit-code zero h = (refl, refl)
digit-code (suc zero) h = (refl, refl)
digit-code (suc (suc zero)) h = (refl, refl)
digit-code (suc (suc (suc zero))) h = (refl, refl)
digit-code (suc (suc (suc (suc zero)))) h = (refl, refl)
digit-code (suc (suc (suc (suc (suc zero))))) h = (refl, refl)
digit-code (suc (suc (suc (suc (suc (suc zero)))))) h = (refl, refl)
digit-code (suc (suc (suc (suc (suc (suc (suc zero))))))) h = (refl, refl)
digit-code (suc (suc (suc (suc (suc (suc (suc (suc zero)))))))) h = (refl, refl)
digit-code (suc (suc (suc (suc (suc (suc (suc (suc (suc zero))))))))) h = (refl, refl)
digit-code (suc (suc (suc (suc (suc (suc (suc (suc (suc (suc d)))))))))) h = absurd (omega arith)

value-digit :
    (acc d : ℕ) (s : String) → d < 10 → value acc (String.◌∷◌ (digit d) s) ≡ value (acc * 10 + d) s
unfolding value
value-digit acc d s h =
    let (e, _) = digit-code d h in
    let same : d + 48 - 48 ≡ d = omega arith in
    let in_range : (ltb (d + 48) 48 || ltb 57 (d + 48)) ≡ false = ground arith in
    rw (e, same, in_range) refl

value_nil : (acc : ℕ) → value acc String.[] ≡ acc
unfolding value
value_nil acc = refl

digits_lem :
    (n : ℕ)
    → n < 1000000
    → (((((0 * 10 + n / 100000 % 10) * 10 + n / 10000 % 10) * 10 + n / 1000 % 10) * 10
                + n / 100 % 10)
              * 10
            + n / 10 % 10)
          * 10
        + n % 10
      ≡ n
digits_lem n h = omega arith

value-six : (n : ℕ) → n < 1000000 → value 0 (six n) ≡ n
unfolding six
value-six n h =
    value-digit 0 (n / 100000 % 10) _ (omega arith)
    ∙ value-digit _ (n / 10000 % 10) _ (omega arith)
    ∙ value-digit _ (n / 1000 % 10) _ (omega arith)
    ∙ value-digit _ (n / 100 % 10) _ (omega arith)
    ∙ value-digit _ (n / 10 % 10) _ (omega arith)
    ∙ value-digit _ (n % 10) _ (omega arith)
    ∙ value_nil _
    ∙ digits_lem n h

byte_length-six : (n : ℕ) → byte_length (six n) ≡ 6
unfolding byte_length six
byte_length-six n = omega (
  arith,
  (digit-code (n / 100000 % 10) (omega arith)).1,
  (digit-code (n / 10000 % 10) (omega arith)).1,
  (digit-code (n / 1000 % 10) (omega arith)).1,
  (digit-code (n / 100 % 10) (omega arith)).1,
  (digit-code (n / 10 % 10) (omega arith)).1,
  (digit-code (n % 10) (omega arith)).1,
)

lead_suffix-lead_id : (n : ℕ) → n < 1000000 → lead_suffix (lead_id n) ≡ some (six n)
unfolding lead_suffix lead_id put_digits
lead_suffix-lead_id n h = let top : n / 1000000 ≡ 0 = omega arith in rw top refl

counted-lead_id : (n : ℕ) → n < 1000000 → counted (lead_id n) ≡ n
unfolding counted
counted-lead_id n h = rw (lead_suffix-lead_id n h, counted, byte_length-six n, value-six n h) refl

seed-ge : (largest : ℕ) (ts : List Turn) → largest ≤ seed_lead_sequence largest ts
unfolding seed_lead_sequence
seed-ge largest [] = omega arith
seed-ge largest (t ∷ ts) =
    ground (arith, seed-ge (if ltb largest (counted t.id) then counted t.id else largest) ts)

-- The number of a new turn of the lead is not in use: above the seed of the turns that are there, and
-- with at most six digits, it gives an id that none of them has.
pub lead_id_fresh :
    (ts : List Turn) (largest n : ℕ)
    → seed_lead_sequence largest ts < n
    → n < 1000000
    → any (λ t. str_eq t.id (lead_id n)) ts ≡ false
unfolding seed_lead_sequence
lead_id_fresh [] largest n above six_digits = refl
lead_id_fresh (t ∷ ts) largest n above six_digits =
    let next = if ltb largest (counted t.id) then counted t.id else largest in
    elim (Bool-cases (str_eq t.id (lead_id n))) [
      | inr other ↦ rw other (lead_id_fresh ts next n above six_digits)
      | inl same ↦
          let number : counted t.id ≡ n =
            ap counted ((eq_iff t.id (lead_id n)).0 same) ∙ counted-lead_id n six_digits in
          absurd (ground (arith, seed-ge next ts))
    ]
