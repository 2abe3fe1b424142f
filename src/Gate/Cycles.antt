-- ===== src/Gate/Cycles.antt =====
-- The map of response cycles (internal/domain/conversation/response_gate.go).
use agentic_voice_sdr.Base.{
  ◌≡◌, refl, ◌↔◌, Bool, true, false, List, [], ◌∷◌, none, some, if◌then◌else◌, arith, eq_iff,
}
use agentic_voice_sdr.Gate.{
  ResponseKey, ResponseState, same_key, lookup, insert, is_active, has_active_cycle,
}

pub same_key_iff : (k j : ResponseKey) → (same_key k j ≡ true) ↔ (k ≡ j)
same_key_iff k j = (
  λ h. both h,
  λ e. rw e (
      ground (
        arith,
        eq_iff j.conversation_id j.conversation_id,
        eq_iff j.source_turn_id j.source_turn_id,
      )),
)
  where
    both : same_key k j ≡ true → k ≡ j
    both h = ground (
      arith,
      eq_iff k.conversation_id j.conversation_id,
      eq_iff k.source_turn_id j.source_turn_id,
    )

pub lookup-insert :
    (k j : ResponseKey) (s : ResponseState) (m : List (ResponseKey × ResponseState))
    → lookup j (insert k s m) ≡ (if same_key k j then some s else lookup j m)
unfolding lookup insert
lookup-insert k j s [] = refl
lookup-insert k j s ((i, t) ∷ m) =
    ground (arith, same_key_iff k j, same_key_iff i k, same_key_iff i j, lookup-insert k j s m)

-- The key's cycle is in the map and still active.
abbrev pub active_at : ResponseKey → List (ResponseKey × ResponseState) → Bool
active_at k m = elim (lookup k m) [ none ↦ false | some s ↦ is_active s ]

-- The scan of the map finds every other active cycle of the conversation.
pub has_active_cycle_complete :
    (excluded k : ResponseKey) (m : List (ResponseKey × ResponseState))
    → has_active_cycle excluded.conversation_id excluded m ≡ false
    → k.conversation_id ≡ excluded.conversation_id
    → active_at k m ≡ true
    → k ≡ excluded
unfolding has_active_cycle lookup
has_active_cycle_complete excluded k [] h same act = cc
has_active_cycle_complete excluded k ((j, s) ∷ m) h same act = ground (
  arith,
  same_key_iff j k,
  same_key_iff j excluded,
  eq_iff j.conversation_id excluded.conversation_id,
  has_active_cycle_complete excluded k m,
)
