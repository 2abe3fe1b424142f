-- ===== src/Gate/Source.antt =====
-- Which turn a response may answer (internal/domain/conversation/response_gate.go).
use agentic_voice_sdr.Base.{
  is_empty, str_eq, eq_iff, String, ◌≡◌, refl, ap, ◌⊎◌, inl, inr, Bool, true, false, ◌&&◌, List, [],
  ◌∷◌, ◌++◌, Option, none, some, if◌then◌else◌, arith, ok, any, Bool-cases, Option-cases,
}
use agentic_voice_sdr.Conversation.{ConversationState, Turn, is_lead, is_final}
use agentic_voice_sdr.Gate.{ResponseKey, scan, response_source_key}

abbrev pub final_lead : Turn → Bool
final_lead t = is_lead t.role && is_final t.transcript

-- The turn is in the list and is the last final one of the lead.
abbrev pub LastLead : Turn → List Turn → Type 0
LastLead t ts =
    (before : List Turn) × (after : List Turn) × (ts ≡ before ++ (t ∷ after))
    × (final_lead t ≡ true)
    × (any final_lead after ≡ false)

LastLead-cons : (x t : Turn) (xs : List Turn) → LastLead t xs → LastLead t (x ∷ xs)
LastLead-cons x t xs (before, after, e, f, a) = (x ∷ before, after, ap (◌∷◌ x) e, f, a)

scan-latest :
    (id : String) (ts : List Turn) (source latest : Option Turn) (t : Turn)
    → (scan id ts source latest).1 ≡ some t
    → LastLead t ts ⊎ ((latest ≡ some t) × (any final_lead ts ≡ false))
unfolding scan
scan-latest id [] source latest t h = inr (h, refl)
scan-latest id (x ∷ xs) source latest t h =
    elim (scan-latest id xs _ (if final_lead x then some x else latest) t h) [
      | inl later ↦ inl (LastLead-cons x t xs later)
      | inr (e, none_after) ↦ elim (Bool-cases (final_lead x)) [
        | inl f ↦ inl ([], xs, ground arith, ground arith, none_after)
        | inr f ↦ inr (ground arith, ground arith)
      ]
    ]

-- Whatever key the gate accepts as a source names the conversation and the given turn, and that turn
-- is the last finalized one of the lead.
pub response_source_key-LastLead :
    (s : ConversationState) (id : String) {k : ResponseKey}
    → response_source_key (some s) id ≡ ok k
    → (k ≡ record { conversation_id = s.id; source_turn_id = id })
      × ((t : Turn) × (t.id ≡ id) × LastLead t s.turns)
unfolding response_source_key
response_source_key-LastLead s id {k} h = elim (Option-cases (scan id s.turns none none).1) [
  | inl e ↦ ground arith
  | inr (t, e) ↦ (
    ground arith,
    elim (scan-latest id s.turns none none t e) [
      | inl last ↦ (t, ground (arith, eq_iff t.id id), last)
      | inr (bad, _) ↦ cc
    ],
  )
]

scan-append :
    (id : String) (xs ys : List Turn) (source latest : Option Turn)
    → scan id (xs ++ ys) source latest
      ≡ scan id ys (scan id xs source latest).0 (scan id xs source latest).1
unfolding scan
scan-append id [] ys source latest = refl
scan-append id (x ∷ xs) ys source latest = scan-append id xs ys _ _

abbrev pub has : String → Turn → Bool
has id t = str_eq t.id id

-- Turns that neither have the id nor are final ones of the lead change nothing.
scan_quiet :
    (id : String) (ts : List Turn) (source latest : Option Turn)
    → any (has id) ts ≡ false
    → any final_lead ts ≡ false
    → scan id ts source latest ≡ (source, latest)
unfolding scan
scan_quiet id [] source latest h f = refl
scan_quiet id (x ∷ xs) source latest h f = ground (arith, scan_quiet id xs source latest)

scan_found :
    (before after : List Turn) (t : Turn)
    → any (has t.id) after ≡ false
    → final_lead t ≡ true
    → any final_lead after ≡ false
    → scan t.id (before ++ (t ∷ after)) none none ≡ (some t, some t)
unfolding scan
scan_found before after t unique lead last =
    rw (scan-append t.id before (t ∷ after) none none)
      (ground (arith, eq_iff t.id t.id, scan_quiet t.id after (some t) (some t)))

-- The last finalized turn of the lead is accepted as a source, if the conversation and the turn have
-- ids that are not empty and no later turn has the same id.
pub response_source_key-accepts :
    (s : ConversationState) (before after : List Turn) (t : Turn)
    → s.turns ≡ before ++ (t ∷ after)
    → is_empty s.id ≡ false
    → is_empty t.id ≡ false
    → any (has t.id) after ≡ false
    → final_lead t ≡ true
    → any final_lead after ≡ false
    → response_source_key (some s) t.id
      ≡ ok (record { conversation_id = s.id; source_turn_id = t.id })
unfolding response_source_key
response_source_key-accepts s before after t split named known unique lead last =
    ground (arith, split_scan, eq_iff t.id t.id)
  where
    split_scan : scan t.id s.turns none none ≡ (some t, some t)
    split_scan = rw split (scan_found before after t unique lead last)
