-- ===== src/Conversation/Turns.antt =====
-- The turn list as a map from ids to turns (internal/domain/conversation/conversation.go).
use agentic_voice_sdr.Base.{
  String, ◌≡◌, refl, inl, inr, Bool, true, false, not, ◌&&◌, List, [], ◌∷◌, ◌++◌, Option, none,
  some, Result, ok, err, if◌then◌else◌, arith, str_eq, eq_iff, is_ok, Bool-cases, Option-cases,
}
use agentic_voice_sdr.Conversation.{
  Turn, Error, turn_conflict, finalized_turn, ConversationState, is_final, same_role, valid_turn,
  keep, place, record_turn,
}

-- The first turn with the id.
unfoldable pub find : String → List Turn → Option Turn
find j [] = none
find j (e ∷ es) = if str_eq e.id j then some e else find j es

-- The list with the turn in the place of the first one of its id.
unfoldable pub replace : Turn → List Turn → List Turn
replace t [] = []
replace t (e ∷ es) = if str_eq e.id t.id then t ∷ es else e ∷ replace t es

-- What `RecordTurn` does to the turns, by the turn that has the id, if there is one.
abbrev pub placed : Turn → List Turn → Option Turn → Result Error (List Turn × Bool)
placed t ts none = ok (ts ++ (t ∷ []), false)
placed t ts (some e) =
    if not (same_role e.role t.role)
    then err turn_conflict
    else (if is_final e.transcript then err (finalized_turn t.id) else ok (replace t ts, true))

keep-placed :
    (t e : Turn) (ts : List Turn) (o : Option Turn)
    → str_eq e.id t.id ≡ false
    → keep e (placed t ts o) ≡ placed t (e ∷ ts) o
unfolding replace
keep-placed t e ts none miss = refl
keep-placed t e ts (some x) miss = ground arith

-- The search through the turns decides by the one turn of that id alone: no such turn, the new one
-- is appended; a turn of another role, a conflict; a final one, refused; otherwise it is replaced.
pub place_lem : (t : Turn) (ts : List Turn) → place t ts ≡ placed t ts (find t.id ts)
unfolding place find replace
place_lem t [] = refl
place_lem t (e ∷ es) = elim (Bool-cases (str_eq e.id t.id)) [
  | inl hit ↦ rw hit (ground arith)
  | inr miss ↦ rw (miss, place_lem t es) (keep-placed t e es (find t.id es) miss)
]

pub find-append :
    (j : String) (t : Turn) (ts : List Turn)
    → find t.id ts ≡ none
    → find j (ts ++ (t ∷ [])) ≡ (if str_eq t.id j then some t else find j ts)
unfolding find
find-append j t [] h = refl
find-append j t (e ∷ es) h =
    ground (arith, eq_iff t.id j, eq_iff e.id j, eq_iff e.id t.id, find-append j t es)

pub find-replace :
    (j : String) (t e : Turn) (ts : List Turn)
    → find t.id ts ≡ some e
    → find j (replace t ts) ≡ (if str_eq t.id j then some t else find j ts)
unfolding find replace
find-replace j t e [] h = cc
find-replace j t e (x ∷ xs) h =
    ground (arith, eq_iff t.id j, eq_iff x.id j, eq_iff x.id t.id, find-replace j t e xs)

-- A turn that is recorded is what its id stands for from then on, and no other id is touched; a turn
-- that is refused leaves the whole conversation as it was.
pub find-record_turn :
    (s : ConversationState) (t : Turn) (j : String)
    → find j (record_turn s t).0.turns
      ≡ (if is_ok (record_turn s t).1 && str_eq t.id j then some t else find j s.turns)
unfolding record_turn
find-record_turn s t j = elim (Option-cases (find t.id s.turns)) [
  | inl e ↦ ground (arith, place_lem t s.turns, find-append j t s.turns e)
  | inr (x, e) ↦ ground (arith, place_lem t s.turns, find-replace j t x s.turns e)
]

-- The turn may take the place of the one with its id, if there is one.
abbrev pub admits : Turn → Option Turn → Bool
admits t none = true
admits t (some e) = same_role e.role t.role && not (is_final e.transcript)

-- A turn is recorded exactly when it is valid and the first turn with its id, if there is one, has
-- the same role and is not final.
pub record_turn-is_ok :
    (s : ConversationState) (t : Turn)
    → is_ok (record_turn s t).1 ≡ (valid_turn t && admits t (find t.id s.turns))
unfolding record_turn
record_turn-is_ok s t = ground (arith, place_lem t s.turns)
