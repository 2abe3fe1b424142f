-- ===== src/Tools/Registry/Listing.antt =====
-- The list of the tools is in order (internal/domain/tools/registry.go).
use Prim.Native.Nat.{Ordering, compare as compare_ℕ}
use Prim.Native.Char.{code}
use Prim.Native.String.{compare, then as after_first}
use Prim.Native.String.compare
use mathlib.Core.Bool.{true≢false}
use agentic_voice_sdr.Base.{
  ℕ, String, suc, map, ◌≡◌, refl, inl, inr, Bool, true, false, List, [], ◌∷◌, arith, Bool-cases,
  if◌then◌else◌, ap, sym, ◌∙◌,
}
use agentic_voice_sdr.Tools.Definition.{ToolDefinition}
use agentic_voice_sdr.Tools.Registry.{InMemoryRegistry, str_less, sorted_insert, sorted, list}

abbrev is_lt : Ordering → Bool
is_lt Ordering.lt = true
is_lt _ = false

then-asym :
    (m n : ℕ) (p q : Ordering)
    → (is_lt p ≡ true → is_lt q ≡ false)
    → is_lt (after_first (compare_ℕ m n) p) ≡ true
    → is_lt (after_first (compare_ℕ n m) q) ≡ false
then-asym m n p q h e = ground arith

compare-asym : (a b : String) → is_lt (compare a b) ≡ true → is_lt (compare b a) ≡ false
compare-asym String.[] String.[] h = ap is_lt compare.nil-nil
compare-asym String.[] (String.◌∷◌ d t) h = ap is_lt (compare.cons-nil d t)
compare-asym (String.◌∷◌ c s) String.[] h =
    absurd (true≢false (sym h ∙ ap is_lt (compare.cons-nil c s)))
compare-asym (String.◌∷◌ c s) (String.◌∷◌ d t) h =
    ap is_lt (compare.cons-cons d c t s)
    ∙ then-asym (code c) (code d) (compare s t) (compare t s) (compare-asym s t)
        (sym (ap is_lt (compare.cons-cons c d s t)) ∙ h)

str_less-asym : (a b : String) → str_less a b ≡ true → str_less b a ≡ false
unfolding str_less
str_less-asym a b h = compare-asym a b h

-- No neighbours are the wrong way round.
abbrev pub Ordered : List ToolDefinition → Type 0
Ordered [] = Unit
Ordered (d ∷ []) = Unit
Ordered (d ∷ e ∷ es) = (str_less e.name d.name ≡ false) × Ordered (e ∷ es)

insert-Ordered :
    (d : ToolDefinition) (es : List ToolDefinition) → Ordered es → Ordered (sorted_insert d es)
unfolding sorted_insert
insert-Ordered d [] h = tt
insert-Ordered d (e ∷ []) h = elim (Bool-cases (str_less e.name d.name)) [
  | inl before ↦ rw before (str_less-asym e.name d.name before, tt)
  | inr after ↦ rw after (after, tt)
]
insert-Ordered d (e ∷ f ∷ fs) (first, h) = elim (Bool-cases (str_less e.name d.name)) [
  | inr after ↦ rw after (after, (first, h))
  | inl before ↦ rw before (elim (Bool-cases (str_less f.name d.name)) [
    | inl later ↦ rw later (first, rw (sorted_insert, later) at (insert-Ordered d (f ∷ fs) h))
    | inr here ↦ rw here (str_less-asym e.name d.name before, (here, h))
  ])
]

abbrev pub count : (ToolDefinition → Bool) → List ToolDefinition → ℕ
count p [] = 0
count p (d ∷ ds) = let n = count p ds in if p d then suc n else n

count-insert :
    (p : ToolDefinition → Bool) (d : ToolDefinition) (es : List ToolDefinition)
    → count p (sorted_insert d es) ≡ count p (d ∷ es)
unfolding sorted_insert
count-insert p d [] = refl
count-insert p d (e ∷ es) = ground (arith, count-insert p d es)

sorted_lem :
    (m : List (String × ToolDefinition))
    → Ordered (sorted m)
      × ((p : ToolDefinition → Bool) → count p (sorted m) ≡ count p (map (λ e. e.1) m))
unfolding sorted
sorted_lem [] = (tt, λ p. refl)
sorted_lem ((n, d) ∷ m) =
    let (order, same) = sorted_lem m in
    (insert-Ordered d (sorted m) order, λ p. ground (arith, count-insert p d (sorted m), same p))

-- `List` returns the definitions of the registry, each as often as it is there, and no name before a
-- smaller one.
pub list_lem :
    (r : InMemoryRegistry)
    → Ordered (list r)
      × ((p : ToolDefinition → Bool) → count p (list r) ≡ count p (map (λ e. e.1) r.tools))
unfolding list
list_lem r = sorted_lem r.tools
