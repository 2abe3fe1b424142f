-- ===== src/Base/Lines/Free.antt =====
-- What goes into texts of lines comes out of them: characters that pieces are free of, lines split and joined.
use Prim.Native.Nat.{ℕ, zero, suc, ◌/◌, ◌%◌}
use Prim.Native.Char.{Char, code}
use Prim.Native.String.{String}
use mathlib.Core.Path.{◌≡◌, refl, ap, ◌∙◌}
use mathlib.Core.Bool.{Bool, true, false, ◌&&◌, ◌||◌}
use mathlib.Core.Logic.{inl, inr}
use mathlib.Core.Option.{Option, none, some}
use mathlib.Core.List.{List, [], ◌∷◌, ◌++◌}
use agentic_voice_sdr.Base.Tests.{◌==◌, Bool-cases, if◌then◌else◌}
use agentic_voice_sdr.Base.Lists.{All}
use agentic_voice_sdr.Base.Int.{ℤ, pos, negsuc}
use agentic_voice_sdr.Base.Text.{put_digits, digit, is_empty}
use agentic_voice_sdr.Base.Lines.{
  Free, bracket, cut, cut_here, cut_last, has, join, put_first, show_int, split_lines,
  trim_brackets, trim_brackets_left, trim_brackets_right, unlines, ◌<>◌,
}

pub or_false : (a b : Bool) → (a || b) ≡ false → (a ≡ false) × (b ≡ false)
or_false true b h = cc
or_false false b h = (refl, h)

Free-uncons :
    (n : ℕ) (c : Char) (s : String) → Free n (String.◌∷◌ c s) → (code c == n ≡ false) × Free n s
unfolding Free has
Free-uncons n c s h = or_false (code c == n) (has n s) h

pub Free-tail : (n : ℕ) (c : Char) (s : String) → Free n (String.◌∷◌ c s) → Free n s
Free-tail n c s h = (Free-uncons n c s h).1

pub Free-cons :
    (n : ℕ) (c : Char) (s : String) → code c == n ≡ false → Free n s → Free n (String.◌∷◌ c s)
unfolding Free has
Free-cons n c s h f = rw (h, f) refl

pub Free-empty : (n : ℕ) → Free n ""
unfolding Free has
Free-empty n = refl

pub Free-<> : (n : ℕ) (s t : String) → Free n s → Free n t → Free n (s <> t)
Free-<> n String.[] t f g = g
Free-<> n (String.◌∷◌ c s) t f g =
    let (first, rest) = Free-uncons n c s f in Free-cons n c (s <> t) first (Free-<> n s t rest g)

-- Both parts of a cut text are without a character that the text is without.
unfoldable pub AreFree : ℕ → Option (String × String) → Type 0
AreFree n none = Unit
AreFree n (some (a, b)) = Free n a × Free n b

cut_here-AreFree :
    (n m : ℕ) (c : Char) (s : String) (r : Option (String × String))
    → code c == n ≡ false
    → Free n s
    → AreFree n r
    → AreFree n (cut_here m c s r)
unfolding AreFree
cut_here-AreFree n m c s none h f free = elim (Bool-cases (code c == m)) [
  | inl hit ↦ rw hit (Free-empty n, f)
  | inr miss ↦ rw miss tt
]
cut_here-AreFree n m c s (some (a, b)) h f (fa, fb) = (Free-cons n c a h fa, fb)

pub cut_last-AreFree : (n m : ℕ) (s : String) → Free n s → AreFree n (cut_last m s)
unfolding cut_last AreFree
cut_last-AreFree n m String.[] f = tt
cut_last-AreFree n m (String.◌∷◌ c s) f =
    let (first, rest) = Free-uncons n c s f in
    cut_here-AreFree n m c s (cut_last m s) first rest (cut_last-AreFree n m s rest)

put_first-AreFree :
    (n : ℕ) (c : Char) (r : Option (String × String))
    → code c == n ≡ false
    → AreFree n r
    → AreFree n (put_first c r)
unfolding AreFree
put_first-AreFree n c none h free = tt
put_first-AreFree n c (some (a, b)) h (fa, fb) = (Free-cons n c a h fa, fb)

pub cut-AreFree : (n m : ℕ) (s : String) → Free n s → AreFree n (cut m s)
unfolding cut AreFree
cut-AreFree n m String.[] f = tt
cut-AreFree n m (String.◌∷◌ c s) f =
    let (first, rest) = Free-uncons n c s f in
    elim (Bool-cases (code c == m)) [
      | inl hit ↦ rw hit (Free-empty n, rest)
      | inr miss ↦ rw miss (put_first-AreFree n c (cut m s) first (cut-AreFree n m s rest))
    ]

trim_left-Free : (n : ℕ) (s : String) → Free n s → Free n (trim_brackets_left s)
unfolding trim_brackets_left
trim_left-Free n String.[] f = f
trim_left-Free n (String.◌∷◌ c s) f =
    let (first, rest) = Free-uncons n c s f in
    elim (Bool-cases (bracket (code c))) [
      | inl hit ↦ rw hit (trim_left-Free n s rest)
      | inr miss ↦ rw miss f
    ]

trim_right-Free : (n : ℕ) (s : String) → Free n s → Free n (trim_brackets_right s)
unfolding trim_brackets_right
trim_right-Free n String.[] f = f
trim_right-Free n (String.◌∷◌ c s) f =
    let (first, rest) = Free-uncons n c s f in
    elim (Bool-cases (is_empty (trim_brackets_right s) && bracket (code c))) [
      | inl hit ↦ rw hit (Free-empty n)
      | inr miss ↦ rw miss (Free-cons n c (trim_brackets_right s) first (trim_right-Free n s rest))
    ]

pub trim_brackets-Free : (n : ℕ) (s : String) → Free n s → Free n (trim_brackets s)
unfolding trim_brackets
trim_brackets-Free n s f = trim_left-Free n (trim_brackets_right s) (trim_right-Free n s f)

IsKept : Char → Type 0
IsKept c = code c == 10 ≡ false

either_char : (b : Bool) (x y : Char) → IsKept x → IsKept y → IsKept (if b then x else y)
either_char true x y h k = h
either_char false x y h k = k

kept : (c : Char) → code c == 10 ≡ false → IsKept c
unfolding IsKept
kept c h = h

digit-IsKept : (d : ℕ) → IsKept (digit d)
unfolding digit
digit-IsKept d = either_char (d == 0) "0" _ (kept "0" refl) (
    either_char (d == 1) "1" _ (kept "1" refl) (
      either_char (d == 2) "2" _ (kept "2" refl) (
        either_char (d == 3) "3" _ (kept "3" refl) (
          either_char (d == 4) "4" _ (kept "4" refl) (
            either_char (d == 5) "5" _ (kept "5" refl) (
              either_char (d == 6) "6" _ (kept "6" refl) (
                either_char (d == 7) "7" _ (kept "7" refl)
                  (either_char (d == 8) "8" _ (kept "8" refl) (kept "9" refl)))))))))

digit-Free : (d : ℕ) → code (digit d) == 10 ≡ false
digit-Free d = unfold IsKept in digit-IsKept d

put_digits-Free : (fuel n : ℕ) (s : String) → Free 10 s → Free 10 (put_digits fuel n s)
unfolding put_digits
put_digits-Free zero n s f = f
put_digits-Free (suc fuel) n s f = elim (Bool-cases (n == 0)) [
  | inl done ↦ rw done f
  | inr more ↦ rw more (
      put_digits-Free fuel (n / 10) (String.◌∷◌ (digit (n % 10)) s)
        (Free-cons 10 (digit (n % 10)) s (digit-Free (n % 10)) f))
]

pub show_int-Free : (z : ℤ) → Free 10 (show_int z)
unfolding show_int
show_int-Free (pos n) = elim (Bool-cases (n == 0)) [
  | inl hit ↦ rw hit (Free-cons 10 "0" "" refl (Free-empty 10))
  | inr miss ↦ rw miss (put_digits-Free 20 n "" (Free-empty 10))
]
show_int-Free (negsuc n) =
    Free-cons 10 "-" (put_digits 20 (suc n) "") refl (put_digits-Free 20 (suc n) "" (Free-empty 10))

split_one : (l s : String) → Free 10 l → split_lines (l <> String.◌∷◌ "\n" s) ≡ l ∷ split_lines s
unfolding split_lines
split_one String.[] s h = refl
split_one (String.◌∷◌ c l) s h =
    let (first, rest) = Free-uncons 10 c l h in rw (first, split_one l s rest) refl

pub split_lines-unlines :
    (ls : List String) → All (Free 10) ls → split_lines (unlines ls) ≡ ls ++ ("" ∷ [])
unfolding split_lines unlines
split_lines-unlines [] h = refl
split_lines-unlines (l ∷ ls) (now, later) =
    split_one l (unlines ls) now ∙ ap (λ r. l ∷ r) (split_lines-unlines ls later)

pub join-lines : (ls : List String) → join "\n" (ls ++ ("" ∷ [])) ≡ unlines ls
unfolding join unlines
join-lines [] = refl
join-lines (l ∷ []) = refl
join-lines (l ∷ m ∷ ls) = ap (λ r. l <> String.◌∷◌ "\n" r) (join-lines (m ∷ ls))
