-- ===== src/Base/Lines.antt =====
-- Go's strings as texts of lines: pieces put together, single characters looked for, lines split and joined.
pub mod Free
use Prim.Native.Nat.{ℕ, zero, suc, ◌+◌, ◌*◌, ◌-◌, ◌/◌, ◌%◌}
use Prim.Native.Char.{Char, code}
use Prim.Native.String.{String}
use mathlib.Core.Path.{◌≡◌, refl, ap, ◌∙◌}
use mathlib.Core.Bool.{Bool, true, false, ◌&&◌, ◌||◌}
use mathlib.Core.Logic.{inl, inr}
use mathlib.Core.Option.{Option, none, some}
use mathlib.Core.List.{List, [], ◌∷◌, ◌++◌}
use agentic_voice_sdr.Base.Tests.{◌==◌, Bool-cases, if◌then◌else◌, ltb, leb}
use agentic_voice_sdr.Base.Lists.{All}
use agentic_voice_sdr.Base.Int.{ℤ, pos, negsuc}
use agentic_voice_sdr.Base.Text.{put_digits, digit, is_empty}

infixr 6 ◌<>◌
abbrev pub ◌<>◌ : String → String → String
String.[] <> t = t
(String.◌∷◌ c s) <> t = String.◌∷◌ c (s <> t)

-- `strings.Contains` of the character with a code.
unfoldable pub has : ℕ → String → Bool
has n String.[] = false
has n (String.◌∷◌ c s) = code c == n || has n s

-- A text without the character.
unfoldable pub Free : ℕ → String → Type 0
Free n s = has n s ≡ false

abbrev pub cut_here : ℕ → Char → String → Option (String × String) → Option (String × String)
cut_here n c s none = if code c == n then some ("", s) else none
cut_here n c s (some (a, b)) = some (String.◌∷◌ c a, b)

abbrev pub put_first : Char → Option (String × String) → Option (String × String)
put_first c none = none
put_first c (some (a, b)) = some (String.◌∷◌ c a, b)

-- The text before and after the last such character.
unfoldable pub cut_last : ℕ → String → Option (String × String)
cut_last n String.[] = none
cut_last n (String.◌∷◌ c s) = cut_here n c s (cut_last n s)

-- The text before and after the first such character, `strings.Cut`.
unfoldable pub cut : ℕ → String → Option (String × String)
cut n String.[] = none
cut n (String.◌∷◌ c s) =
    let rest = cut n s in if code c == n then some ("", s) else put_first c rest

abbrev pub bracket : ℕ → Bool
bracket c = c == 91 || c == 93

unfoldable pub trim_brackets_left : String → String
trim_brackets_left String.[] = String.[]
trim_brackets_left (String.◌∷◌ c s) =
    let r = trim_brackets_left s in if bracket (code c) then r else String.◌∷◌ c s

unfoldable pub trim_brackets_right : String → String
trim_brackets_right String.[] = String.[]
trim_brackets_right (String.◌∷◌ c s) =
    let r = trim_brackets_right s in
    if is_empty r && bracket (code c) then String.[] else String.◌∷◌ c r

-- `strings.Trim(s, "[]")`.
unfoldable pub trim_brackets : String → String
unfolding trim_brackets_left trim_brackets_right
trim_brackets s = trim_brackets_left (trim_brackets_right s)

-- `fmt.Sprint` of an int.
unfoldable pub show_int : ℤ → String
show_int (pos n) = if n == 0 then "0" else put_digits 20 n ""
show_int (negsuc n) = String.◌∷◌ "-" (put_digits 20 (suc n) "")

-- The number that digits after a number write.
unfoldable pub digits_value : ℕ → String → Option ℕ
digits_value n String.[] = some n
digits_value n (String.◌∷◌ c s) =
    let rest = digits_value (10 * n + (code c - 48)) s in
    if leb 48 (code c) && leb (code c) 57 then rest else none

abbrev digits : String → Option ℕ
digits s = if is_empty s then none else digits_value 0 s

abbrev negated : ℕ → ℤ
negated zero = pos 0
negated (suc n) = negsuc n

-- `strconv.Atoi`.
unfoldable pub atoi : String → Option ℤ
unfolding digits_value
atoi String.[] = none
atoi (String.◌∷◌ c s) =
    if code c == 45
    then minus (digits s)
    else if code c == 43
    then plus (digits s)
    else plus (digits (String.◌∷◌ c s))
  where
    minus : Option ℕ → Option ℤ
    minus none = none
    minus (some n) = if leb n 9223372036854775808 then some (negated n) else none

    plus : Option ℕ → Option ℤ
    plus none = none
    plus (some n) = if ltb n 9223372036854775808 then some (pos n) else none

abbrev pub extend : Char → List String → List String
extend c [] = String.◌∷◌ c "" ∷ []
extend c (l ∷ ls) = String.◌∷◌ c l ∷ ls

-- `strings.Split(s, "\n")`.
unfoldable pub split_lines : String → List String
split_lines String.[] = "" ∷ []
split_lines (String.◌∷◌ c s) =
    let rest = split_lines s in if code c == 10 then "" ∷ rest else extend c rest

-- `strings.Join(xs, sep)`.
unfoldable pub join : String → List String → String
join sep [] = ""
join sep (x ∷ []) = x
join sep (x ∷ y ∷ ys) = x <> sep <> join sep (y ∷ ys)

-- Every line with a line feed after it.
unfoldable pub unlines : List String → String
unlines [] = ""
unlines (l ∷ ls) = l <> String.◌∷◌ "\n" (unlines ls)
