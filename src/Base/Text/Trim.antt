-- ===== src/Base/Text/Trim.antt =====
-- What is trimmed stays as it is when it is trimmed again.
use Prim.Native.Char.{code}
use Prim.Native.String.{String}
use mathlib.Core.Path.{◌≡◌, refl}
use mathlib.Core.Logic.{inl, inr}
use mathlib.Core.Bool.{◌&&◌}
use agentic_voice_sdr.Base.Tests.{Bool-cases}
use agentic_voice_sdr.Base.Text.{is_space, is_empty, trim_left, trim_right, trim_space}

trim_left_idem : (s : String) → trim_left (trim_left s) ≡ trim_left s
unfolding trim_left
trim_left_idem String.[] = refl
trim_left_idem (String.◌∷◌ c s) = elim (Bool-cases (is_space (code c))) [
  | inl blank ↦ rw blank (trim_left_idem s)
  | inr solid ↦ rw (solid, solid) refl
]

trim_right_idem : (s : String) → trim_right (trim_right s) ≡ trim_right s
unfolding trim_right
trim_right_idem String.[] = refl
trim_right_idem (String.◌∷◌ c s) =
    elim (Bool-cases (is_empty (trim_right s) && is_space (code c))) [
      | inl blank ↦ rw blank refl
      | inr solid ↦ rw (solid, trim_right_idem s, solid) refl
    ]

trim_left-of_trim_right :
    (s : String) → trim_right (trim_left (trim_right s)) ≡ trim_left (trim_right s)
unfolding trim_left trim_right
trim_left-of_trim_right String.[] = refl
trim_left-of_trim_right (String.◌∷◌ c s) =
    elim (Bool-cases (is_empty (trim_right s) && is_space (code c))) [
      | inl blank ↦ rw blank refl
      | inr more ↦ elim (Bool-cases (is_space (code c))) [
        | inl blank ↦ rw (more, blank) (trim_left-of_trim_right s)
        | inr solid ↦ rw (more, solid, trim_right_idem s, more) refl
      ]
    ]

pub trim_space_idem : (s : String) → trim_space (trim_space s) ≡ trim_space s
unfolding trim_space
trim_space_idem s = rw (trim_left-of_trim_right s) (trim_left_idem (trim_right s))
