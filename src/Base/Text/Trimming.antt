-- ===== src/Base/Text/Trimming.antt =====
-- strings.TrimSpace twice.
use Prim.Native.String.{String, [], ◌∷◌}
use mathlib.Core.Path.{◌≡◌, refl}
use mathlib.Core.Logic.{inl, inr}
use mathlib.Core.Bool.{Bool, true, false, not, ◌&&◌}
use native.Mathlib.Omega.{arith}
use dash0_operator.Base.Tests.{Bool-cases}
use dash0_operator.Base.Text.{is_space, is_empty, trim_left, trim_right, trim_space}

trim_right_idem : (s : String) → trim_right (trim_right s) ≡ trim_right s
unfolding trim_right
trim_right_idem [] = refl
trim_right_idem (c ∷ s) = elim (Bool-cases (is_space c && is_empty (trim_right s))) [
  | inl blank ↦ rw blank refl
  | inr kept ↦ rw (kept, trim_right_idem s, kept) refl
]

-- Not starting with a space.
is_bare : String → Bool
is_bare [] = true
is_bare (c ∷ s) = not (is_space c)

bare-trim_left : (s : String) → is_bare (trim_left s) ≡ true
unfolding trim_left is_bare
bare-trim_left [] = refl
bare-trim_left (c ∷ s) = elim (Bool-cases (is_space c)) [
  | inl blank ↦ rw blank (bare-trim_left s)
  | inr kept ↦ rw kept (rw (kept, is_bare) refl)
]

trim_left-bare : (s : String) → is_bare s ≡ true → trim_left s ≡ s
unfolding trim_left is_bare
trim_left-bare [] h = refl
trim_left-bare (c ∷ s) h = ground arith

bare-trim_right : (s : String) → is_bare s ≡ true → is_bare (trim_right s) ≡ true
unfolding trim_right is_bare
bare-trim_right [] h = refl
bare-trim_right (c ∷ s) h =
    let kept : is_space c ≡ false = ground arith in rw kept (rw (kept, is_bare) refl)

pub trim_space_idem : (s : String) → trim_space (trim_space s) ≡ trim_space s
unfolding trim_space
trim_space_idem s =
    let bare = bare-trim_right (trim_left s) (bare-trim_left s) in
    rw (trim_left-bare (trim_right (trim_left s)) bare) (trim_right_idem (trim_left s))
