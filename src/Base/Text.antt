-- ===== src/Base/Text.antt =====
-- The functions of Go's strings package that the operator and its images use, over the characters of
-- a text. The map of a character to lower case is a parameter.
pub mod Trimming
use Prim.Native.Nat.{ℕ, zero, suc, ◌-◌}
use Prim.Native.Char.{Char, code}
use Prim.Native.String
use Prim.Native.String.{String, [], ◌∷◌}
use mathlib.Core.Bool.{Bool, true, false, ◌&&◌, ◌||◌}
use mathlib.Core.Option.{Option, none, some}
use mathlib.Core.List.{List, [], ◌∷◌}
use text.Mathlib.Text.{starts_with}
use dash0_operator.Base.Tests.{nat_eq, leb, if◌then◌else◌}

-- unicode.IsSpace
abbrev pub is_space : Char → Bool
is_space c =
    let n = code c in
    (leb 9 n && leb n 13)
    || nat_eq n 32
    || nat_eq n 0x85
    || nat_eq n 0xa0
    || nat_eq n 0x1680
    || (leb 0x2000 n && leb n 0x200a)
    || nat_eq n 0x2028
    || nat_eq n 0x2029
    || nat_eq n 0x202f
    || nat_eq n 0x205f
    || nat_eq n 0x3000

unfoldable pub trim_left : String → String
trim_left [] = []
trim_left (c ∷ s) = let rest = trim_left s in if is_space c then rest else c ∷ s

abbrev is_empty : String → Bool
is_empty [] = true
is_empty (c ∷ s) = false

unfoldable pub trim_right : String → String
trim_right [] = []
trim_right (c ∷ s) = let rest = trim_right s in if is_space c && is_empty rest then [] else c ∷ rest

-- strings.TrimSpace
unfoldable pub trim_space : String → String
unfolding trim_left trim_right
trim_space s = trim_right (trim_left s)

-- The text before the first character with this code: s[:strings.Index(s, c)], or all of it.
unfoldable pub before : ℕ → String → String
before n [] = []
before n (c ∷ s) = let rest = before n s in if nat_eq (code c) n then [] else c ∷ rest

unfoldable pub has_char : ℕ → String → Bool
has_char n [] = false
has_char n (c ∷ s) = nat_eq (code c) n || has_char n s

abbrev pub on_first : Char → List String → List String
on_first c [] = (c ∷ []) ∷ []
on_first c (part ∷ parts) = (c ∷ part) ∷ parts

-- strings.Split by one character
unfoldable pub split : ℕ → String → List String
split n [] = [] ∷ []
split n (c ∷ s) = let rest = split n s in if nat_eq (code c) n then [] ∷ rest else on_first c rest

-- strings.Contains
unfoldable pub contains_text : String → String → Bool
contains_text [] part = starts_with [] part
contains_text (c ∷ s) part = starts_with (c ∷ s) part || contains_text s part

-- strings.ToLower, by the map of a character
unfoldable pub to_lower : (Char → Char) → String → String
to_lower lower [] = []
to_lower lower (c ∷ s) = lower c ∷ to_lower lower s

-- strings.Join by one character
join_from : Char → String → List String → String
join_from separator s [] = s
join_from separator s (t ∷ more) = join_from separator (String.◌++◌ s (separator ∷ t)) more

unfoldable pub join : Char → List String → String
unfolding join_from
join separator [] = []
join separator (s ∷ more) = join_from separator s more

-- strings.CutPrefix; none where the text does not have the prefix
unfoldable pub cut_prefix : String → String → Option String
cut_prefix [] s = some s
cut_prefix (p ∷ prefix) [] = none
cut_prefix (p ∷ prefix) (c ∷ s) =
    let rest = cut_prefix prefix s in if nat_eq (code p) (code c) then rest else none

unfoldable pub count_chars : String → ℕ
count_chars [] = 0
count_chars (c ∷ s) = suc (count_chars s)

-- What is left when every occurrence of a text is taken out, from the left and without overlaps;
-- `skip` characters of the occurrence at hand are still to come.
remove_from : ℕ → String → String → String
unfolding count_chars
remove_from skip part [] = []
remove_from (suc skip) part (c ∷ s) = remove_from skip part s
remove_from zero part (c ∷ s) = elim (starts_with (c ∷ s) part) [
  | true ↦ remove_from (count_chars part - 1) part s
  | false ↦ c ∷ remove_from 0 part s
]

-- strings.ReplaceAll with the empty text, of a text that is not empty
unfoldable pub remove_all : String → String → String
unfolding remove_from
remove_all s part = remove_from 0 part s

abbrev pub is_digit : Char → Bool
is_digit c = leb 48 (code c) && leb (code c) 57

unfoldable pub all_digits : String → Bool
all_digits [] = true
all_digits (c ∷ s) = is_digit c && all_digits s
