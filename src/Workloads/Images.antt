-- ===== src/Workloads/Images.antt =====
-- internal/util/labels.go: the label value of an image reference. References consist of ASCII
-- characters, so that bytes and characters count the same. The hexadecimal form of the SHA-256 hash
-- is a parameter.
pub mod Bounds
use Prim.Native.Char.{Char, code}
use Prim.Native.String
use Prim.Native.String.{[], ◌∷◌}
use dash0_operator.Base.{
  ℕ, zero, suc, ◌-◌, String, Bool, true, false, ◌&&◌, ◌||◌, ◌==◌, if◌then◌else◌, leb, ltb, nat_eq,
}
use dash0_operator.Base.Text.{count_chars, has_char, is_digit}

abbrev pub max_label_value_length : ℕ
max_label_value_length = 63

abbrev pub image_ref_hash_length : ℕ
image_ref_hash_length = 16

abbrev pub is_letter : Char → Bool
is_letter c = (leb 65 (code c) && leb (code c) 90) || (leb 97 (code c) && leb (code c) 122)

-- '-', '.' and '_'
abbrev pub is_punctuation : Char → Bool
is_punctuation c = nat_eq (code c) b'-' || nat_eq (code c) b'.' || nat_eq (code c) b'_'

unfoldable pub is_label_char : Char → Bool
is_label_char c = is_letter c || is_digit c || is_punctuation c

unfoldable pub replace_invalid_characters : String → String
replace_invalid_characters [] = []
replace_invalid_characters (c ∷ s) =
    let rest = replace_invalid_characters s in if is_label_char c then c ∷ rest else "_" ∷ rest

abbrev pub is_empty_text : String → Bool
is_empty_text [] = true
is_empty_text (c ∷ s) = false

-- strings.TrimRight with "-._"
unfoldable pub trim_punctuation : String → String
trim_punctuation [] = []
trim_punctuation (c ∷ s) =
    let rest = trim_punctuation s in if is_punctuation c && is_empty_text rest then [] else c ∷ rest

unfoldable pub sanitize_label_value : String → String
sanitize_label_value value = trim_punctuation (replace_invalid_characters value)

-- What follows the last slash, or all of it.
unfoldable pub after_last_slash : String → String
after_last_slash [] = []
after_last_slash (c ∷ s) =
    let rest = after_last_slash s in
    if has_char b'/' s then rest else if nat_eq (code c) b'/' then s else c ∷ s

-- s[:n]
unfoldable pub first_chars : ℕ → String → String
first_chars zero s = []
first_chars (suc n) [] = []
first_chars (suc n) (c ∷ s) = c ∷ first_chars n s

module _ (hash : String → String) where
  unfoldable pub image_ref_to_label : String → String
  image_ref_to_label ref =
      let suffix = first_chars image_ref_hash_length (hash ref) in
      let most = max_label_value_length - image_ref_hash_length - 1 in
      let last = after_last_slash ref in
      let readable =
        sanitize_label_value
          (if ltb most (count_chars last) then first_chars most last else last) in
      if ref == ""
      then ref
      else if leb (count_chars ref) max_label_value_length
      then sanitize_label_value ref
      else if readable == ""
      then suffix
      else String.◌++◌ readable (String.◌++◌ "_" suffix)
