-- ===== src/Workloads/Images/Bounds.antt =====
-- internal/util/labels.go: the label value of an image reference has the length and the characters that
-- Kubernetes allows.
use Prim.Native.String
use Prim.Native.String.{[], ◌∷◌}
use text.Mathlib.TextLemmas.{nil-append, cons-append}
use dash0_operator.Base.{
  ℕ, zero, suc, ◌+◌, ◌≤◌, String, Bool, true, ◌&&◌, ◌==◌, if◌then◌else◌, leb, ltb, ◌≡◌, refl, arith,
  Bool-cases, inl, inr, eq_iff,
}
use dash0_operator.Base.Text.{count_chars}
use dash0_operator.Workloads.Images.{
  is_label_char, replace_invalid_characters, trim_punctuation, sanitize_label_value,
  after_last_slash, first_chars, image_ref_to_label,
}

-- Only characters that a label value may have.
unfoldable pub has_label_chars : String → Bool
has_label_chars [] = true
has_label_chars (c ∷ s) = is_label_char c && has_label_chars s

count_chars-replace : (s : String) → count_chars (replace_invalid_characters s) ≡ count_chars s
unfolding count_chars replace_invalid_characters
count_chars-replace [] = refl
count_chars-replace (c ∷ s) = ground (arith, count_chars-replace s)

count_chars-trim : (s : String) → count_chars (trim_punctuation s) ≤ count_chars s
unfolding count_chars trim_punctuation
count_chars-trim [] = ground arith
count_chars-trim (c ∷ s) = ground (arith, count_chars-trim s)

count_chars-sanitize : (s : String) → count_chars (sanitize_label_value s) ≤ count_chars s
unfolding sanitize_label_value
count_chars-sanitize s =
    ground (arith, count_chars-trim (replace_invalid_characters s), count_chars-replace s)

count_chars-first : (n : ℕ) (s : String) → count_chars (first_chars n s) ≤ n
unfolding count_chars first_chars
count_chars-first zero s = ground arith
count_chars-first (suc n) [] = ground arith
count_chars-first (suc n) (c ∷ s) = ground (arith, count_chars-first n s)

count_chars-append : (s t : String) → count_chars (String.◌++◌ s t) ≡ count_chars s + count_chars t
unfolding count_chars
count_chars-append [] t = rw (nil-append t) (ground arith)
count_chars-append (c ∷ s) t = ground (arith, cons-append c s t, count_chars-append s t)

underscore-label_char : is_label_char "_" ≡ true
unfolding is_label_char
underscore-label_char = refl

chars-replace : (s : String) → has_label_chars (replace_invalid_characters s) ≡ true
unfolding has_label_chars replace_invalid_characters
chars-replace [] = refl
chars-replace (c ∷ s) = ground (arith, underscore-label_char, chars-replace s)

chars-trim : (s : String) → has_label_chars s ≡ true → has_label_chars (trim_punctuation s) ≡ true
unfolding has_label_chars trim_punctuation
chars-trim [] h = refl
chars-trim (c ∷ s) h = ground (arith, chars-trim s)

chars-first :
    (n : ℕ) (s : String) → has_label_chars s ≡ true → has_label_chars (first_chars n s) ≡ true
unfolding has_label_chars first_chars
chars-first zero s h = refl
chars-first (suc n) [] h = refl
chars-first (suc n) (c ∷ s) h = ground (arith, chars-first n s)

chars-append :
    (s t : String)
    → has_label_chars s ≡ true
    → has_label_chars t ≡ true
    → has_label_chars (String.◌++◌ s t) ≡ true
unfolding has_label_chars
chars-append [] t h k = rw (nil-append t) k
chars-append (c ∷ s) t h k = ground (arith, cons-append c s t, chars-append s t)

chars-sanitize : (s : String) → has_label_chars (sanitize_label_value s) ≡ true
unfolding sanitize_label_value
chars-sanitize s = chars-trim (replace_invalid_characters s) (chars-replace s)

count_chars-long :
    (readable suffix : String)
    → count_chars (String.◌++◌ readable (String.◌++◌ "_" suffix))
      ≡ suc (count_chars readable + count_chars suffix)
unfolding count_chars
count_chars-long readable suffix =
    ground
      (arith, count_chars-append readable (String.◌++◌ "_" suffix), count_chars-append "_" suffix)

chars-long :
    (readable suffix : String)
    → has_label_chars readable ≡ true
    → has_label_chars suffix ≡ true
    → has_label_chars (String.◌++◌ readable (String.◌++◌ "_" suffix)) ≡ true
unfolding has_label_chars
chars-long readable suffix h k =
    chars-append readable (String.◌++◌ "_" suffix) h
      (chars-append "_" suffix (rw underscore-label_char refl) k)

-- What a label value may be.
abbrev pub IsLabelValue : String → Type 0
IsLabelValue s = (count_chars s ≤ 63) × (has_label_chars s ≡ true)

empty-IsLabelValue : (s : String) → s ≡ "" → IsLabelValue s
unfolding count_chars has_label_chars
empty-IsLabelValue s h = (rw h (ground arith), rw h refl)

short-IsLabelValue : (s : String) → count_chars s ≤ 63 → IsLabelValue (sanitize_label_value s)
short-IsLabelValue s h = (ground (arith, count_chars-sanitize s), chars-sanitize s)

long-IsLabelValue :
    (part suffix : String)
    → count_chars part ≤ 46
    → count_chars suffix ≤ 16
    → has_label_chars suffix ≡ true
    → IsLabelValue (String.◌++◌ (sanitize_label_value part) (String.◌++◌ "_" suffix))
long-IsLabelValue part suffix h k l = (
  ground (arith, count_chars-sanitize part, count_chars-long (sanitize_label_value part) suffix),
  chars-long (sanitize_label_value part) suffix (chars-sanitize part) l,
)

module _ (hash : String → String) where
  -- The label value of an image reference is at most 63 characters long, and, where the hash only has
  -- letters, digits, '-', '.' and '_', it only has these characters as well.
  pub image_ref_to_label-bounds :
      (ref : String)
      → has_label_chars (hash ref) ≡ true
      → IsLabelValue (image_ref_to_label hash ref)
  unfolding image_ref_to_label
  image_ref_to_label-bounds ref h =
      let last = after_last_slash ref in
      let part = if ltb 46 (count_chars last) then first_chars 46 last else last in
      let suffix = first_chars 16 (hash ref) in
      let suffix_chars = chars-first 16 (hash ref) h in
      let suffix_length = count_chars-first 16 (hash ref) in
      elim (Bool-cases (ref == "")) [
        | inl e ↦ rw e (empty-IsLabelValue ref ((eq_iff ref "").0 e))
        | inr e ↦ elim (Bool-cases (leb (count_chars ref) 63)) [
          | inl k ↦ rw (e, k) (short-IsLabelValue ref (ground (arith, k)))
          | inr k ↦ elim (Bool-cases (sanitize_label_value part == "")) [
            | inl l ↦ rw (e, k, l) (ground (arith, suffix_length), suffix_chars)
            | inr l ↦
                rw (e, k, l)
                  (long-IsLabelValue part suffix (ground (arith, count_chars-first 46 last))
                    suffix_length suffix_chars)
          ]
        ]
      ]
