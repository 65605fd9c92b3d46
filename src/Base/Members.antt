-- ===== src/Base/Members.antt =====
-- Membership in a list and lists without repetition, as types that compute.
use mathlib.Core.Path.{◌≡◌, refl}
use mathlib.Core.Logic.{◌⊎◌, inl, inr, ◌↔◌}
use mathlib.Core.Bool.{Bool, true, false, not}
use mathlib.Core.List.{List, [], ◌∷◌, ◌++◌}
use Prim.Native.String.{String}
use native.Mathlib.Omega.{arith}
use text.Mathlib.TextEquality.{eq_iff}
use dash0_operator.Base.Lists.{keep, any, contains, All}

module _ {A : Type 0} where
  abbrev pub In : A → List A → Type 0
  In a [] = ⊥
  In a (x ∷ xs) = (x ≡ a) ⊎ In a xs

  abbrev pub IsDistinct : List A → Type 0
  IsDistinct [] = Unit
  IsDistinct (x ∷ xs) = (¬ (In x xs)) × IsDistinct xs

  abbrev pub SameMembers : List A → List A → Type 0
  SameMembers xs ys = (a : A) → In a xs ↔ In a ys

  pub In-append : (a : A) (xs ys : List A) → In a (xs ++ ys) ↔ (In a xs ⊎ In a ys)
  In-append a [] ys = (λ h. inr h, λ h. elim h [ inl e ↦ absurd e | inr r ↦ r ])
  In-append a (x ∷ xs) ys = ground (arith, In-append a xs ys)

  pub All-In : (P : A → Type 0) (a : A) (xs : List A) → All P xs → In a xs → P a
  All-In P a [] h i = absurd i
  All-In P a (x ∷ xs) h (inl e) = rw (← e) h.0
  All-In P a (x ∷ xs) h (inr i) = All-In P a xs h.1 i

  pub All-of_In : (P : A → Type 0) (xs : List A) → ((a : A) → In a xs → P a) → All P xs
  All-of_In P [] h = tt
  All-of_In P (x ∷ xs) h = (h x (inl refl), All-of_In P xs (λ a i. h a (inr i)))

  pub In-keep : (a : A) (p : A → Bool) (xs : List A) → In a (keep p xs) ↔ (In a xs × (p a ≡ true))
  In-keep a p [] = (λ h. absurd h, λ h. h.0)
  In-keep a p (x ∷ xs) = ground (arith, In-keep a p xs)

pub contains_iff : (xs : List String) (s : String) → (contains xs s ≡ true) ↔ In s xs
contains_iff [] s = (λ h. cc, λ h. absurd h)
contains_iff (x ∷ xs) s = ground (arith, eq_iff x s, contains_iff xs s)

-- Nothing is missing exactly when every name is there.
pub keep-missing :
    (xs names : List String)
    → (keep (λ n. not (contains xs n)) names ≡ []) ↔ All (λ n. In n xs) names
keep-missing xs [] = (λ h. tt, λ h. refl)
keep-missing xs (n ∷ names) = ground (arith, contains_iff xs n, keep-missing xs names)

pub contains-false_iff : (xs : List String) (s : String) → (contains xs s ≡ false) ↔ (¬ (In s xs))
contains-false_iff xs s =
    (λ h i. cc (h, (contains_iff xs s).1 i), λ n. ground (arith, contains_iff xs s, n))

module _ {A : Type 0} where
  -- No member passes the test exactly when all of them fail it.
  pub any-false_iff : (xs : List A) (p : A → Bool) → (any xs p ≡ false) ↔ All (λ a. p a ≡ false) xs
  any-false_iff [] p = (λ h. tt, λ h. refl)
  any-false_iff (x ∷ xs) p = ground (arith, any-false_iff xs p)

  pub All-map : (P Q : A → Type 0) (xs : List A) → ((a : A) → P a → Q a) → All P xs → All Q xs
  All-map P Q [] f h = tt
  All-map P Q (x ∷ xs) f h = (f x h.0, All-map P Q xs f h.1)
