-- ===== src/Base/Sorting/Unique.antt =====
-- Strictly sorted lists, and the sort of a list without repetition.
use Prim.Native.Nat.{Ordering}
use mathlib.Core.Path.{◌≡◌, refl, sym}
use mathlib.Core.Logic.{◌⊎◌, inl, inr, ◌↔◌}
use mathlib.Core.List.{List, [], ◌∷◌}
use native.Mathlib.Omega.{arith}
use dash0_operator.Base.Lists.{All}
use dash0_operator.Base.Members.{In, IsDistinct, SameMembers, All-In, All-of_In}
use dash0_operator.Base.Sorting.{insert, sort_stable}

pub record IsOrder {A : Type 0} (cmp : A → A → Ordering) : Type 0 where
  pub eq_of : (a b : A) → cmp a b ≡ Ordering.eq → a ≡ b
  pub self : (a : A) → cmp a a ≡ Ordering.eq
  pub flip : (a b : A) → cmp a b ≡ Ordering.gt → cmp b a ≡ Ordering.lt
  pub trans : (a b c : A) → cmp a b ≡ Ordering.lt → cmp b c ≡ Ordering.lt → cmp a c ≡ Ordering.lt

abbrev IsSorted : {A : Type 0} → (A → A → Ordering) → List A → Type 0
IsSorted cmp [] = Unit
IsSorted cmp (x ∷ xs) = All (λ y. cmp x y ≡ Ordering.lt) xs × IsSorted cmp xs

data Compared {A : Type 0} (cmp : A → A → Ordering) (x y : A) : Type 0 where
  is_lt : cmp x y ≡ Ordering.lt → Compared cmp x y
  is_eq : cmp x y ≡ Ordering.eq → Compared cmp x y
  is_gt : cmp x y ≡ Ordering.gt → Compared cmp x y

compared : {A : Type 0} (cmp : A → A → Ordering) (x y : A) → Compared cmp x y
compared cmp x y = go (cmp x y) refl
  where
    go : (o : Ordering) → cmp x y ≡ o → Compared cmp x y
    go Ordering.lt e = is_lt e
    go Ordering.eq e = is_eq e
    go Ordering.gt e = is_gt e

module _ {A : Type 0} (cmp : A → A → Ordering) where
  In-insert : (a x : A) (xs : List A) → In a (insert cmp x xs) ↔ ((x ≡ a) ⊎ In a xs)
  unfolding insert
  In-insert a x [] = (λ h. h, λ h. h)
  In-insert a x (y ∷ ys) = ground (arith, In-insert a x ys)

  pub In-sort_stable : (a : A) (xs : List A) → In a (sort_stable cmp xs) ↔ In a xs
  unfolding sort_stable
  In-sort_stable a [] = (λ h. h, λ h. h)
  In-sort_stable a (x ∷ xs) =
      ground (arith, In-insert a x (sort_stable cmp xs), In-sort_stable a xs)

module _ {A : Type 0} (cmp : A → A → Ordering) (order : IsOrder cmp) where
  All-before :
      (x y : A) (ys : List A)
      → cmp x y ≡ Ordering.lt
      → All (λ z. cmp y z ≡ Ordering.lt) ys
      → All (λ z. cmp x z ≡ Ordering.lt) ys
  All-before x y [] h all = tt
  All-before x y (z ∷ zs) h all = (order.trans x y z h all.0, All-before x y zs h all.1)

  insert-IsSorted :
      (x : A) (xs : List A) → IsSorted cmp xs → ¬ (In x xs) → IsSorted cmp (insert cmp x xs)
  unfolding insert
  insert-IsSorted x [] s n = (tt, tt)
  insert-IsSorted x (y ∷ ys) s n = elim (compared cmp x y) [
    | is_lt e ↦ rw (e, insert) ((e, All-before x y ys e s.0), s)
    | is_eq e ↦ absurd (n (inl (sym (order.eq_of x y e))))
    | is_gt e ↦
        rw (e, insert)
          (
            All-of_In _ (insert cmp x ys) (λ a i. elim ((In-insert cmp a x ys).0 i) [
              | inl p ↦ rw (← p) (order.flip x y e)
              | inr j ↦ All-In _ a ys s.0 j
            ]),
            insert-IsSorted x ys s.1 (λ i. n (inr i)),
          )
  ]

  sort_stable-IsSorted : (xs : List A) → IsDistinct xs → IsSorted cmp (sort_stable cmp xs)
  unfolding sort_stable
  sort_stable-IsSorted [] d = tt
  sort_stable-IsSorted (x ∷ xs) d =
      insert-IsSorted x (sort_stable cmp xs) (sort_stable-IsSorted xs d.1)
        (λ i. d.0 ((In-sort_stable cmp x xs).0 i))

  irreflexive : (x : A) → ¬ (cmp x x ≡ Ordering.lt)
  irreflexive x h = cc (order.self x)

  -- The heads of two sorted lists with the same members are one.
  heads_agree :
      (x y : A) (xs ys : List A)
      → IsSorted cmp (x ∷ xs)
      → IsSorted cmp (y ∷ ys)
      → SameMembers (x ∷ xs) (y ∷ ys)
      → x ≡ y
  heads_agree x y xs ys s t same = elim ((same x).0 (inl refl)) [
    | inl e ↦ sym e
    | inr i ↦ elim ((same y).1 (inl refl)) [
      | inl e ↦ e
      | inr j ↦
          absurd (irreflexive x (order.trans x y x (All-In _ y xs s.0 j) (All-In _ x ys t.0 i)))
    ]
  ]

  tail_member :
      (x a : A) (xs ys : List A)
      → All (λ z. cmp x z ≡ Ordering.lt) xs
      → (In a (x ∷ xs) → In a (x ∷ ys))
      → In a xs
      → In a ys
  tail_member x a xs ys before_all to i = elim (to (inr i)) [
    | inl e ↦ absurd (irreflexive x (All-In _ x xs before_all (rw e i)))
    | inr j ↦ j
  ]

  IsSorted-unique :
      (xs ys : List A) → IsSorted cmp xs → IsSorted cmp ys → SameMembers xs ys → xs ≡ ys
  IsSorted-unique [] [] s t same = refl
  IsSorted-unique [] (y ∷ ys) s t same = absurd ((same y).1 (inl refl))
  IsSorted-unique (x ∷ xs) [] s t same = absurd ((same x).0 (inl refl))
  IsSorted-unique (x ∷ xs) (y ∷ ys) s t same =
      let e = heads_agree x y xs ys s t same in
      let same' : SameMembers (x ∷ xs) (x ∷ ys) = rw (← e) at same in
      let s' : All (λ z. cmp x z ≡ Ordering.lt) ys = rw (← e) at (t.0) in
      let rest =
        IsSorted-unique xs ys s.1 t.1
          (λ a. (tail_member x a xs ys s.0 (same' a).0, tail_member x a ys xs s' (same' a).1)) in
      cc (e, rest)

  pub sort_stable_unique :
      (xs ys : List A)
      → IsDistinct xs
      → IsDistinct ys
      → SameMembers xs ys
      → sort_stable cmp xs ≡ sort_stable cmp ys
  sort_stable_unique xs ys d e same =
      IsSorted-unique (sort_stable cmp xs) (sort_stable cmp ys) (sort_stable-IsSorted xs d)
        (sort_stable-IsSorted ys e)
        (λ a. (
          λ i. (In-sort_stable cmp a ys).1 ((same a).0 ((In-sort_stable cmp a xs).0 i)),
          λ i. (In-sort_stable cmp a xs).1 ((same a).1 ((In-sort_stable cmp a ys).0 i)),
        ))
