-- ===== src/Kubectl/SortBy/Paths.antt =====
-- When a path of a --sort-by expression lies below another.
use dash0_operator.Base.{
  String, ◌≡◌, refl, ◌↔◌, ◌⊎◌, inl, inr, true, some, List, [], ◌∷◌, ◌++◌, eq_iff, arith,
  Option-cases,
}
use dash0_operator.Kubectl.Arguments.{KubectlLibrary}
use dash0_operator.Kubectl.SortBy.{
  is_sort_by_path_below, parse_sort_by_path, sort_by_expression_is_safe,
}

-- The path addresses the field or something in it.
abbrev pub IsBelow : List String → List String → Type 0
IsBelow path prefix = (rest : List String) × (path ≡ prefix ++ rest)

tail-eq : {x y : String} {xs ys : List String} → x ∷ xs ≡ y ∷ ys → (x ≡ y) × (xs ≡ ys)
tail-eq e = (cc, cc)

pub is_sort_by_path_below_iff :
    (path prefix : List String) → (is_sort_by_path_below path prefix ≡ true) ↔ IsBelow path prefix
unfolding is_sort_by_path_below
is_sort_by_path_below_iff path [] = (λ h. (path, refl), λ h. ground arith)
is_sort_by_path_below_iff [] (p ∷ prefix) = (λ h. absurd (ground arith), λ h. absurd (cc h.1))
is_sort_by_path_below_iff (s ∷ path) (p ∷ prefix) =
    let ih = is_sort_by_path_below_iff path prefix in
    (
      λ h. let (rest, e) = ih.0 (ground arith) in (rest, ground (arith, e, eq_iff s p)),
      λ h. let (same, e) = tail-eq h.1 in ground (arith, same, ih.1 (h.0, e), eq_iff s p),
    )

-- A plain path below the metadata or the status, but not below the annotations.
abbrev pub IsSafePath : List String → Type 0
IsSafePath path =
    (¬ (IsBelow path ("metadata" ∷ "annotations" ∷ [])))
    × (IsBelow path ("metadata" ∷ []) ⊎ IsBelow path ("status" ∷ []))

-- A sort expression is safe exactly when it is a plain path below the metadata or the status, and
-- not below the annotations.
pub sort_by_expression_is_safe_iff :
    (k : KubectlLibrary) (expression : String)
    → (sort_by_expression_is_safe k expression ≡ true)
      ↔ ((path : List String) × (parse_sort_by_path k expression ≡ some path) × IsSafePath path)
unfolding sort_by_expression_is_safe
sort_by_expression_is_safe_iff k expression =
    elim (Option-cases (parse_sort_by_path k expression)) [
      | inl e ↦ (λ h. absurd (ground arith), λ h. absurd (cc (e, h.1)))
      | inr (path, e) ↦
          let annotations = is_sort_by_path_below_iff path ("metadata" ∷ "annotations" ∷ []) in
          let metadata = is_sort_by_path_below_iff path ("metadata" ∷ []) in
          let status = is_sort_by_path_below_iff path ("status" ∷ []) in
          let from_safe =
            λ (h : (q : List String) × (parse_sort_by_path k expression ≡ some q) × IsSafePath q).
              let same : h.0 ≡ path = cc (h.1, e) in
              let safe : IsSafePath path = rw same at (h.2) in
              let outside = safe.0 in
              let inside = safe.1 in
              let b : sort_by_expression_is_safe k expression ≡ true =
                ground (arith, annotations.0, outside, inside, metadata.1, status.1) in
              b in
          (
            λ h. (
              path,
              e,
              (λ b. ground (arith, annotations.1 b), ground (arith, metadata.0, status.0)),
            ),
            λ h. from_safe h,
          )
    ]
