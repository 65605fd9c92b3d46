-- ===== src/Workloads/Eligibility/Conditions.antt =====
-- internal/workloads/workload_modifier.go: the conditions under which a workload is modified, stated
-- without the code's order of checks.
use dash0_operator.Base.{
  ℕ, String, Bool, false, Option, none, some, List, [], ◌∷◌, any, All, ◌≡◌, ◌↔◌, ◌⊎◌, inl, inr, ◌≤◌,
  refl, arith, eq_iff, Bool-cases,
}
use dash0_operator.Base.Members.{In, contains_iff, contains-false_iff}
use dash0_operator.Workloads.Pod.{
  SelectorOperator, op_in, op_not_in, op_other, MatchExpression, Container, PodSpec,
  ResourceModifier,
}
use dash0_operator.Workloads.Eligibility.{
  kubernetes_io_os, threshold_bytes, os_is_unsupported, selects_another_os, excludes_linux,
  expression_excludes_linux, terms_exclude_linux, limit_is_too_low, check_ephemeral_storage_limit,
  check_eligible_for_modification,
}

any-false-All :
    {A : Type 0} (p : A → Bool) (P : A → Type 0)
    → ((a : A) → (p a ≡ false) ↔ P a)
    → (xs : List A) → (any xs p ≡ false) ↔ All P xs
any-false-All p P k [] = (λ h. tt, λ h. refl)
any-false-All p P k (x ∷ xs) = ground (arith, k x, any-false-All p P k xs)

-- The operating system of the pod, where it is named.
abbrev pub AllowsOs : Option String → Type 0
AllowsOs none = Unit
AllowsOs (some name) = (name ≡ "") ⊎ (name ≡ "linux")

-- An entry of the node selector.
abbrev pub SelectsLinux : String × String → Type 0
SelectsLinux (key, value) = (key ≡ kubernetes_io_os) → (value ≡ "linux")

abbrev pub OperatorAllowsLinux : SelectorOperator → List String → Type 0
OperatorAllowsLinux op_in values = In "linux" values
OperatorAllowsLinux op_not_in values = ¬ (In "linux" values)
OperatorAllowsLinux op_other values = Unit

-- An expression of the required node affinity.
abbrev pub AllowsLinux : MatchExpression → Type 0
AllowsLinux e = (e.key ≡ kubernetes_io_os) → OperatorAllowsLinux e.operator e.values

abbrev pub TermsAllowLinux : Option (List (List MatchExpression)) → Type 0
TermsAllowLinux none = Unit
TermsAllowLinux (some terms) = All (All AllowsLinux) terms

-- The limit on ephemeral storage, where there is one.
abbrev pub HasRoom : Option ℕ → Type 0
HasRoom none = Unit
HasRoom (some limit) = threshold_bytes ≤ limit

-- All conditions on a pod specification.
pub record IsEligible (m : ResourceModifier) (spec : PodSpec) : Type 0 where
  pub os : AllowsOs spec.os_name
  pub selector : All SelectsLinux spec.node_selector
  pub affinity : TermsAllowLinux spec.node_selector_terms
  pub storage :
      (m.is_image_volume ≡ false)
      → All (λ (c : Container). HasRoom c.resources.ephemeral_storage_limit) spec.containers

os_iff : (o : Option String) → (os_is_unsupported o ≡ false) ↔ AllowsOs o
unfolding os_is_unsupported
os_iff none = (λ h. tt, λ h. refl)
os_iff (some name) = ground (arith, eq_iff name "", eq_iff name "linux")

selector_iff : (e : String × String) → (selects_another_os e ≡ false) ↔ SelectsLinux e
selector_iff (key, value) = ground (arith, eq_iff key kubernetes_io_os, eq_iff value "linux")

operator_iff :
    (o : SelectorOperator) (values : List String)
    → (excludes_linux o values ≡ false) ↔ OperatorAllowsLinux o values
operator_iff op_in values = ground (arith, contains_iff values "linux")
operator_iff op_not_in values = contains-false_iff values "linux"
operator_iff op_other values = (λ h. tt, λ h. refl)

expression_iff : (e : MatchExpression) → (expression_excludes_linux e ≡ false) ↔ AllowsLinux e
expression_iff e = ground (arith, eq_iff e.key kubernetes_io_os, operator_iff e.operator e.values)

terms_iff :
    (o : Option (List (List MatchExpression))) → (terms_exclude_linux o ≡ false) ↔ TermsAllowLinux o
unfolding terms_exclude_linux
terms_iff none = (λ h. tt, λ h. refl)
terms_iff (some terms) =
    any-false-All (λ term. any term expression_excludes_linux) (All AllowsLinux)
      (any-false-All expression_excludes_linux AllowsLinux expression_iff) terms

limit_iff : (o : Option ℕ) → (limit_is_too_low o ≡ false) ↔ HasRoom o
limit_iff none = (λ h. tt, λ h. refl)
limit_iff (some limit) = ground arith

storage_iff :
    (containers : List Container)
    → (check_ephemeral_storage_limit containers ≡ none)
      ↔ All (λ (c : Container). HasRoom c.resources.ephemeral_storage_limit) containers
unfolding check_ephemeral_storage_limit
storage_iff [] = (λ h. tt, λ h. refl)
storage_iff (c ∷ containers) =
    ground (arith, storage_iff containers, limit_iff c.resources.ephemeral_storage_limit)

-- A pod specification passes the checks before its modification exactly when its operating system is
-- unnamed or Linux, every entry of its node selector for the operating system is Linux, every
-- expression of the required node affinity on the operating system allows Linux, and, where the
-- instrumentation comes by an init container, no container limits its ephemeral storage below 500 MB.
pub check_eligible_for_modification_iff :
    (m : ResourceModifier) (spec : PodSpec)
    → (check_eligible_for_modification m spec ≡ none) ↔ IsEligible m spec
unfolding check_eligible_for_modification
check_eligible_for_modification_iff m spec =
    let os = os_iff spec.os_name in
    let selector = any-false-All selects_another_os SelectsLinux selector_iff spec.node_selector in
    let affinity = terms_iff spec.node_selector_terms in
    let storage = storage_iff spec.containers in
    (
      λ h. record {
        os = os.0 (ground (arith, h));
        selector = selector.0 (ground (arith, h));
        affinity = affinity.0 (ground (arith, h));
        storage = λ e. storage.0 (ground (arith, h, e));
      },
      λ h. elim (Bool-cases m.is_image_volume) [
        | inl e ↦ ground (arith, e, os.1 h.os, selector.1 h.selector, affinity.1 h.affinity)
        | inr e ↦ ground (
          arith,
          e,
          os.1 h.os,
          selector.1 h.selector,
          affinity.1 h.affinity,
          storage.1 (h.storage e),
        )
      ],
    )
