-- ===== src/Workloads/Eligibility.antt =====
-- internal/workloads/workload_modifier.go: which workloads are modified. The texts of the reasons are
-- left out.
pub mod Conditions
use dash0_operator.Base.{
  ℕ, String, Bool, false, not, ◌&&◌, Option, none, some, List, [], ◌∷◌, any, contains, ◌==◌,
  if◌then◌else◌, ltb,
}
use dash0_operator.Workloads.Pod.{
  SelectorOperator, op_in, op_not_in, op_other, MatchExpression, Container, PodSpec, OwnerReference,
  ResourceModifier,
}

pub data Reason : Type 0 where
  no_changes owned_by_higher_order_workload unsupported_operating_system : Reason
  ephemeral_storage_limit_too_low : String → Reason

abbrev pub kubernetes_io_os : String
kubernetes_io_os = "kubernetes.io/os"

-- ephemeralStorageLimitThresholdBytes
abbrev pub threshold_bytes : ℕ
threshold_bytes = 500000000

os_is_unsupported : Option String → Bool
os_is_unsupported none = false
os_is_unsupported (some name) = not (name == "") && not (name == "linux")

abbrev pub selects_another_os : String × String → Bool
selects_another_os (key, value) = key == kubernetes_io_os && not (value == "linux")

abbrev pub excludes_linux : SelectorOperator → List String → Bool
excludes_linux op_in values = not (contains values "linux")
excludes_linux op_not_in values = contains values "linux"
excludes_linux op_other values = false

abbrev pub expression_excludes_linux : MatchExpression → Bool
expression_excludes_linux e = e.key == kubernetes_io_os && excludes_linux e.operator e.values

terms_exclude_linux : Option (List (List MatchExpression)) → Bool
terms_exclude_linux none = false
terms_exclude_linux (some terms) = any terms (λ term. any term expression_excludes_linux)

abbrev pub limit_is_too_low : Option ℕ → Bool
limit_is_too_low none = false
limit_is_too_low (some limit) = ltb limit threshold_bytes

unfoldable pub check_ephemeral_storage_limit : List Container → Option Reason
check_ephemeral_storage_limit [] = none
check_ephemeral_storage_limit (c ∷ containers) =
    let rest = check_ephemeral_storage_limit containers in
    if limit_is_too_low c.resources.ephemeral_storage_limit
    then some (ephemeral_storage_limit_too_low c.name)
    else rest

module _ (m : ResourceModifier) where
  unfoldable pub check_eligible_for_modification : PodSpec → Option Reason
  unfolding os_is_unsupported terms_exclude_linux
  check_eligible_for_modification spec =
      if os_is_unsupported spec.os_name
      then some unsupported_operating_system
      else if any spec.node_selector selects_another_os
      then some unsupported_operating_system
      else if terms_exclude_linux spec.node_selector_terms
      then some unsupported_operating_system
      else if not m.is_image_volume
      then check_ephemeral_storage_limit spec.containers
      else none

unfoldable pub has_matching_owner_reference : List OwnerReference → List OwnerReference → Bool
has_matching_owner_reference references types =
    any references
      (λ actual. any types (λ t. actual.api_version == t.api_version && actual.kind == t.kind))
