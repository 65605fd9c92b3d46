-- ===== src/Workloads/Modifier.antt =====
-- internal/workloads/workload_modifier.go: the modification of a workload and its reversal. The hash
-- of an image reference is a parameter.
pub mod Laws
use mathlib.Core.Option
use dash0_operator.Base.{
  ℕ, String, Bool, true, false, not, ◌&&◌, Option, none, some, List, [], ◌∷◌, any, length,
  if◌then◌else◌,
}
use dash0_operator.Workloads.Pod.{
  Env, Container, PodSpec, OwnerReference, ObjectMeta, Workload, ClusterConfig, NamespaceConfig,
  ResourceModifier,
}
use dash0_operator.Workloads.LdPreload.{Issue}
use dash0_operator.Workloads.Exporter.{otel_export_env_vars_can_be_updated_for_container}
use dash0_operator.Workloads.Settings.{
  otel_propagators_can_be_updated_for_container, otel_injector_conf_will_be_updated,
  otel_logs_exporter_will_be_updated, capture_sql_query_parameters_names,
  capture_sql_query_parameters_can_be_updated_for_container,
}
use dash0_operator.Workloads.PodSpecs.{ModifyPodSpecResult, modify_pod_spec, revert_pod_spec}
use dash0_operator.Workloads.Labels.{
  add_instrumentation_labels_and_annotations, remove_instrumentation_labels_and_annotations,
  instrumentation_attempt_has_failed, has_been_instrumented_successfully_by_this_version,
}
use dash0_operator.Workloads.Eligibility.{
  Reason, no_changes, owned_by_higher_order_workload, check_eligible_for_modification,
  has_matching_owner_reference,
}

-- ModificationResult
pub data ModificationResult : Type 0 where
  has_been_modified : ℕ → List (String × List Issue) → ModificationResult
  not_modified : Reason → ModificationResult

abbrev pub type_meta : String → String → OwnerReference
type_meta api_version kind = record { api_version = api_version; kind = kind }

abbrev pub deployment_type : OwnerReference
deployment_type = type_meta "apps/v1" "Deployment"

abbrev pub pod_owner_types : List OwnerReference
pod_owner_types =
    type_meta "apps/v1" "DaemonSet"
    ∷ type_meta "apps/v1" "ReplicaSet"
    ∷ type_meta "apps/v1" "StatefulSet"
    ∷ type_meta "batch/v1" "CronJob"
    ∷ type_meta "batch/v1" "Job"
    ∷ []

-- The loops over the containers, of a test on the environment of one.
abbrev pub at_least_one : List Container → (Env → Bool) → Bool
at_least_one containers test = any containers (λ c. test c.env)

module _ (hash : String → String) where
  unfoldable pub instrumentation_is_up_to_date :
      ObjectMeta → List Container → ClusterConfig → NamespaceConfig → Bool
  instrumentation_is_up_to_date meta containers c n =
      has_been_instrumented_successfully_by_this_version hash meta c
      && not (at_least_one containers (otel_export_env_vars_can_be_updated_for_container c))
      && not (at_least_one containers (otel_propagators_can_be_updated_for_container n))
      && not (at_least_one containers (otel_injector_conf_will_be_updated c))
      && not (at_least_one containers (otel_logs_exporter_will_be_updated n))
      && not (
          at_least_one containers (λ env.
            any capture_sql_query_parameters_names
              (λ name. capture_sql_query_parameters_can_be_updated_for_container n env name)))

  module _ (m : ResourceModifier) where
    abbrev pub labelled : ObjectMeta → ObjectMeta
    labelled meta =
        add_instrumentation_labels_and_annotations hash meta true m.cluster m.is_image_volume
          m.actor

    modified_workload : Workload → ModifyPodSpecResult → Workload × ModificationResult
    modified_workload w r =
        if not r.has_been_modified
        then (record w { spec = r.spec; pod_meta = r.pod_meta }, not_modified no_changes)
        else (
          record w { spec = r.spec; meta = labelled w.meta; pod_meta = labelled r.pod_meta },
          has_been_modified (length r.spec.containers) r.issues,
        )

    modify_if_eligible : Option Reason → Workload → Option (Workload × ModificationResult)
    modify_if_eligible (some reason) w = some (w, not_modified reason)
    modify_if_eligible none w =
        Option.map (modified_workload w) (modify_pod_spec m w.spec (some w.meta) w.pod_meta)

    -- The workload afterwards and the result; none: a call panics
    unfoldable pub modify_resource : Workload → Option (Workload × ModificationResult)
    unfolding modified_workload modify_if_eligible
    modify_resource w = modify_if_eligible (check_eligible_for_modification m w.spec) w

    modified_pod : ModifyPodSpecResult → (ObjectMeta × PodSpec) × ModificationResult
    modified_pod r =
        if not r.has_been_modified
        then ((r.pod_meta, r.spec), not_modified no_changes)
        else ((labelled r.pod_meta, r.spec), has_been_modified (length r.spec.containers) r.issues)

    modify_pod_if_eligible :
        Option Reason → ObjectMeta → PodSpec → Option ((ObjectMeta × PodSpec) × ModificationResult)
    modify_pod_if_eligible (some reason) meta spec = some ((meta, spec), not_modified reason)
    modify_pod_if_eligible none meta spec =
        Option.map modified_pod (modify_pod_spec m spec none meta)

    unfoldable pub modify_pod :
        ObjectMeta → PodSpec → Option ((ObjectMeta × PodSpec) × ModificationResult)
    unfolding modified_pod modify_pod_if_eligible
    modify_pod meta spec =
        if has_matching_owner_reference meta.owner_references pod_owner_types
        then some ((meta, spec), not_modified owned_by_higher_order_workload)
        else modify_pod_if_eligible (check_eligible_for_modification m spec) meta spec

    unfoldable pub modify_replica_set : Workload → Option (Workload × ModificationResult)
    modify_replica_set w =
        if has_matching_owner_reference w.meta.owner_references (deployment_type ∷ [])
        then some (w, not_modified owned_by_higher_order_workload)
        else modify_resource w

    unfoldable pub add_labels_to_immutable_job : Workload → Workload × ModificationResult
    add_labels_to_immutable_job w = (
      record w {
        meta =
            add_instrumentation_labels_and_annotations hash w.meta false m.cluster m.is_image_volume
              m.actor;
      },
      has_been_modified (length w.spec.containers) [],
    )

unfoldable pub remove_labels_from_immutable_job : Workload → Workload × ModificationResult
remove_labels_from_immutable_job w = (
  record w { meta = remove_instrumentation_labels_and_annotations w.meta },
  has_been_modified (length w.spec.containers) [],
)

module _ (m : ResourceModifier) where
  abbrev unlabelled : Workload → Workload
  unlabelled w = record w {
    meta = remove_instrumentation_labels_and_annotations w.meta;
    pod_meta = remove_instrumentation_labels_and_annotations w.pod_meta;
  }

  reverted_workload : Workload → ModifyPodSpecResult → Workload × ModificationResult
  reverted_workload w r =
      let changed = record w { spec = r.spec; pod_meta = r.pod_meta } in
      if not r.has_been_modified
      then (changed, not_modified no_changes)
      else (unlabelled changed, has_been_modified (length r.spec.containers) r.issues)

  unfoldable pub revert_resource : Workload → Option (Workload × ModificationResult)
  unfolding reverted_workload
  revert_resource w =
      if instrumentation_attempt_has_failed w.meta
      then some (unlabelled w, has_been_modified (length w.spec.containers) [])
      else Option.map (reverted_workload w) (revert_pod_spec m w.spec w.pod_meta)

  unfoldable pub revert_replica_set : Workload → Option (Workload × ModificationResult)
  revert_replica_set w =
      if has_matching_owner_reference w.meta.owner_references (deployment_type ∷ [])
      then some (w, not_modified owned_by_higher_order_workload)
      else revert_resource w
