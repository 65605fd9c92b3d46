-- ===== src/Workloads/Tests/Modified.antt =====
-- The theorems of internal/workloads on sample workloads.
use dash0_operator.Workloads.DeepEqual.{deep_equal}
use dash0_operator.Workloads.Eligibility.{
  check_eligible_for_modification, check_ephemeral_storage_limit,
}
use dash0_operator.Workloads.Exporter.{
  add_or_update_otel_exporter_otlp_env_vars, otel_export_env_vars_can_be_updated_for_container,
}
use dash0_operator.Workloads.LdPreload.{
  add_or_append_to_ld_preload_env_var, remove_entry_from_ld_preload,
  remove_legacy_env_var_node_options, remove_legacy_environment_variables,
}
use dash0_operator.Workloads.Settings.{add_otel_logs_exporter_env_var}
use dash0_operator.Workloads.PodSpecs.{
  add_instrumentation_volume, instrument_containers, modify_pod_spec, remove_instrumentation_volume,
}
use dash0_operator.Base.{true, Option, none, some, [], ◌∷◌, map, ◌≡◌, refl, ◌↔◌}
use dash0_operator.Base.Text.{contains_text, trim_space}
use dash0_operator.Workloads.Pod.{PodSpec, Workload}
use dash0_operator.Workloads.Env.{
  add_or_replace_environment_variable, get_env_var, is_env_var_unset_or_empty,
  remove_environment_variable, remove_environment_variables,
}
use dash0_operator.Workloads.Modifier.{
  ModificationResult, has_been_modified, modify_resource, instrumentation_is_up_to_date,
}
use dash0_operator.Workloads.Instrumentation.{
  add_environment_variables, instrument_container, prepend_dash0_node_ip,
}
use dash0_operator.Workloads.Maps.{lookup}
use dash0_operator.Workloads.Env.{get_env_var, is_env_var_unset_or_empty}
use dash0_operator.Workloads.PodSpecs.{
  safe_to_evict, ModifyPodSpecResult, modify_pod_spec, revert_pod_spec,
  remove_instrumentation_volume, remove_init_container,
  remove_safe_to_evict_local_volumes_annotation,
}
use dash0_operator.Workloads.PodSpecs.Annotation.{NamesOnlyInPassing, remove_safe_to_evict-panics}
use dash0_operator.Workloads.PodSpecs.RoundTrip.{own_env, own_part, modify-revert_pod_spec}
use dash0_operator.Workloads.Eligibility.{
  unsupported_operating_system, check_eligible_for_modification,
}
use dash0_operator.Workloads.Eligibility.Conditions.{
  IsEligible, check_eligible_for_modification_iff,
}
use dash0_operator.Workloads.Modifier.Laws.{modify_resource-not_modified}
use dash0_operator.Workloads.UpToDate.Labelled.{modify_resource-up_to_date}
use dash0_operator.Workloads.Tests.{
  hash, cluster, namespace, init_modifier, image_modifier, spec, meta, workload,
}

abbrev changed : Option (Workload × ModificationResult) → Workload
changed none = workload
changed (some r) = r.0

abbrev instrumented_workload : Workload
instrumented_workload = changed (modify_resource hash init_modifier workload)

modified :
    modify_resource hash init_modifier workload
    ≡ some (instrumented_workload, has_been_modified 1 [])
unfolding add_environment_variables add_instrumentation_volume add_or_append_to_ld_preload_env_var
    add_or_replace_environment_variable add_or_update_otel_exporter_otlp_env_vars
    add_otel_logs_exporter_env_var check_eligible_for_modification check_ephemeral_storage_limit
    contains_text deep_equal get_env_var instrument_container instrument_containers
    is_env_var_unset_or_empty modify_pod_spec modify_resource
    otel_export_env_vars_can_be_updated_for_container prepend_dash0_node_ip
    remove_entry_from_ld_preload remove_environment_variable remove_environment_variables
    remove_legacy_env_var_node_options remove_legacy_environment_variables trim_space
modified = refl

modify_resource-up_to_date_example :
    instrumentation_is_up_to_date hash instrumented_workload.meta
      instrumented_workload.spec.containers cluster namespace
    ≡ true
unfolding trim_space
modify_resource-up_to_date_example =
    modify_resource-up_to_date hash init_modifier workload instrumented_workload 1 [] (refl, refl)
      modified

modify-revert_pod_spec_example :
    (r r' : ModifyPodSpecResult) × (modify_pod_spec image_modifier spec (some meta) meta ≡ some r)
    × (revert_pod_spec image_modifier r.spec r.pod_meta ≡ some r')
    × (r'.pod_meta ≡ meta)
    × (map own_env r'.spec.containers ≡ map own_part spec.containers)
    × (r'.spec ≡ record spec {
      volumes = remove_instrumentation_volume spec.volumes;
      init_containers = remove_init_container spec.init_containers;
      containers = r'.spec.containers;
    })
unfolding lookup
modify-revert_pod_spec_example = modify-revert_pod_spec image_modifier spec (some meta) meta refl

abbrev windows_spec : PodSpec
windows_spec = record spec { os_name = some "windows" }

check_eligible_for_modification_iff_example :
    (check_eligible_for_modification init_modifier windows_spec ≡ none)
    ↔ IsEligible init_modifier windows_spec
check_eligible_for_modification_iff_example =
    check_eligible_for_modification_iff init_modifier windows_spec

remove_safe_to_evict-panics_example :
    (remove_safe_to_evict_local_volumes_annotation
        ((safe_to_evict, "my-dash0-instrumentation") ∷ [])
      ≡ none)
    ↔ NamesOnlyInPassing ((safe_to_evict, "my-dash0-instrumentation") ∷ [])
remove_safe_to_evict-panics_example =
    remove_safe_to_evict-panics ((safe_to_evict, "my-dash0-instrumentation") ∷ [])

abbrev windows_workload : Workload
windows_workload = record workload { spec = windows_spec }

modify_resource-not_modified_example :
    (windows_workload.spec ≡ windows_workload.spec)
    × (windows_workload.meta ≡ windows_workload.meta)
unfolding modify_resource check_eligible_for_modification
modify_resource-not_modified_example =
    modify_resource-not_modified hash init_modifier windows_workload windows_workload
      unsupported_operating_system refl
