-- ===== src/Workloads/Tests.antt =====
-- A sample configuration and a sample workload for internal/workloads.
mod Containers
mod Modified
use dash0_operator.Workloads.DeepEqual.{deep_equal}
use dash0_operator.Workloads.Eligibility.{
  check_eligible_for_modification, check_ephemeral_storage_limit,
}
use dash0_operator.Workloads.Exporter.{
  add_or_update_otel_exporter_otlp_env_vars, otel_export_env_vars_can_be_updated_for_container,
}
use dash0_operator.Workloads.LdPreload.{
  add_or_append_to_ld_preload_env_var, remove_entry_from_ld_preload,
  remove_legacy_env_var_node_options, remove_legacy_environment_variables,
}
use dash0_operator.Workloads.Settings.{add_otel_logs_exporter_env_var}
use dash0_operator.Workloads.PodSpecs.{
  add_instrumentation_volume, add_safe_to_evict_local_volumes_annotation, instrument_containers,
  modify_pod_spec, remove_instrumentation_volume,
}
use dash0_operator.Base.{
  ℕ, String, Bool, true, false, Option, none, some, List, [], ◌∷◌, ◌++◌, map, ◌≡◌, refl, ◌==◌,
  length, ◌↔◌,
}
use dash0_operator.Base.Text.{contains_text, cut_prefix, trim_space}
use dash0_operator.Workloads.Pod.{
  Source, other_source, EnvVar, Env, VolumeMount, Resources, Container, PodSpec, ObjectMeta,
  Workload, ClusterConfig, NamespaceConfig, ResourceModifier, Map,
}
use dash0_operator.Workloads.Env.{
  add_or_replace_environment_variable, get_env_var, is_env_var_unset_or_empty, plain,
  remove_environment_variable, remove_environment_variables,
}
use dash0_operator.Workloads.Env.Outside.{outside}
use dash0_operator.Workloads.Modifier.{
  ModificationResult, has_been_modified, not_modified, modify_resource,
  instrumentation_is_up_to_date,
}
use dash0_operator.Workloads.Instrumentation.{
  add_environment_variables, instrument_container, prepend_dash0_node_ip, uninstrument_container,
}
use dash0_operator.Workloads.Instrumentation.Kept.{operator_variables, instrument_container-outside}
use dash0_operator.Base.Members.{contains-false_iff}
use dash0_operator.Workloads.Maps.{delete, lookup, put}
use dash0_operator.Workloads.Env.{
  get_env_var, is_env_var_unset_or_empty, is_operator_collector_endpoint,
  is_node_local_collector_endpoint,
}
use dash0_operator.Workloads.LdPreload.{ld_preload, Issue}
use dash0_operator.Workloads.LdPreload.Loaded.{Preloads}
use dash0_operator.Workloads.Exporter.{exporter_endpoint, exporter_protocol}
use dash0_operator.Workloads.Instrumentation.Promises.{
  IsForeignEndpoint, instrument_container-Preloads,
}
use dash0_operator.Workloads.PodSpecs.{
  safe_to_evict, ModifyPodSpecResult, modify_pod_spec, revert_pod_spec,
  remove_instrumentation_volume, remove_init_container,
  remove_safe_to_evict_local_volumes_annotation,
}
use dash0_operator.Workloads.PodSpecs.Annotation.{NamesOnlyInPassing, remove_safe_to_evict-panics}
use dash0_operator.Workloads.PodSpecs.RoundTrip.{own_env, own_part, modify-revert_pod_spec}
use dash0_operator.Workloads.Eligibility.{
  Reason, unsupported_operating_system, check_eligible_for_modification,
}
use dash0_operator.Workloads.Eligibility.Conditions.{
  IsEligible, check_eligible_for_modification_iff,
}
use dash0_operator.Workloads.Images.{image_ref_to_label, is_label_char}
use dash0_operator.Workloads.Images.Bounds.{
  IsLabelValue, has_label_chars, image_ref_to_label-bounds,
}
use dash0_operator.Workloads.Labels.{
  InstrumentedState, add_instrumentation_labels_and_annotations, instrumentation_attempt_has_failed,
  merge_maps, read_instrumentation_state, unknown,
}
use dash0_operator.Workloads.Labels.Merged.{or_else, lookup-merge_maps}
use dash0_operator.Workloads.Modifier.{revert_resource}
use dash0_operator.Workloads.Modifier.Laws.{
  modify_resource-not_modified, revert_resource-unlabelled,
}
use dash0_operator.Workloads.UpToDate.Labelled.{modify_resource-up_to_date}

abbrev hash : String → String
hash s = "0123456789abcdef0123456789abcdef"

abbrev resources : Resources
resources = record { ephemeral_storage_limit = none; rest = "" }

abbrev cluster : ClusterConfig
cluster = record {
  operator_image = "ghcr.io/dash0hq/operator-controller:1.0.0";
  init_container_image = "ghcr.io/dash0hq/instrumentation:1.0.0";
  init_container_image_pull_policy = "";
  init_container_resources = resources;
  otel_collector_base_url = "http://$(DASH0_NODE_IP):40318";
  service_base_url = "http://operator-collector.dash0-system.svc:4318";
  instrumentation_debug = false;
  enable_python = false;
  enable_ruby = true;
  is_open_shift = false;
}

abbrev namespace : NamespaceConfig
namespace = record {
  trace_context_propagators = some " tracecontext,xray ";
  previous_trace_context_propagators = none;
  capture_sql_query_parameters = some true;
  previous_capture_sql_query_parameters = none;
  log_collection_enabled = true;
  previous_log_collection_enabled = false;
}

abbrev init_modifier : ResourceModifier
init_modifier = record {
  cluster = cluster;
  namespace = namespace;
  is_image_volume = false;
  actor = "webhook";
}

abbrev image_modifier : ResourceModifier
image_modifier = record init_modifier { is_image_volume = true }

abbrev container : Container
container = record {
  name = "app";
  image = "shop:1";
  image_pull_policy = "";
  env =
      plain "PORT" "80"
      ∷ plain "LD_PRELOAD" "/lib/a.so"
      ∷ plain "NODE_OPTIONS" "--max-old-space-size=1"
      ∷ record { name = "KEY"; value = ""; value_from = some (other_source "secret") }
      ∷ [];
  volume_mounts = record { name = "data"; mount_path = "/data"; sub_path = ""; rest = "" } ∷ [];
  resources = resources;
  security_context = none;
  rest = "";
}

abbrev spec : PodSpec
spec = record {
  os_name = none;
  node_selector = [];
  node_selector_terms = none;
  security_context = none;
  volumes = [];
  init_containers = [];
  containers = container ∷ [];
  rest = "";
}

abbrev meta : ObjectMeta
meta = record {
  labels = ("app.kubernetes.io/name", "shop") ∷ [];
  annotations = [];
  owner_references = [];
}

abbrev workload : Workload
workload = record { meta = meta; pod_meta = meta; spec = spec }
