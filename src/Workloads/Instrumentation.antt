-- ===== src/Workloads/Instrumentation.antt =====
-- internal/workloads/workload_modifier.go: the instrumentation of one container, and its removal.
pub mod Kept
pub mod Promises
use dash0_operator.Base.{
  String, Bool, true, false, not, Option, none, some, List, [], ◌∷◌, ◌++◌, any, keep, ◌==◌, is_some,
  if◌then◌else◌,
}
use dash0_operator.Workloads.Pod.{
  EnvVar, Env, VolumeMount, Container, ObjectMeta, ClusterConfig, NamespaceConfig, ResourceModifier,
}
use dash0_operator.Workloads.Env.{
  plain, from_field, get_env_var, add_or_replace_environment_variable, remove_environment_variable,
  remove_environment_variables,
}
use dash0_operator.Workloads.LdPreload.{
  Issue, ld_preload_value, add_or_append_to_ld_preload_env_var, remove_entry_from_ld_preload,
  remove_legacy_environment_variables,
}
use dash0_operator.Workloads.Exporter.{
  add_or_update_otel_exporter_otlp_env_vars, remove_otel_exporter_if_set_by_operator,
}
use dash0_operator.Workloads.Settings.{
  injector_config_file, add_otel_logs_exporter_env_var, remove_otel_logs_exporter_env_var,
  add_otel_propagators_env_var, remove_otel_propagators_if_matching,
  add_capture_sql_query_parameters_env_var, remove_capture_sql_query_parameters_if_matching,
  otel_injector_config_file_for,
}
use dash0_operator.Workloads.Attributes.{
  injector_log_level, add_if, check_container_for_service_attributes,
  add_service_attributes_from_labels, add_attributes_from_annotations,
  migrate_legacy_injector_log_level,
}

abbrev pub dash0_volume_name : String
dash0_volume_name = "dash0-instrumentation"

abbrev pub base_directory : String
base_directory = "/__otel_auto_instrumentation"

abbrev pub dash0_node_ip : String
dash0_node_ip = "DASH0_NODE_IP"

abbrev pub collector_base_url : String
collector_base_url = "DASH0_OTEL_COLLECTOR_BASE_URL"

unfoldable pub prepend_dash0_node_ip : Env → Env
prepend_dash0_node_ip env =
    from_field dash0_node_ip "status.hostIP" ∷ remove_environment_variable env dash0_node_ip

-- The variables that name the pod and the container.
unfoldable pub add_pod_variables : String → Env → Env
add_pod_variables container_name env =
    let namespaced =
      add_or_replace_environment_variable env
        (from_field "OTEL_INJECTOR_K8S_NAMESPACE_NAME" "metadata.namespace") in
    let named =
      add_or_replace_environment_variable namespaced
        (from_field "OTEL_INJECTOR_K8S_POD_NAME" "metadata.name") in
    let identified =
      add_or_replace_environment_variable named
        (from_field "OTEL_INJECTOR_K8S_POD_UID" "metadata.uid") in
    add_or_replace_environment_variable identified
      (plain "OTEL_INJECTOR_K8S_CONTAINER_NAME" container_name)

-- The part after the settings: pod variables, attributes and the log level.
unfoldable pub add_attributes : Bool → String → ObjectMeta → ObjectMeta → Env → Env
add_attributes debug container_name workload_meta pod_meta env =
    let identified = add_pod_variables container_name env in
    let has = check_container_for_service_attributes identified in
    let labelled =
      add_service_attributes_from_labels has pod_meta.labels workload_meta.labels identified in
    let annotated =
      add_attributes_from_annotations has pod_meta.annotations workload_meta.annotations labelled in
    migrate_legacy_injector_log_level (add_if debug annotated (plain injector_log_level "debug"))

abbrev pub injector_names : List String
injector_names =
    "OTEL_INJECTOR_K8S_NAMESPACE_NAME" ∷ "OTEL_INJECTOR_K8S_POD_NAME" ∷ "OTEL_INJECTOR_K8S_POD_UID"
    ∷ "OTEL_INJECTOR_K8S_CONTAINER_NAME" ∷ "OTEL_INJECTOR_SERVICE_NAMESPACE"
    ∷ "OTEL_INJECTOR_SERVICE_NAME" ∷ "OTEL_INJECTOR_SERVICE_VERSION"
    ∷ "OTEL_INJECTOR_RESOURCE_ATTRIBUTES" ∷ "OTEL_INJECTOR_LOG_LEVEL" ∷ []

unfoldable pub remove_mount : List VolumeMount → List VolumeMount
remove_mount mounts = keep (λ v. not (v.name == dash0_volume_name)) mounts

module _ (m : ResourceModifier) where
  unfoldable pub add_environment_variables : Container → ObjectMeta → ObjectMeta → Env × List Issue
  add_environment_variables c workload_meta pod_meta =
      let prepared = prepend_dash0_node_ip (remove_legacy_environment_variables c.env) in
      let based =
        add_or_replace_environment_variable prepared
          (plain collector_base_url m.cluster.otel_collector_base_url) in
      let exporting = add_or_update_otel_exporter_otlp_env_vars m.cluster based [] in
      let logging = add_otel_logs_exporter_env_var m.namespace exporting.0 in
      let preloading = add_or_append_to_ld_preload_env_var logging exporting.1 in
      let configured =
        add_or_replace_environment_variable preloading.0
          (plain injector_config_file (otel_injector_config_file_for m.cluster)) in
      let propagating = add_otel_propagators_env_var m.namespace configured in
      let capturing = add_capture_sql_query_parameters_env_var m.namespace propagating in
      (
        add_attributes m.cluster.instrumentation_debug c.name workload_meta pod_meta capturing,
        preloading.1,
      )

  unfoldable pub dash0_mount : VolumeMount
  dash0_mount = record {
    name = dash0_volume_name;
    mount_path = base_directory;
    sub_path = if m.is_image_volume then "dash0-instrumentation" else "";
    rest = "";
  }

  unfoldable pub add_mount : List VolumeMount → List VolumeMount
  add_mount [] = dash0_mount ∷ []
  add_mount (v ∷ mounts) =
      let rest = add_mount mounts in
      if v.name == dash0_volume_name then dash0_mount ∷ mounts else v ∷ rest

  unfoldable pub instrument_container : Container → ObjectMeta → ObjectMeta → Container × List Issue
  instrument_container c workload_meta pod_meta =
      let mounted = record c { volume_mounts = add_mount c.volume_mounts } in
      let (env, issues) = add_environment_variables mounted workload_meta pod_meta in
      (record mounted { env = env }, issues)

  unfoldable pub remove_own_environment_variables : Env → Env
  remove_own_environment_variables env =
      let anonymous = remove_environment_variable env dash0_node_ip in
      let current = remove_legacy_environment_variables anonymous in
      let unloaded = remove_entry_from_ld_preload current ld_preload_value in
      let unconfigured = remove_environment_variable unloaded injector_config_file in
      let unbased = remove_environment_variable unconfigured collector_base_url in
      let silent = remove_otel_exporter_if_set_by_operator m.cluster unbased in
      let unpropagated = remove_otel_propagators_if_matching m.namespace silent in
      let uncaptured = remove_capture_sql_query_parameters_if_matching m.namespace unpropagated in
      let unlogged = remove_otel_logs_exporter_env_var m.namespace uncaptured in
      remove_environment_variables unlogged injector_names

  unfoldable pub uninstrument_container : Container → Container
  uninstrument_container c = record c {
    volume_mounts = remove_mount c.volume_mounts;
    env = remove_own_environment_variables c.env;
  }
