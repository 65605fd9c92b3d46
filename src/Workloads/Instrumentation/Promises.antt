-- ===== src/Workloads/Instrumentation/Promises.antt =====
-- internal/workloads/workload_modifier.go: what the environment of an instrumented container has.
use dash0_operator.Base.{String, false, some, List, [], ◌∷◌, ◌≡◌, refl, ◌∙◌}
use dash0_operator.Workloads.Pod.{
  EnvVar, Env, Container, ObjectMeta, ClusterConfig, ResourceModifier,
}
use dash0_operator.Workloads.Env.{
  plain, get_env_var, is_env_var_unset_or_empty, add_or_replace_environment_variable,
  is_operator_collector_endpoint,
}
use dash0_operator.Workloads.Env.Outside.{get_env_var-same, outside-add_or_replace}
use dash0_operator.Workloads.LdPreload.{
  ld_preload, add_or_append_to_ld_preload_env_var, remove_legacy_environment_variables,
}
use dash0_operator.Workloads.LdPreload.Outside.{legacy_variables}
use dash0_operator.Workloads.LdPreload.Loaded.{Preloads, add_or_append-Preloads}
use dash0_operator.Workloads.Exporter.{add_or_update_otel_exporter_otlp_env_vars}
use dash0_operator.Workloads.Settings.{
  logs_exporter, injector_config_file, add_otel_logs_exporter_env_var,
  otel_injector_config_file_for,
}
use dash0_operator.Workloads.Frames.{
  exporter_variables, outside-prepend_dash0_node_ip, outside-add_or_update,
  outside-add_otel_logs_exporter,
}
use dash0_operator.Workloads.Instrumentation.{
  dash0_node_ip, collector_base_url, prepend_dash0_node_ip, add_environment_variables,
  instrument_container,
}
use dash0_operator.Workloads.UpToDate.Stages.{
  after_configured_names, from_propagators, outside-from_propagators,
}

abbrev before_exporting_names : List String
before_exporting_names = dash0_node_ip ∷ collector_base_url ∷ legacy_variables

-- The environment before the exporter is looked at.
abbrev based : ClusterConfig → Env → Env
based c env =
    add_or_replace_environment_variable
      (prepend_dash0_node_ip (remove_legacy_environment_variables env))
      (plain collector_base_url c.otel_collector_base_url)

-- The endpoint is set, and not to a collector of the operator.
abbrev pub IsForeignEndpoint : ClusterConfig → EnvVar → Type 0
IsForeignEndpoint c v =
    (is_env_var_unset_or_empty (some v) ≡ false)
    × (is_operator_collector_endpoint v c.service_base_url ≡ false)

-- The steps before the one on LD_PRELOAD leave the variable alone, but for the removal of the legacy one.
ld_preload-until_logs :
    (m : ResourceModifier) (env : Env)
    → get_env_var
        (add_otel_logs_exporter_env_var m.namespace
          (add_or_update_otel_exporter_otlp_env_vars m.cluster (based m.cluster env) []).0)
        ld_preload
      ≡ get_env_var (remove_legacy_environment_variables env) ld_preload
ld_preload-until_logs m env =
    let current = remove_legacy_environment_variables env in
    let prepared = prepend_dash0_node_ip current in
    let start = based m.cluster env in
    let exporting = (add_or_update_otel_exporter_otlp_env_vars m.cluster start []).0 in
    get_env_var-same (logs_exporter ∷ []) (add_otel_logs_exporter_env_var m.namespace exporting)
      exporting ld_preload (outside-add_otel_logs_exporter m.namespace exporting) refl
    ∙ get_env_var-same exporter_variables exporting start ld_preload
        (outside-add_or_update m.cluster start []) refl
    ∙ get_env_var-same (collector_base_url ∷ []) start prepared ld_preload
        (outside-add_or_replace (collector_base_url ∷ []) prepared
          (plain collector_base_url m.cluster.otel_collector_base_url) refl)
        refl
    ∙ get_env_var-same (dash0_node_ip ∷ []) prepared current ld_preload
        (outside-prepend_dash0_node_ip current) refl

module _ (m : ResourceModifier) where
  -- What becomes of LD_PRELOAD when a container is instrumented, as the dynamic linker reads it, against
  -- the variable that the container has when the settings of older versions are removed. Without one, or
  -- with a blank one, the injector is the only object to load; otherwise it is loaded first and all objects
  -- of the container after it; but a value that has the path of the injector in it somewhere stays as it
  -- is, and so does a variable that comes from a source, which is reported as an issue of the container.
  pub instrument_container-Preloads :
      (c : Container) (workload_meta pod_meta : ObjectMeta)
      → let r = instrument_container m c workload_meta pod_meta in
        (v : EnvVar) × (get_env_var r.0.env ld_preload ≡ some v)
        × Preloads r.1 (get_env_var (remove_legacy_environment_variables c.env) ld_preload) v
  unfolding instrument_container add_environment_variables
  instrument_container-Preloads c workload_meta pod_meta =
      let exporting =
        add_or_update_otel_exporter_otlp_env_vars m.cluster (based m.cluster c.env) [] in
      let logging = add_otel_logs_exporter_env_var m.namespace exporting.0 in
      let preloading = add_or_append_to_ld_preload_env_var logging exporting.1 in
      let file = plain injector_config_file (otel_injector_config_file_for m.cluster) in
      let configured = add_or_replace_environment_variable preloading.0 file in
      let final = from_propagators m c.name workload_meta pod_meta configured in
      let (v, found, loads) = add_or_append-Preloads logging exporting.1 in
      (
        v,
        get_env_var-same after_configured_names final configured ld_preload
              (outside-from_propagators m c.name workload_meta pod_meta configured) refl
            ∙ get_env_var-same (injector_config_file ∷ []) configured preloading.0 ld_preload
                (outside-add_or_replace (injector_config_file ∷ []) preloading.0 file refl) refl
            ∙ found,
        rw (ld_preload-until_logs m c.env) at loads,
      )
