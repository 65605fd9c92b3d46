-- ===== src/Workloads/UpToDate/Containers.antt =====
-- internal/workloads/workload_modifier.go: every check of InstrumentationIsUpToDate on the containers of
-- an instrumented pod specification.
use dash0_operator.Base.{
  String, Bool, true, false, some, List, [], ◌∷◌, any, all, All, contains, ◌≡◌, refl, eq_iff, arith,
  Bool-cases, inl, inr,
}
use dash0_operator.Base.Text.{trim_space}
use dash0_operator.Workloads.Pod.{
  Env, Container, ObjectMeta, ClusterConfig, NamespaceConfig, ResourceModifier,
}
use dash0_operator.Workloads.Env.{
  plain, get_env_var, is_env_var_unset_or_empty, add_or_replace_environment_variable,
}
use dash0_operator.Workloads.Env.Laws.{get_env_var-add_or_replace}
use dash0_operator.Workloads.Env.Outside.{get_env_var-same}
use dash0_operator.Workloads.LdPreload.{
  add_or_append_to_ld_preload_env_var, remove_legacy_environment_variables,
}
use dash0_operator.Workloads.Exporter.{
  otel_export_env_vars_can_be_updated_for_container, add_or_update_otel_exporter_otlp_env_vars,
}
use dash0_operator.Workloads.Settings.{
  injector_config_file, capture_sql_query_parameters_names, add_otel_logs_exporter_env_var,
  otel_logs_exporter_will_be_updated, otel_propagators_can_be_updated_for_container,
  add_otel_propagators_env_var, capture_sql_query_parameters_can_be_updated_for_container,
  add_capture, add_captures, otel_injector_config_file_for, otel_injector_conf_will_be_updated,
}
use dash0_operator.Workloads.Frames.{outside-add_captures}
use dash0_operator.Workloads.Instrumentation.{
  collector_base_url, prepend_dash0_node_ip, add_mount, add_environment_variables,
  instrument_container,
}
use dash0_operator.Workloads.Instrumentation.Kept.{identity_variables}
use dash0_operator.Workloads.PodSpecs.{instrument_containers}
use dash0_operator.Workloads.UpToDate.{
  IsTrimmedUrl, otel_export-settled, propagators-settled, logs_exporter-settled, capture-settled,
}
use dash0_operator.Workloads.UpToDate.Stages.{
  from_captures, from_propagators, exporter-after, logs-after, conf-after, propagators-after,
  capture-after,
}

abbrev pub capture_test : NamespaceConfig → Env → Bool
capture_test n env =
    any capture_sql_query_parameters_names
      (λ name. capture_sql_query_parameters_can_be_updated_for_container n env name)

-- No check wants to update the environment.
pub record Settled (c : ClusterConfig) (n : NamespaceConfig) (env : Env) : Type 0 where
  pub exporter : otel_export_env_vars_can_be_updated_for_container c env ≡ false
  pub propagating : otel_propagators_can_be_updated_for_container n env ≡ false
  pub conf : otel_injector_conf_will_be_updated c env ≡ false
  pub logs : otel_logs_exporter_will_be_updated n env ≡ false
  pub capture : capture_test n env ≡ false

capture-kept :
    (n : NamespaceConfig) (names : List String) (env : Env) (name : String)
    → all names (contains names) ≡ true
    → contains names name ≡ false
    → capture_sql_query_parameters_can_be_updated_for_container n env name ≡ false
    → capture_sql_query_parameters_can_be_updated_for_container n (add_captures n names env) name
      ≡ false
unfolding capture_sql_query_parameters_can_be_updated_for_container
capture-kept n names env name l k h =
    rw
      (get_env_var-same names (add_captures n names env) env name
        (outside-add_captures n names names env l) k)
      h

abbrev jdbc : String
jdbc = "OTEL_INSTRUMENTATION_JDBC_EXPERIMENTAL_CAPTURE_QUERY_PARAMETERS"

abbrev sqlclient : String
sqlclient = "OTEL_DOTNET_EXPERIMENTAL_SQLCLIENT_ENABLE_TRACE_DB_QUERY_PARAMETERS"

abbrev efcore : String
efcore = "OTEL_DOTNET_EXPERIMENTAL_EFCORE_ENABLE_TRACE_DB_QUERY_PARAMETERS"

captures-settled :
    (n : NamespaceConfig) (env : Env) (name : String)
    → contains capture_sql_query_parameters_names name ≡ true
    → capture_sql_query_parameters_can_be_updated_for_container n
        (add_captures n capture_sql_query_parameters_names env)
        name
      ≡ false
unfolding add_captures
captures-settled n env name h =
    let first = add_capture n env jdbc in
    let second = add_capture n first sqlclient in
    let settled =
      capture-kept n (sqlclient ∷ efcore ∷ []) first jdbc refl refl (capture-settled n env jdbc) in
    ground (
      arith,
      eq_iff jdbc name,
      eq_iff sqlclient name,
      eq_iff efcore name,
      settled,
      capture-kept n (efcore ∷ []) second sqlclient refl refl (capture-settled n first sqlclient),
      capture-settled n second efcore,
    )

conf-settled :
    (c : ClusterConfig) (env : Env)
    → get_env_var env injector_config_file
      ≡ some (plain injector_config_file (otel_injector_config_file_for c))
    → otel_injector_conf_will_be_updated c env ≡ false
unfolding otel_injector_conf_will_be_updated is_env_var_unset_or_empty otel_injector_config_file_for
    trim_space
conf-settled c env h = rw h (elim (Bool-cases c.enable_python) [
  | inl e ↦ elim (Bool-cases c.enable_ruby) [ inl r ↦ rw (e, r) refl | inr r ↦ rw (e, r) refl ]
  | inr e ↦ elim (Bool-cases c.enable_ruby) [ inl r ↦ rw (e, r) refl | inr r ↦ rw (e, r) refl ]
])

module _ (m : ResourceModifier) (h : IsTrimmedUrl m.cluster.otel_collector_base_url) where
  add_environment_variables-Settled :
      (c : Container) (workload_meta pod_meta : ObjectMeta)
      → Settled m.cluster m.namespace (add_environment_variables m c workload_meta pod_meta).0
  unfolding add_environment_variables
  add_environment_variables-Settled c workload_meta pod_meta =
      let prepared = prepend_dash0_node_ip (remove_legacy_environment_variables c.env) in
      let based =
        add_or_replace_environment_variable prepared
          (plain collector_base_url m.cluster.otel_collector_base_url) in
      let exporting = add_or_update_otel_exporter_otlp_env_vars m.cluster based [] in
      let logging = add_otel_logs_exporter_env_var m.namespace exporting.0 in
      let preloading = add_or_append_to_ld_preload_env_var logging exporting.1 in
      let file = otel_injector_config_file_for m.cluster in
      let configured =
        add_or_replace_environment_variable preloading.0 (plain injector_config_file file) in
      let propagating = add_otel_propagators_env_var m.namespace configured in
      record {
        exporter =
            exporter-after m c.name workload_meta pod_meta exporting.0 exporting.1
              (otel_export-settled m.cluster based [] h);
        propagating =
            propagators-after m c.name workload_meta pod_meta propagating
              (propagators-settled m.namespace configured);
        conf =
            conf-settled m.cluster (from_propagators m c.name workload_meta pod_meta configured) (
              conf-after m c.name workload_meta pod_meta configured
                (get_env_var-add_or_replace preloading.0 injector_config_file file));
        logs =
            logs-after m c.name workload_meta pod_meta logging exporting.1
              (logs_exporter-settled m.namespace exporting.0);
        capture =
            let final = from_captures m c.name workload_meta pod_meta propagating in
            let settled : (name : String)
                → contains identity_variables name ≡ false
                → contains capture_sql_query_parameters_names name ≡ true
                → capture_sql_query_parameters_can_be_updated_for_container m.namespace final name
                  ≡ false =
              λ name k l.
                capture-after m c.name workload_meta pod_meta
                  (add_captures m.namespace capture_sql_query_parameters_names propagating) name k
                  (captures-settled m.namespace propagating name l) in
            rw (settled jdbc refl refl, settled sqlclient refl refl, settled efcore refl refl) refl;
      }

  pub instrument_container-Settled :
      (c : Container) (workload_meta pod_meta : ObjectMeta)
      → Settled m.cluster m.namespace (instrument_container m c workload_meta pod_meta).0.env
  unfolding instrument_container
  instrument_container-Settled c workload_meta pod_meta =
      add_environment_variables-Settled (record c { volume_mounts = add_mount m c.volume_mounts })
        workload_meta pod_meta

  pub instrument_containers-Settled :
      (workload_meta pod_meta : ObjectMeta) (containers : List Container)
      → All
          (λ c. Settled m.cluster m.namespace c.env)
          (instrument_containers m workload_meta pod_meta containers).0
  unfolding instrument_containers
  instrument_containers-Settled workload_meta pod_meta [] = tt
  instrument_containers-Settled workload_meta pod_meta (c ∷ containers) = (
    instrument_container-Settled c workload_meta pod_meta,
    instrument_containers-Settled workload_meta pod_meta containers,
  )
