-- ===== src/Workloads/Instrumentation/Kept.antt =====
-- internal/workloads/workload_modifier.go: what instrumenting a container and reverting it leave alone.
use dash0_operator.Base.{
  String, Bool, true, List, [], ◌∷◌, ◌++◌, all, contains, ◌≡◌, refl, ◌∙◌, arith,
}
use dash0_operator.Workloads.Pod.{Env, Container, ObjectMeta, ResourceModifier}
use dash0_operator.Workloads.Env.{
  plain, from_field, add_or_replace_environment_variable, remove_environment_variable,
}
use dash0_operator.Workloads.Env.Outside.{
  outside, outside-more, outside-remove, outside-add_or_replace,
  outside-remove_environment_variables,
}
use dash0_operator.Workloads.LdPreload.{
  ld_preload, ld_preload_value, add_or_append_to_ld_preload_env_var, remove_entry_from_ld_preload,
  remove_legacy_environment_variables,
}
use dash0_operator.Workloads.LdPreload.Outside.{
  legacy_variables, outside-add_or_append, outside-remove_entry_from_ld_preload,
  outside-remove_legacy,
}
use dash0_operator.Workloads.Exporter.{
  add_or_update_otel_exporter_otlp_env_vars, remove_otel_exporter_if_set_by_operator,
}
use dash0_operator.Workloads.Settings.{
  logs_exporter, propagators, injector_config_file, capture_sql_query_parameters_names,
  add_otel_logs_exporter_env_var, remove_otel_logs_exporter_env_var, add_otel_propagators_env_var,
  remove_otel_propagators_if_matching, add_capture_sql_query_parameters_env_var,
  remove_capture_sql_query_parameters_if_matching, otel_injector_config_file_for,
}
use dash0_operator.Workloads.Attributes.{
  injector_log_level, add_if, check_container_for_service_attributes,
  add_service_attributes_from_labels, add_attributes_from_annotations,
  migrate_legacy_injector_log_level,
}
use dash0_operator.Workloads.Attributes.Outside.{
  attribute_variables, outside-add_if, outside-add_service_attributes,
  outside-add_attributes_from_annotations, outside-migrate,
}
use dash0_operator.Workloads.Frames.{
  exporter_variables, outside-prepend_dash0_node_ip, outside-add_or_update,
  outside-remove_otel_exporter, outside-add_otel_logs_exporter, outside-remove_otel_logs_exporter,
  outside-add_otel_propagators, outside-remove_otel_propagators, outside-add_captures,
  outside-remove_captures,
}
use dash0_operator.Workloads.Instrumentation.{
  dash0_node_ip, collector_base_url, prepend_dash0_node_ip, add_pod_variables, add_attributes,
  add_environment_variables, add_mount, instrument_container, injector_names,
  remove_own_environment_variables, uninstrument_container,
}

abbrev pub pod_variables : List String
pod_variables =
    "OTEL_INJECTOR_K8S_NAMESPACE_NAME" ∷ "OTEL_INJECTOR_K8S_POD_NAME" ∷ "OTEL_INJECTOR_K8S_POD_UID"
    ∷ "OTEL_INJECTOR_K8S_CONTAINER_NAME" ∷ []

-- The variables after the settings.
abbrev pub identity_variables : List String
identity_variables = pod_variables ++ attribute_variables

-- All variables that the operator sets or removes.
abbrev pub operator_variables : List String
operator_variables =
    dash0_node_ip
    ∷ collector_base_url
    ∷ injector_config_file
    ∷ logs_exporter
    ∷ propagators
    ∷ (legacy_variables ++ exporter_variables ++ capture_sql_query_parameters_names
        ++ identity_variables)

outside-add_pod_variables :
    (name : String) (env : Env)
    → outside pod_variables (add_pod_variables name env) ≡ outside pod_variables env
unfolding add_pod_variables
outside-add_pod_variables name env =
    let namespaced =
      add_or_replace_environment_variable env
        (from_field "OTEL_INJECTOR_K8S_NAMESPACE_NAME" "metadata.namespace") in
    let named =
      add_or_replace_environment_variable namespaced
        (from_field "OTEL_INJECTOR_K8S_POD_NAME" "metadata.name") in
    let identified =
      add_or_replace_environment_variable named
        (from_field "OTEL_INJECTOR_K8S_POD_UID" "metadata.uid") in
    outside-add_or_replace pod_variables identified (plain "OTEL_INJECTOR_K8S_CONTAINER_NAME" name)
      refl
    ∙ outside-add_or_replace pod_variables named
        (from_field "OTEL_INJECTOR_K8S_POD_UID" "metadata.uid") refl
    ∙ outside-add_or_replace pod_variables namespaced
        (from_field "OTEL_INJECTOR_K8S_POD_NAME" "metadata.name") refl
    ∙ outside-add_or_replace pod_variables env
        (from_field "OTEL_INJECTOR_K8S_NAMESPACE_NAME" "metadata.namespace") refl

pub outside-add_attributes :
    (debug : Bool) (name : String) (workload_meta pod_meta : ObjectMeta) (env : Env)
    → outside identity_variables (add_attributes debug name workload_meta pod_meta env)
      ≡ outside identity_variables env
unfolding add_attributes
outside-add_attributes debug name workload_meta pod_meta env =
    let identified = add_pod_variables name env in
    let has = check_container_for_service_attributes identified in
    let labelled =
      add_service_attributes_from_labels has pod_meta.labels workload_meta.labels identified in
    let annotated =
      add_attributes_from_annotations has pod_meta.annotations workload_meta.annotations labelled in
    let levelled = add_if debug annotated (plain injector_log_level "debug") in
    outside-more attribute_variables identity_variables (migrate_legacy_injector_log_level levelled)
      identified refl
      (outside-migrate levelled
        ∙ outside-add_if attribute_variables debug annotated (plain injector_log_level "debug") refl
        ∙ outside-add_attributes_from_annotations has pod_meta.annotations workload_meta.annotations
            labelled
        ∙ outside-add_service_attributes has pod_meta.labels workload_meta.labels identified)
    ∙ outside-more pod_variables identity_variables identified env refl
        (outside-add_pod_variables name env)

-- From the variables of one step to all of them.
widen :
    (names : List String) (env env' : Env)
    → all names (contains operator_variables) ≡ true
    → outside names env ≡ outside names env'
    → outside operator_variables env ≡ outside operator_variables env'
widen names env env' h k = outside-more names operator_variables env env' h k

module _ (m : ResourceModifier) where
  outside-add_environment_variables :
      (c : Container) (workload_meta pod_meta : ObjectMeta)
      → outside operator_variables (add_environment_variables m c workload_meta pod_meta).0
        ≡ outside operator_variables c.env
  unfolding add_environment_variables
  outside-add_environment_variables c workload_meta pod_meta =
      let current = remove_legacy_environment_variables c.env in
      let prepared = prepend_dash0_node_ip current in
      let base = plain collector_base_url m.cluster.otel_collector_base_url in
      let based = add_or_replace_environment_variable prepared base in
      let exporting = add_or_update_otel_exporter_otlp_env_vars m.cluster based [] in
      let logging = add_otel_logs_exporter_env_var m.namespace exporting.0 in
      let preloading = add_or_append_to_ld_preload_env_var logging exporting.1 in
      let conf = plain injector_config_file (otel_injector_config_file_for m.cluster) in
      let configured = add_or_replace_environment_variable preloading.0 conf in
      let propagating = add_otel_propagators_env_var m.namespace configured in
      let capturing = add_capture_sql_query_parameters_env_var m.namespace propagating in
      widen identity_variables
        (add_attributes m.cluster.instrumentation_debug c.name workload_meta pod_meta capturing)
        capturing refl
        (outside-add_attributes m.cluster.instrumentation_debug c.name workload_meta pod_meta
          capturing)
      ∙ outside-add_captures m.namespace operator_variables capture_sql_query_parameters_names
          propagating refl
      ∙ widen (propagators ∷ []) propagating configured refl
          (outside-add_otel_propagators m.namespace configured)
      ∙ outside-add_or_replace operator_variables preloading.0 conf refl
      ∙ widen (ld_preload ∷ []) preloading.0 logging refl
          (outside-add_or_append logging exporting.1)
      ∙ widen (logs_exporter ∷ []) logging exporting.0 refl
          (outside-add_otel_logs_exporter m.namespace exporting.0)
      ∙ widen exporter_variables exporting.0 based refl (outside-add_or_update m.cluster based [])
      ∙ outside-add_or_replace operator_variables prepared base refl
      ∙ widen (dash0_node_ip ∷ []) prepared current refl (outside-prepend_dash0_node_ip current)
      ∙ widen legacy_variables current c.env refl (outside-remove_legacy c.env)

  -- Instrumenting a container keeps every environment variable whose name is none of the operator's:
  -- the same variables with the same values, in the same order.
  pub instrument_container-outside :
      (c : Container) (workload_meta pod_meta : ObjectMeta)
      → outside operator_variables (instrument_container m c workload_meta pod_meta).0.env
        ≡ outside operator_variables c.env
  unfolding instrument_container
  instrument_container-outside c workload_meta pod_meta =
      outside-add_environment_variables (record c { volume_mounts = add_mount m c.volume_mounts })
        workload_meta pod_meta

  outside-remove_capture_if_matching :
      (env : Env)
      → outside operator_variables (remove_capture_sql_query_parameters_if_matching m.namespace env)
        ≡ outside operator_variables env
  unfolding remove_capture_sql_query_parameters_if_matching
  outside-remove_capture_if_matching env = ground (
    arith,
    outside-remove_captures m.namespace operator_variables capture_sql_query_parameters_names env
        refl,
  )

  pub uninstrument_container-outside :
      (c : Container)
      → outside operator_variables (uninstrument_container m c).env
        ≡ outside operator_variables c.env
  unfolding uninstrument_container remove_own_environment_variables
  uninstrument_container-outside c =
      let anonymous = remove_environment_variable c.env dash0_node_ip in
      let current = remove_legacy_environment_variables anonymous in
      let unloaded = remove_entry_from_ld_preload current ld_preload_value in
      let unconfigured = remove_environment_variable unloaded injector_config_file in
      let unbased = remove_environment_variable unconfigured collector_base_url in
      let silent = remove_otel_exporter_if_set_by_operator m.cluster unbased in
      let unpropagated = remove_otel_propagators_if_matching m.namespace silent in
      let uncaptured = remove_capture_sql_query_parameters_if_matching m.namespace unpropagated in
      let unlogged = remove_otel_logs_exporter_env_var m.namespace uncaptured in
      outside-remove_environment_variables operator_variables injector_names unlogged refl
      ∙ widen (logs_exporter ∷ []) unlogged uncaptured refl
          (outside-remove_otel_logs_exporter m.namespace uncaptured)
      ∙ outside-remove_capture_if_matching unpropagated
      ∙ widen (propagators ∷ []) unpropagated silent refl
          (outside-remove_otel_propagators m.namespace silent)
      ∙ widen exporter_variables silent unbased refl
          (outside-remove_otel_exporter m.cluster unbased)
      ∙ outside-remove operator_variables unconfigured collector_base_url refl
      ∙ outside-remove operator_variables unloaded injector_config_file refl
      ∙ widen (ld_preload ∷ []) unloaded current refl
          (outside-remove_entry_from_ld_preload current ld_preload_value)
      ∙ widen legacy_variables current anonymous refl (outside-remove_legacy anonymous)
      ∙ outside-remove operator_variables c.env dash0_node_ip refl
