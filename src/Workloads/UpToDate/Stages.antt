-- ===== src/Workloads/UpToDate/Stages.antt =====
-- internal/workloads/workload_modifier.go: addEnvironmentVariables by its stages, and what the stages
-- after each setting can still change.
use dash0_operator.Base.{String, false, some, List, [], ◌∷◌, ◌++◌, contains, ◌≡◌, refl, ◌∙◌}
use dash0_operator.Workloads.Pod.{EnvVar, Env, ObjectMeta, ResourceModifier}
use dash0_operator.Workloads.Env.{plain, get_env_var, add_or_replace_environment_variable}
use dash0_operator.Workloads.Env.Outside.{
  outside, outside-more, get_env_var-same, outside-add_or_replace,
}
use dash0_operator.Workloads.LdPreload.{Issue, ld_preload, add_or_append_to_ld_preload_env_var}
use dash0_operator.Workloads.LdPreload.Outside.{outside-add_or_append}
use dash0_operator.Workloads.Exporter.{
  exporter_endpoint, exporter_protocol, otel_export_env_vars_can_be_updated_for_container,
}
use dash0_operator.Workloads.Settings.{
  logs_exporter, propagators, injector_config_file, capture_sql_query_parameters_names,
  add_otel_logs_exporter_env_var, otel_logs_exporter_will_be_updated,
  otel_propagators_can_be_updated_for_container, add_otel_propagators_env_var,
  capture_sql_query_parameters_can_be_updated_for_container,
  add_capture_sql_query_parameters_env_var, otel_injector_config_file_for,
}
use dash0_operator.Workloads.Frames.{
  outside-add_otel_logs_exporter, outside-add_otel_propagators, outside-add_captures,
}
use dash0_operator.Workloads.Instrumentation.{add_attributes}
use dash0_operator.Workloads.Instrumentation.Kept.{identity_variables, outside-add_attributes}

abbrev pub after_capturing_names : List String
after_capturing_names = capture_sql_query_parameters_names ++ identity_variables

abbrev pub after_configured_names : List String
after_configured_names = propagators ∷ after_capturing_names

abbrev pub after_logging_names : List String
after_logging_names = ld_preload ∷ injector_config_file ∷ after_configured_names

abbrev pub after_exporting_names : List String
after_exporting_names = logs_exporter ∷ after_logging_names

-- The stages from each setting to the end, of one container.
module _ (m : ResourceModifier) (name : String) (workload_meta pod_meta : ObjectMeta) where
  abbrev pub from_attributes : Env → Env
  from_attributes env =
      add_attributes m.cluster.instrumentation_debug name workload_meta pod_meta env

  abbrev pub from_captures : Env → Env
  from_captures env = from_attributes (add_capture_sql_query_parameters_env_var m.namespace env)

  abbrev pub from_propagators : Env → Env
  from_propagators env = from_captures (add_otel_propagators_env_var m.namespace env)

  abbrev conf : EnvVar
  conf = plain injector_config_file (otel_injector_config_file_for m.cluster)

  abbrev pub from_ld_preload : Env → List Issue → Env
  from_ld_preload env issues =
      from_propagators (
        add_or_replace_environment_variable (add_or_append_to_ld_preload_env_var env issues).0 conf)

  abbrev pub from_logs : Env → List Issue → Env
  from_logs env issues = from_ld_preload (add_otel_logs_exporter_env_var m.namespace env) issues

  outside-from_captures :
      (env : Env)
      → outside after_capturing_names (from_captures env) ≡ outside after_capturing_names env
  outside-from_captures env =
      let captured = add_capture_sql_query_parameters_env_var m.namespace env in
      outside-more identity_variables after_capturing_names (from_attributes captured) captured refl
        (outside-add_attributes m.cluster.instrumentation_debug name workload_meta pod_meta
          captured)
      ∙ outside-add_captures m.namespace after_capturing_names capture_sql_query_parameters_names
          env refl

  pub outside-from_propagators :
      (env : Env)
      → outside after_configured_names (from_propagators env) ≡ outside after_configured_names env
  outside-from_propagators env =
      let propagating = add_otel_propagators_env_var m.namespace env in
      outside-more after_capturing_names after_configured_names (from_captures propagating)
        propagating refl (outside-from_captures propagating)
      ∙ outside-more (propagators ∷ []) after_configured_names propagating env refl
          (outside-add_otel_propagators m.namespace env)

  outside-from_ld_preload :
      (env : Env) (issues : List Issue)
      → outside after_logging_names (from_ld_preload env issues) ≡ outside after_logging_names env
  outside-from_ld_preload env issues =
      let preloading = (add_or_append_to_ld_preload_env_var env issues).0 in
      let configured = add_or_replace_environment_variable preloading conf in
      outside-more after_configured_names after_logging_names (from_propagators configured)
        configured refl (outside-from_propagators configured)
      ∙ outside-add_or_replace after_logging_names preloading conf refl
      ∙ outside-more (ld_preload ∷ []) after_logging_names preloading env refl
          (outside-add_or_append env issues)

  pub outside-from_logs :
      (env : Env) (issues : List Issue)
      → outside after_exporting_names (from_logs env issues) ≡ outside after_exporting_names env
  outside-from_logs env issues =
      let logging = add_otel_logs_exporter_env_var m.namespace env in
      outside-more after_logging_names after_exporting_names (from_ld_preload logging issues)
        logging refl (outside-from_ld_preload logging issues)
      ∙ outside-more (logs_exporter ∷ []) after_exporting_names logging env refl
          (outside-add_otel_logs_exporter m.namespace env)

  -- What each stage has settled stays settled to the end.
  pub exporter-after :
      (env : Env) (issues : List Issue)
      → otel_export_env_vars_can_be_updated_for_container m.cluster env ≡ false
      → otel_export_env_vars_can_be_updated_for_container m.cluster (from_logs env issues) ≡ false
  unfolding otel_export_env_vars_can_be_updated_for_container
  exporter-after env issues h =
      let kept = outside-from_logs env issues in
      rw
        (
          get_env_var-same after_exporting_names (from_logs env issues) env exporter_endpoint kept
              refl,
          get_env_var-same after_exporting_names (from_logs env issues) env exporter_protocol kept
              refl,
        )
        h

  pub logs-after :
      (env : Env) (issues : List Issue)
      → otel_logs_exporter_will_be_updated m.namespace env ≡ false
      → otel_logs_exporter_will_be_updated m.namespace (from_ld_preload env issues) ≡ false
  unfolding otel_logs_exporter_will_be_updated
  logs-after env issues h =
      rw
        (get_env_var-same after_logging_names (from_ld_preload env issues) env logs_exporter
          (outside-from_ld_preload env issues) refl)
        h

  pub conf-after :
      (env : Env)
      → get_env_var env injector_config_file ≡ some conf
      → get_env_var (from_propagators env) injector_config_file ≡ some conf
  conf-after env h =
      get_env_var-same after_configured_names (from_propagators env) env injector_config_file
        (outside-from_propagators env) refl
      ∙ h

  pub propagators-after :
      (env : Env)
      → otel_propagators_can_be_updated_for_container m.namespace env ≡ false
      → otel_propagators_can_be_updated_for_container m.namespace (from_captures env) ≡ false
  unfolding otel_propagators_can_be_updated_for_container
  propagators-after env h =
      rw
        (get_env_var-same after_capturing_names (from_captures env) env propagators
          (outside-from_captures env) refl)
        h

  pub capture-after :
      (env : Env) (variable : String)
      → contains identity_variables variable ≡ false
      → capture_sql_query_parameters_can_be_updated_for_container m.namespace env variable ≡ false
      → capture_sql_query_parameters_can_be_updated_for_container m.namespace
          (from_attributes env)
          variable
        ≡ false
  unfolding capture_sql_query_parameters_can_be_updated_for_container
  capture-after env variable k h =
      rw
        (get_env_var-same identity_variables (from_attributes env) env variable
          (outside-add_attributes m.cluster.instrumentation_debug name workload_meta pod_meta env)
          k)
        h
