-- ===== src/Workloads/Exporter.antt =====
-- internal/workloads/workload_modifier.go: OTEL_EXPORTER_OTLP_ENDPOINT and OTEL_EXPORTER_OTLP_PROTOCOL.
use dash0_operator.Base.{
  String, Bool, true, false, not, ◌&&◌, Option, none, some, List, [], ◌∷◌, ◌++◌, if◌then◌else◌,
}
use dash0_operator.Workloads.Pod.{EnvVar, Env, ClusterConfig}
use dash0_operator.Workloads.Env.{
  plain, get_env_var, is_env_var_unset_or_empty, env_var_has_value,
  add_or_replace_environment_variable, remove_environment_variable, is_operator_collector_endpoint,
}
use dash0_operator.Workloads.LdPreload.{Issue, exporter_not_overwritten}

abbrev pub exporter_endpoint : String
exporter_endpoint = "OTEL_EXPORTER_OTLP_ENDPOINT"

abbrev pub exporter_protocol : String
exporter_protocol = "OTEL_EXPORTER_OTLP_PROTOCOL"

abbrev pub default_protocol : String
default_protocol = "http/protobuf"

-- A variable at its index, if it is set and not empty.
abbrev pub if_set : Option EnvVar → Option EnvVar
if_set none = none
if_set (some v) = if is_env_var_unset_or_empty (some v) then none else some v

module _ (c : ClusterConfig) where
  -- The endpoint and the protocol, where they are set.
  unfoldable pub exporter_can_be_updated : Option EnvVar → Option EnvVar → Bool
  exporter_can_be_updated none none = true
  exporter_can_be_updated none (some p) = false
  exporter_can_be_updated (some e) none = is_operator_collector_endpoint e c.service_base_url
  exporter_can_be_updated (some e) (some p) =
      if not (is_operator_collector_endpoint e c.service_base_url)
      then false
      else if not (env_var_has_value p default_protocol)
      then false
      else not (env_var_has_value e c.otel_collector_base_url)

  unfoldable pub otel_export_env_vars_can_be_updated_for_container : Env → Bool
  unfolding exporter_can_be_updated
  otel_export_env_vars_can_be_updated_for_container env =
      exporter_can_be_updated (if_set (get_env_var env exporter_endpoint))
        (if_set (get_env_var env exporter_protocol))

  exporter_has_values : Option EnvVar → Option EnvVar → Bool
  exporter_has_values (some e) (some p) =
      env_var_has_value e c.otel_collector_base_url && env_var_has_value p default_protocol
  exporter_has_values _ _ = false

  -- otelExporterOtlpEnvVarsAlreadyHaveDesiredValues
  unfoldable pub exporter_already_has_desired_values : Env → Bool
  unfolding exporter_has_values
  exporter_already_has_desired_values env =
      exporter_has_values (if_set (get_env_var env exporter_endpoint))
        (if_set (get_env_var env exporter_protocol))

  unfoldable pub add_or_update_otel_exporter_otlp_env_vars : Env → List Issue → Env × List Issue
  add_or_update_otel_exporter_otlp_env_vars env issues =
      if otel_export_env_vars_can_be_updated_for_container env
      then (
        add_or_replace_environment_variable
            (add_or_replace_environment_variable env
              (plain exporter_endpoint c.otel_collector_base_url))
            (plain exporter_protocol default_protocol),
        issues,
      )
      else if exporter_already_has_desired_values env
      then (env, issues)
      else (env, issues ++ exporter_not_overwritten ∷ [])

  set_by_operator : Option EnvVar → Option EnvVar → Bool
  set_by_operator (some e) (some p) =
      is_operator_collector_endpoint e c.service_base_url && env_var_has_value p default_protocol
  set_by_operator _ _ = false

  -- removeOtelExporterOtlpEnvVarsIfSetByOperator
  unfoldable pub remove_otel_exporter_if_set_by_operator : Env → Env
  unfolding set_by_operator
  remove_otel_exporter_if_set_by_operator env =
      if set_by_operator (if_set (get_env_var env exporter_endpoint))
        (if_set (get_env_var env exporter_protocol))
      then remove_environment_variable (remove_environment_variable env exporter_endpoint)
          exporter_protocol
      else env
