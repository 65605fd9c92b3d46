-- ===== src/Workloads/Settings.antt =====
-- internal/workloads/workload_modifier.go: the variables that follow the settings of the namespace and
-- of the cluster: OTEL_LOGS_EXPORTER, OTEL_PROPAGATORS, the capture of SQL query parameters, and the
-- configuration file of the injector.
use dash0_operator.Base.{
  String, Bool, true, false, not, ◌&&◌, Option, none, some, List, [], ◌∷◌, ◌==◌, is_some,
  if◌then◌else◌,
}
use dash0_operator.Base.Text.{trim_space}
use dash0_operator.Workloads.Pod.{EnvVar, Env, ClusterConfig, NamespaceConfig}
use dash0_operator.Workloads.Env.{
  plain, get_env_var, is_blank, is_env_var_unset_or_empty, env_var_is_set_and_not_empty,
  env_var_has_value, add_or_replace_environment_variable, remove_environment_variable,
}

abbrev pub logs_exporter : String
logs_exporter = "OTEL_LOGS_EXPORTER"

abbrev pub propagators : String
propagators = "OTEL_PROPAGATORS"

abbrev pub injector_config_file : String
injector_config_file = "OTEL_INJECTOR_CONFIG_FILE"

abbrev pub capture_sql_query_parameters_names : List String
capture_sql_query_parameters_names =
    "OTEL_INSTRUMENTATION_JDBC_EXPERIMENTAL_CAPTURE_QUERY_PARAMETERS"
    ∷ "OTEL_DOTNET_EXPERIMENTAL_SQLCLIENT_ENABLE_TRACE_DB_QUERY_PARAMETERS"
    ∷ "OTEL_DOTNET_EXPERIMENTAL_EFCORE_ENABLE_TRACE_DB_QUERY_PARAMETERS" ∷ []

-- pointers.IsEmpty and pointers.ReadBoolPointerWithDefault
abbrev pub is_empty : Option String → Bool
is_empty none = true
is_empty (some s) = is_blank s

abbrev pub read_bool : Option Bool → Bool
read_bool none = false
read_bool (some b) = b

abbrev pub has_value : Option EnvVar → String → Bool
has_value none value = false
has_value (some v) value = env_var_has_value v value

abbrev pub is_exactly : Option EnvVar → String → Bool
is_exactly none value = false
is_exactly (some v) value = not (is_some v.value_from) && v.value == value

abbrev pub from_source : Option EnvVar → Bool
from_source none = false
from_source (some v) = is_some v.value_from

-- The value without the space around it; "" without a variable.
abbrev pub trimmed : Option EnvVar → String
trimmed none = ""
trimmed (some v) = trim_space v.value

abbrev pub trimmed_setting : Option String → String
trimmed_setting none = ""
trimmed_setting (some s) = trim_space s

module _ (n : NamespaceConfig) where
  unfoldable pub remove_otel_logs_exporter_env_var : Env → Env
  remove_otel_logs_exporter_env_var env =
      if not n.previous_log_collection_enabled
      then env
      else if has_value (get_env_var env logs_exporter) "none"
      then remove_environment_variable env logs_exporter
      else env

  unfoldable pub add_otel_logs_exporter_env_var : Env → Env
  add_otel_logs_exporter_env_var env =
      if not n.log_collection_enabled
      then remove_otel_logs_exporter_env_var env
      else if env_var_is_set_and_not_empty env logs_exporter
      then env
      else add_or_replace_environment_variable env (plain logs_exporter "none")

  -- otelLogsExporterEnvVarWillBeUpdatedForAtLeastOneContainer, for one container
  unfoldable pub otel_logs_exporter_will_be_updated : Env → Bool
  otel_logs_exporter_will_be_updated env =
      if n.log_collection_enabled
      then is_env_var_unset_or_empty (get_env_var env logs_exporter)
      else if n.previous_log_collection_enabled
      then is_exactly (get_env_var env logs_exporter) "none"
      else false

  unfoldable pub propagators_can_be_updated : Option EnvVar → Bool
  propagators_can_be_updated v =
      if from_source v
      then false
      else if is_empty n.trace_context_propagators
      then (if is_env_var_unset_or_empty v
          then false
          else if is_empty n.previous_trace_context_propagators
          then false
          else trimmed v == trimmed_setting n.previous_trace_context_propagators)
      else if is_env_var_unset_or_empty v
      then true
      else if trimmed v == trimmed_setting n.trace_context_propagators
      then false
      else if is_empty n.previous_trace_context_propagators
      then false
      else trimmed v == trimmed_setting n.previous_trace_context_propagators

  unfoldable pub otel_propagators_can_be_updated_for_container : Env → Bool
  otel_propagators_can_be_updated_for_container env =
      propagators_can_be_updated (get_env_var env propagators)

  unfoldable pub add_otel_propagators_env_var : Env → Env
  add_otel_propagators_env_var env =
      if not (otel_propagators_can_be_updated_for_container env)
      then env
      else if is_empty n.trace_context_propagators
      then remove_environment_variable env propagators
      else add_or_replace_environment_variable env
          (plain propagators (trimmed_setting n.trace_context_propagators))

  -- removeOtelPropagatorsIfCurrentValueMatchesConfig
  unfoldable pub remove_otel_propagators_if_matching : Env → Env
  remove_otel_propagators_if_matching env =
      if is_empty n.trace_context_propagators then env else elim (get_env_var env propagators) [
        | none ↦ env
        | some v ↦
            if is_some v.value_from
            then env
            else if trim_space v.value == trimmed_setting n.trace_context_propagators
            then remove_environment_variable env propagators
            else env
      ]

  unfoldable pub capture_can_be_updated : Option EnvVar → Bool
  capture_can_be_updated v =
      if from_source v
      then false
      else if not (read_bool n.capture_sql_query_parameters)
      then (if is_env_var_unset_or_empty v
          then false
          else if not (read_bool n.previous_capture_sql_query_parameters)
          then false
          else trimmed v == "true")
      else is_env_var_unset_or_empty v

  unfoldable pub capture_sql_query_parameters_can_be_updated_for_container : Env → String → Bool
  capture_sql_query_parameters_can_be_updated_for_container env name =
      capture_can_be_updated (get_env_var env name)

  -- One round of the loop over the names.
  unfoldable pub add_capture : Env → String → Env
  add_capture env name =
      if not (capture_sql_query_parameters_can_be_updated_for_container env name)
      then env
      else if read_bool n.capture_sql_query_parameters
      then add_or_replace_environment_variable env (plain name "true")
      else remove_environment_variable env name

  unfoldable pub add_captures : List String → Env → Env
  add_captures [] env = env
  add_captures (name ∷ names) env = add_captures names (add_capture env name)

  abbrev pub add_capture_sql_query_parameters_env_var : Env → Env
  add_capture_sql_query_parameters_env_var env = add_captures capture_sql_query_parameters_names env

  unfoldable pub remove_capture : Env → String → Env
  remove_capture env name =
      if is_exactly (get_env_var env name) "true" then remove_environment_variable env name else env

  unfoldable pub remove_captures : List String → Env → Env
  remove_captures [] env = env
  remove_captures (name ∷ names) env = remove_captures names (remove_capture env name)

  -- removeCaptureSqlQueryParametersIfCurrentValueMatchesConfig
  unfoldable pub remove_capture_sql_query_parameters_if_matching : Env → Env
  remove_capture_sql_query_parameters_if_matching env =
      if not (read_bool n.capture_sql_query_parameters)
      then env
      else remove_captures capture_sql_query_parameters_names env

-- otelInjectorConfigFileFor
unfoldable pub otel_injector_config_file_for : ClusterConfig → String
otel_injector_config_file_for c =
    if c.enable_python && c.enable_ruby
    then "/__otel_auto_instrumentation/injector/injector-with-python-and-ruby.conf"
    else if c.enable_python
    then "/__otel_auto_instrumentation/injector/injector-with-python.conf"
    else if c.enable_ruby
    then "/__otel_auto_instrumentation/injector/injector-with-ruby.conf"
    else "/__otel_auto_instrumentation/injector/injector.conf"

abbrev pub config_file_differs : ClusterConfig → Option EnvVar → Bool
config_file_differs c v =
    if from_source v
    then true
    else if is_env_var_unset_or_empty v
    then true
    else not (trimmed v == trim_space (otel_injector_config_file_for c))

-- otelInjectorConfEnvVarWillBeUpdatedForAtLeastOneContainer, for one container
unfoldable pub otel_injector_conf_will_be_updated : ClusterConfig → Env → Bool
otel_injector_conf_will_be_updated c env =
    config_file_differs c (get_env_var env injector_config_file)
