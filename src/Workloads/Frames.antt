-- ===== src/Workloads/Frames.antt =====
-- Which variables each step of the instrumentation in internal/workloads/workload_modifier.go can
-- change.
use dash0_operator.Base.{String, true, List, [], ◌∷◌, all, contains, ◌≡◌, refl, arith}
use dash0_operator.Workloads.Pod.{Env, ClusterConfig, NamespaceConfig}
use dash0_operator.Workloads.Env.{
  plain, add_or_replace_environment_variable, remove_environment_variable,
}
use dash0_operator.Workloads.Env.Outside.{outside, outside-remove, outside-add_or_replace}
use dash0_operator.Workloads.LdPreload.{Issue}
use dash0_operator.Workloads.Exporter.{
  exporter_endpoint, exporter_protocol, default_protocol, add_or_update_otel_exporter_otlp_env_vars,
  remove_otel_exporter_if_set_by_operator,
}
use dash0_operator.Workloads.Settings.{
  logs_exporter, propagators, trimmed_setting, add_otel_logs_exporter_env_var,
  remove_otel_logs_exporter_env_var, add_otel_propagators_env_var,
  remove_otel_propagators_if_matching, add_capture, add_captures, remove_capture, remove_captures,
}
use dash0_operator.Workloads.Instrumentation.{dash0_node_ip, prepend_dash0_node_ip}

pub outside-prepend_dash0_node_ip :
    (env : Env)
    → outside (dash0_node_ip ∷ []) (prepend_dash0_node_ip env) ≡ outside (dash0_node_ip ∷ []) env
unfolding prepend_dash0_node_ip outside
outside-prepend_dash0_node_ip env = outside-remove (dash0_node_ip ∷ []) env dash0_node_ip refl

abbrev pub exporter_variables : List String
exporter_variables = exporter_endpoint ∷ exporter_protocol ∷ []

pub outside-add_or_update :
    (c : ClusterConfig) (env : Env) (issues : List Issue)
    → outside exporter_variables (add_or_update_otel_exporter_otlp_env_vars c env issues).0
      ≡ outside exporter_variables env
unfolding add_or_update_otel_exporter_otlp_env_vars
outside-add_or_update c env issues =
    let endpoint = plain exporter_endpoint c.otel_collector_base_url in
    ground (
      arith,
      outside-add_or_replace exporter_variables env endpoint refl,
      outside-add_or_replace exporter_variables (add_or_replace_environment_variable env endpoint)
          (plain exporter_protocol default_protocol) refl,
    )

pub outside-remove_otel_exporter :
    (c : ClusterConfig) (env : Env)
    → outside exporter_variables (remove_otel_exporter_if_set_by_operator c env)
      ≡ outside exporter_variables env
unfolding remove_otel_exporter_if_set_by_operator
outside-remove_otel_exporter c env = ground (
  arith,
  outside-remove exporter_variables env exporter_endpoint refl,
  outside-remove exporter_variables (remove_environment_variable env exporter_endpoint)
      exporter_protocol refl,
)

module _ (n : NamespaceConfig) where
  pub outside-remove_otel_logs_exporter :
      (env : Env)
      → outside (logs_exporter ∷ []) (remove_otel_logs_exporter_env_var n env)
        ≡ outside (logs_exporter ∷ []) env
  unfolding remove_otel_logs_exporter_env_var
  outside-remove_otel_logs_exporter env =
      ground (arith, outside-remove (logs_exporter ∷ []) env logs_exporter refl)

  pub outside-add_otel_logs_exporter :
      (env : Env)
      → outside (logs_exporter ∷ []) (add_otel_logs_exporter_env_var n env)
        ≡ outside (logs_exporter ∷ []) env
  unfolding add_otel_logs_exporter_env_var
  outside-add_otel_logs_exporter env = ground (
    arith,
    outside-remove_otel_logs_exporter env,
    outside-add_or_replace (logs_exporter ∷ []) env (plain logs_exporter "none") refl,
  )

  pub outside-add_otel_propagators :
      (env : Env)
      → outside (propagators ∷ []) (add_otel_propagators_env_var n env)
        ≡ outside (propagators ∷ []) env
  unfolding add_otel_propagators_env_var
  outside-add_otel_propagators env = ground (
    arith,
    outside-remove (propagators ∷ []) env propagators refl,
    outside-add_or_replace (propagators ∷ []) env
        (plain propagators (trimmed_setting n.trace_context_propagators)) refl,
  )

  pub outside-remove_otel_propagators :
      (env : Env)
      → outside (propagators ∷ []) (remove_otel_propagators_if_matching n env)
        ≡ outside (propagators ∷ []) env
  unfolding remove_otel_propagators_if_matching
  outside-remove_otel_propagators env =
      ground (arith, outside-remove (propagators ∷ []) env propagators refl)

  pub outside-add_capture :
      (names : List String) (env : Env) (name : String)
      → contains names name ≡ true
      → outside names (add_capture n env name) ≡ outside names env
  unfolding add_capture
  outside-add_capture names env name h = ground (
    arith,
    outside-remove names env name h,
    outside-add_or_replace names env (plain name "true") h,
  )

  pub outside-add_captures :
      (names more : List String) (env : Env)
      → all more (contains names) ≡ true
      → outside names (add_captures n more env) ≡ outside names env
  unfolding add_captures
  outside-add_captures names [] env h = refl
  outside-add_captures names (name ∷ more) env h = ground (
    arith,
    outside-add_capture names env name,
    outside-add_captures names more (add_capture n env name),
  )

  outside-remove_capture :
      (names : List String) (env : Env) (name : String)
      → contains names name ≡ true
      → outside names (remove_capture n env name) ≡ outside names env
  unfolding remove_capture
  outside-remove_capture names env name h = ground (arith, outside-remove names env name h)

  pub outside-remove_captures :
      (names more : List String) (env : Env)
      → all more (contains names) ≡ true
      → outside names (remove_captures n more env) ≡ outside names env
  unfolding remove_captures
  outside-remove_captures names [] env h = refl
  outside-remove_captures names (name ∷ more) env h = ground (
    arith,
    outside-remove_capture names env name,
    outside-remove_captures names more (remove_capture n env name),
  )
