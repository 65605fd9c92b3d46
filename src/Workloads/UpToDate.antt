-- ===== src/Workloads/UpToDate.antt =====
-- internal/workloads/workload_modifier.go: the environment of an instrumented container passes the
-- checks of InstrumentationIsUpToDate.
pub mod Stages
pub mod Containers
pub mod Labelled
use dash0_operator.Base.{
  String, Bool, true, false, not, ◌&&◌, Option, none, some, List, [], ◌∷◌, ◌++◌, any, contains,
  ◌==◌, is_some, ◌≡◌, ◌≢◌, refl, sym, ◌∙◌, eq_iff, eq_refl, arith, Bool-cases, Option-cases, inl,
  inr, if◌then◌else◌,
}
use dash0_operator.Base.Text.{trim_space}
use dash0_operator.Base.Text.Trimming.{trim_space_idem}
use dash0_operator.Workloads.Pod.{EnvVar, Env, ClusterConfig, NamespaceConfig}
use dash0_operator.Workloads.Env.{
  plain, get_env_var, is_blank, is_env_var_unset_or_empty, env_var_has_value,
  env_var_is_set_and_not_empty, add_or_replace_environment_variable, remove_environment_variable,
  is_operator_collector_endpoint,
}
use dash0_operator.Workloads.Env.Laws.{get_env_var-add_or_replace, get_env_var-remove}
use dash0_operator.Workloads.Env.Outside.{outside, get_env_var-same, outside-add_or_replace}
use dash0_operator.Workloads.LdPreload.{Issue}
use dash0_operator.Workloads.Exporter.{
  exporter_endpoint, exporter_protocol, default_protocol, if_set, exporter_can_be_updated,
  otel_export_env_vars_can_be_updated_for_container, add_or_update_otel_exporter_otlp_env_vars,
}
use dash0_operator.Workloads.Settings.{
  logs_exporter, propagators, has_value, is_exactly, capture_sql_query_parameters_names, is_empty,
  read_bool, trimmed, trimmed_setting, add_otel_logs_exporter_env_var,
  remove_otel_logs_exporter_env_var, otel_logs_exporter_will_be_updated, propagators_can_be_updated,
  otel_propagators_can_be_updated_for_container, add_otel_propagators_env_var,
  capture_can_be_updated, capture_sql_query_parameters_can_be_updated_for_container, add_capture,
  add_captures,
}

-- The base URL of the collector is set, and without space around it.
abbrev pub IsTrimmedUrl : String → Type 0
IsTrimmedUrl url = (is_blank url ≡ false) × (trim_space url ≡ url)

exporter_can_be_updated-own :
    (c : ClusterConfig)
    → IsTrimmedUrl c.otel_collector_base_url
    → exporter_can_be_updated c
        (if_set (some (plain exporter_endpoint c.otel_collector_base_url)))
        (if_set (some (plain exporter_protocol default_protocol)))
      ≡ false
unfolding exporter_can_be_updated is_env_var_unset_or_empty env_var_has_value trim_space
exporter_can_be_updated-own c h = ground (arith, h.0, h.1, eq_refl c.otel_collector_base_url)

pub otel_export-settled :
    (c : ClusterConfig) (env : Env) (issues : List Issue)
    → IsTrimmedUrl c.otel_collector_base_url
    → otel_export_env_vars_can_be_updated_for_container c
        (add_or_update_otel_exporter_otlp_env_vars c env issues).0
      ≡ false
unfolding add_or_update_otel_exporter_otlp_env_vars
    otel_export_env_vars_can_be_updated_for_container
otel_export-settled c env issues h =
    let endpoint = plain exporter_endpoint c.otel_collector_base_url in
    let protocol = plain exporter_protocol default_protocol in
    let ended = add_or_replace_environment_variable env endpoint in
    let first =
      get_env_var-same (exporter_protocol ∷ []) (add_or_replace_environment_variable ended protocol)
        ended exporter_endpoint
        (outside-add_or_replace (exporter_protocol ∷ []) ended protocol refl) refl
      ∙ get_env_var-add_or_replace env exporter_endpoint c.otel_collector_base_url in
    let second = get_env_var-add_or_replace ended exporter_protocol default_protocol in
    elim (Bool-cases (otel_export_env_vars_can_be_updated_for_container c env)) [
      | inl e ↦ rw (e, first, second) (exporter_can_be_updated-own c h)
      | inr e ↦ ground (arith, e)
    ]

propagators-none :
    (n : NamespaceConfig)
    → is_empty n.trace_context_propagators ≡ true
    → propagators_can_be_updated n none ≡ false
unfolding propagators_can_be_updated is_env_var_unset_or_empty
propagators-none n h = ground arith

propagators-own :
    (n : NamespaceConfig)
    → is_empty n.trace_context_propagators ≡ false
    → propagators_can_be_updated n
        (some (plain propagators (trimmed_setting n.trace_context_propagators)))
      ≡ false
unfolding propagators_can_be_updated is_env_var_unset_or_empty
propagators-own n h = elim (Option-cases n.trace_context_propagators) [
  | inl e ↦ ground (arith, e, h)
  | inr (s, e) ↦ ground (arith, e, h, trim_space_idem s, eq_refl (trim_space s))
]

pub propagators-settled :
    (n : NamespaceConfig) (env : Env)
    → otel_propagators_can_be_updated_for_container n (add_otel_propagators_env_var n env) ≡ false
unfolding otel_propagators_can_be_updated_for_container add_otel_propagators_env_var
propagators-settled n env = ground (
  arith,
  get_env_var-remove env propagators,
  propagators-none n,
  propagators-own n,
  get_env_var-add_or_replace env propagators (trimmed_setting n.trace_context_propagators),
)

is_exactly-has_value :
    (v : Option EnvVar) → has_value v "none" ≡ false → is_exactly v "none" ≡ false
unfolding env_var_has_value trim_space
is_exactly-has_value none h = refl
is_exactly-has_value (some v) h = elim (Bool-cases (v.value == "none")) [
  | inl e ↦
      let same : trim_space v.value ≡ "none" = rw ((eq_iff v.value "none").0 e) refl in
      ground (arith, eq_iff (trim_space v.value) "none", same)
  | inr e ↦ ground (arith, e)
]

pub logs_exporter-settled :
    (n : NamespaceConfig) (env : Env)
    → otel_logs_exporter_will_be_updated n (add_otel_logs_exporter_env_var n env) ≡ false
unfolding otel_logs_exporter_will_be_updated add_otel_logs_exporter_env_var
    remove_otel_logs_exporter_env_var is_env_var_unset_or_empty trim_space
logs_exporter-settled n env = ground (
  arith,
  get_env_var-remove env logs_exporter,
  is_exactly-has_value (get_env_var env logs_exporter),
  get_env_var-add_or_replace env logs_exporter "none",
)

capture-none :
    (n : NamespaceConfig)
    → read_bool n.capture_sql_query_parameters ≡ false
    → capture_can_be_updated n none ≡ false
unfolding capture_can_be_updated is_env_var_unset_or_empty
capture-none n h = ground arith

capture-own :
    (n : NamespaceConfig) (name : String)
    → read_bool n.capture_sql_query_parameters ≡ true
    → capture_can_be_updated n (some (plain name "true")) ≡ false
unfolding capture_can_be_updated is_env_var_unset_or_empty trim_space
capture-own n name h = ground arith

pub capture-settled :
    (n : NamespaceConfig) (env : Env) (name : String)
    → capture_sql_query_parameters_can_be_updated_for_container n (add_capture n env name) name
      ≡ false
unfolding capture_sql_query_parameters_can_be_updated_for_container add_capture
capture-settled n env name = ground (
  arith,
  get_env_var-remove env name,
  get_env_var-add_or_replace env name "true",
  capture-none n,
  capture-own n name,
)
