-- ===== src/Workloads/LdPreload.antt =====
-- internal/workloads/workload_modifier.go: LD_PRELOAD, and the variables that older versions of the
-- operator have set.
pub mod Outside
pub mod Loaded
use Prim.Native.Char.{Char, code}
use Prim.Native.String
use dash0_operator.Base.{
  String, Bool, true, false, not, ◌&&◌, ◌||◌, Option, none, some, List, [], ◌∷◌, ◌++◌, map, keep,
  ◌==◌, is_some, if◌then◌else◌,
}
use dash0_operator.Base.Text.{trim_space, contains_text, split, join, remove_all, has_char}
use dash0_operator.Workloads.Pod.{EnvVar, Env}
use dash0_operator.Workloads.Env.{
  plain, get_env_var, is_blank, update_env_var, delete_env_var, remove_environment_variables,
}

-- What a container is not instrumented with, and why; the texts of the messages are left out.
pub data Issue : Type 0 where
  ld_preload_from_source exporter_not_overwritten : Issue

abbrev pub ld_preload : String
ld_preload = "LD_PRELOAD"

abbrev pub ld_preload_value : String
ld_preload_value = "/__otel_auto_instrumentation/injector/libotelinject.so"

abbrev pub ld_preload_legacy_value : String
ld_preload_legacy_value = "/__dash0__/dash0_injector.so"

-- A variable that is specified via ValueFrom.
abbrev pub is_from_source : EnvVar → Bool
is_from_source v = v.value == "" && is_some v.value_from

abbrev pub set_value : String → EnvVar → EnvVar
set_value value v = record v { value = value }

abbrev pub appended_ld_preload : String → String
appended_ld_preload value =
    if contains_text value ld_preload_value
    then value
    else if is_blank value
    then ld_preload_value
    else String.◌++◌ ld_preload_value (String.◌++◌ " " value)

add_to_ld_preload : Env → List Issue → Option EnvVar → Env × List Issue
add_to_ld_preload env issues none = (env ++ plain ld_preload ld_preload_value ∷ [], issues)
add_to_ld_preload env issues (some v) =
    if is_from_source v
    then (env, issues ++ ld_preload_from_source ∷ [])
    else (update_env_var (set_value (appended_ld_preload v.value)) env ld_preload, issues)

unfoldable pub add_or_append_to_ld_preload_env_var : Env → List Issue → Env × List Issue
unfolding add_to_ld_preload
add_or_append_to_ld_preload_env_var env issues =
    add_to_ld_preload env issues (get_env_var env ld_preload)

abbrev libraries_without : Char → String → String → String
libraries_without separator value entry = join separator (
    keep (λ lib. not (trim_space lib == entry || lib == ""))
      (map trim_space (split (code separator) value)))

abbrev pub value_without_entry : String → String → String
value_without_entry value entry =
    if has_char b':' value
    then libraries_without ":" value entry
    else libraries_without " " value entry

remove_entry : Env → String → Option EnvVar → Env
remove_entry env entry none = env
remove_entry env entry (some v) =
    if is_from_source v
    then env
    else if trim_space v.value == entry
    then delete_env_var env ld_preload
    else if not (contains_text v.value entry)
    then env
    else update_env_var (set_value (value_without_entry v.value entry)) env ld_preload

unfoldable pub remove_entry_from_ld_preload : Env → String → Env
unfolding remove_entry
remove_entry_from_ld_preload env entry = remove_entry env entry (get_env_var env ld_preload)

abbrev pub node_options : String
node_options = "NODE_OPTIONS"

abbrev pub node_options_value : String
node_options_value =
    "--require /__dash0__/instrumentation/node.js/node_modules/@dash0hq/opentelemetry"

abbrev pub node_options_without : String → String
node_options_without value =
    let after = remove_all value (String.◌++◌ node_options_value " ") in
    let before = remove_all after (String.◌++◌ " " node_options_value) in
    remove_all before node_options_value

remove_node_options : Env → Option EnvVar → Env
remove_node_options env none = env
remove_node_options env (some v) =
    if is_from_source v
    then env
    else if not (contains_text v.value node_options_value)
    then env
    else if trim_space v.value == node_options_value
    then delete_env_var env node_options
    else if is_blank (node_options_without v.value)
    then delete_env_var env node_options
    else update_env_var (set_value (node_options_without v.value)) env node_options

unfoldable pub remove_legacy_env_var_node_options : Env → Env
unfolding remove_node_options
remove_legacy_env_var_node_options env = remove_node_options env (get_env_var env node_options)

abbrev pub legacy_names : List String
legacy_names =
    "DASH0_SERVICE_INSTANCE_ID" ∷ "DASH0_INJECTOR_DEBUG" ∷ "DASH0_NAMESPACE_NAME" ∷ "DASH0_POD_NAME"
    ∷ "DASH0_POD_UID" ∷ "DASH0_CONTAINER_NAME" ∷ "DASH0_SERVICE_NAME" ∷ "DASH0_SERVICE_NAMESPACE"
    ∷ "DASH0_SERVICE_VERSION" ∷ "DASH0_RESOURCE_ATTRIBUTES" ∷ []

unfoldable pub remove_legacy_environment_variables : Env → Env
remove_legacy_environment_variables env =
    remove_entry_from_ld_preload
      (remove_environment_variables (remove_legacy_env_var_node_options env) legacy_names)
      ld_preload_legacy_value
