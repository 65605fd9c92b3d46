-- ===== src/Workloads/Env.antt =====
-- internal/workloads/workload_modifier.go and internal/util/env_vars.go: the elementary operations on
-- the environment of a container.
pub mod Laws
pub mod Outside
use dash0_operator.Base.{
  ℕ, String, Bool, true, false, not, ◌&&◌, ◌||◌, Option, none, some, List, [], ◌∷◌, ◌++◌, any, keep,
  ◌==◌, is_some, if◌then◌else◌, leb,
}
use dash0_operator.Base.Text.{trim_space, cut_prefix, all_digits, count_chars}
use dash0_operator.Workloads.Pod.{Source, field_ref, EnvVar, Env}

-- A variable with a value, and one that reads a field.
abbrev pub plain : String → String → EnvVar
plain name value = record { name = name; value = value; value_from = none }

abbrev pub from_field : String → String → EnvVar
from_field name path = record { name = name; value = ""; value_from = some (field_ref path) }

-- GetEnvVar; also findEnvVarIdx with the variable at that index
unfoldable pub get_env_var : Env → String → Option EnvVar
get_env_var [] name = none
get_env_var (v ∷ env) name = if v.name == name then some v else get_env_var env name

abbrev pub is_blank : String → Bool
is_blank s = trim_space s == ""

unfoldable pub is_env_var_unset_or_empty : Option EnvVar → Bool
is_env_var_unset_or_empty none = true
is_env_var_unset_or_empty (some v) = not (is_some v.value_from) && is_blank v.value

abbrev pub env_var_is_set_and_not_empty : Env → String → Bool
env_var_is_set_and_not_empty env name = not (is_env_var_unset_or_empty (get_env_var env name))

-- envVarHasValue, of the variable at an index
unfoldable pub env_var_has_value : EnvVar → String → Bool
env_var_has_value v value = not (is_some v.value_from) && trim_space v.value == value

-- The first variable with this name, changed; the index that the source computes first.
unfoldable pub update_env_var : (EnvVar → EnvVar) → Env → String → Env
update_env_var f [] name = []
update_env_var f (v ∷ env) name =
    let rest = update_env_var f env name in if v.name == name then f v ∷ env else v ∷ rest

-- slices.Delete of the first variable with this name
unfoldable pub delete_env_var : Env → String → Env
delete_env_var [] name = []
delete_env_var (v ∷ env) name =
    let rest = delete_env_var env name in if v.name == name then env else v ∷ rest

unfoldable pub replace_existing_environment_variable : EnvVar → EnvVar → EnvVar
replace_existing_environment_variable new old =
    if not (new.value == "")
    then record old { value = new.value; value_from = none }
    else record old { value = ""; value_from = new.value_from }

unfoldable pub add_or_replace_environment_variable : Env → EnvVar → Env
add_or_replace_environment_variable env v =
    if is_some (get_env_var env v.name)
    then update_env_var (replace_existing_environment_variable v) env v.name
    else env ++ v ∷ []

-- removeEnvironmentVariable: all variables with this name
unfoldable pub remove_environment_variable : Env → String → Env
remove_environment_variable env name = keep (λ v. not (v.name == name)) env

unfoldable pub remove_environment_variables : Env → List String → Env
remove_environment_variables env [] = env
remove_environment_variables env (name ∷ names) =
    remove_environment_variables (remove_environment_variable env name) names

abbrev has_port : Option String → Bool
has_port none = false
has_port (some port) = all_digits port && leb 1 (count_chars port) && leb (count_chars port) 5

-- nodeLocalCollectorEndpointRegex
unfoldable pub is_node_local_collector_endpoint : String → Bool
is_node_local_collector_endpoint url = has_port (cut_prefix "http://$(DASH0_NODE_IP):" url)

-- isOperatorCollectorEndpoint, with the service URL
unfoldable pub is_operator_collector_endpoint : EnvVar → String → Bool
is_operator_collector_endpoint v service_base_url =
    if is_some v.value_from
    then false
    else if trim_space v.value == service_base_url
    then true
    else is_node_local_collector_endpoint (trim_space v.value)
