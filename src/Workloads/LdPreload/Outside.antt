-- ===== src/Workloads/LdPreload/Outside.antt =====
-- Which variables the steps on LD_PRELOAD and on legacy variables of
-- internal/workloads/workload_modifier.go can change.
use dash0_operator.Base.{String, Option, none, some, List, [], ◌∷◌, ◌≡◌, refl, ◌∙◌, arith}
use dash0_operator.Workloads.Pod.{EnvVar, Env}
use dash0_operator.Workloads.Env.{plain, get_env_var, remove_environment_variables}
use dash0_operator.Workloads.Env.Outside.{
  outside, outside-more, outside-append, outside-update, outside-delete,
  outside-remove_environment_variables,
}
use dash0_operator.Workloads.LdPreload.{
  Issue, ld_preload, ld_preload_value, ld_preload_legacy_value, add_to_ld_preload, set_value,
  appended_ld_preload, add_or_append_to_ld_preload_env_var, remove_entry, value_without_entry,
  remove_entry_from_ld_preload, node_options, remove_node_options, node_options_without,
  remove_legacy_env_var_node_options, legacy_names, remove_legacy_environment_variables,
}

abbrev preload_names : List String
preload_names = ld_preload ∷ []

abbrev node_names : List String
node_names = node_options ∷ []

abbrev pub legacy_variables : List String
legacy_variables = node_options ∷ ld_preload ∷ legacy_names

outside-add_to_ld_preload :
    (env : Env) (issues : List Issue) (v : Option EnvVar)
    → outside preload_names (add_to_ld_preload env issues v).0 ≡ outside preload_names env
unfolding add_to_ld_preload
outside-add_to_ld_preload env issues none =
    outside-append preload_names env (plain ld_preload ld_preload_value) refl
outside-add_to_ld_preload env issues (some v) = ground (
  arith,
  outside-update preload_names (set_value (appended_ld_preload v.value)) (λ w. refl) env ld_preload
      refl,
)

pub outside-add_or_append :
    (env : Env) (issues : List Issue)
    → outside preload_names (add_or_append_to_ld_preload_env_var env issues).0
      ≡ outside preload_names env
unfolding add_or_append_to_ld_preload_env_var
outside-add_or_append env issues = outside-add_to_ld_preload env issues (get_env_var env ld_preload)

outside-remove_entry :
    (env : Env) (entry : String) (v : Option EnvVar)
    → outside preload_names (remove_entry env entry v) ≡ outside preload_names env
unfolding remove_entry
outside-remove_entry env entry none = refl
outside-remove_entry env entry (some v) = ground (
  arith,
  outside-delete preload_names env ld_preload refl,
  outside-update preload_names (set_value (value_without_entry v.value entry)) (λ w. refl) env
      ld_preload refl,
)

pub outside-remove_entry_from_ld_preload :
    (env : Env) (entry : String)
    → outside preload_names (remove_entry_from_ld_preload env entry) ≡ outside preload_names env
unfolding remove_entry_from_ld_preload
outside-remove_entry_from_ld_preload env entry =
    outside-remove_entry env entry (get_env_var env ld_preload)

outside-remove_node_options :
    (env : Env) (v : Option EnvVar)
    → outside node_names (remove_node_options env v) ≡ outside node_names env
unfolding remove_node_options
outside-remove_node_options env none = refl
outside-remove_node_options env (some v) = ground (
  arith,
  outside-delete node_names env node_options refl,
  outside-update node_names (set_value (node_options_without v.value)) (λ w. refl) env node_options
      refl,
)

pub outside-remove_legacy :
    (env : Env)
    → outside legacy_variables (remove_legacy_environment_variables env)
      ≡ outside legacy_variables env
unfolding remove_legacy_environment_variables remove_legacy_env_var_node_options
outside-remove_legacy env =
    let unset = remove_node_options env (get_env_var env node_options) in
    let removed = remove_environment_variables unset legacy_names in
    outside-more preload_names legacy_variables
      (remove_entry_from_ld_preload removed ld_preload_legacy_value) removed refl
      (outside-remove_entry_from_ld_preload removed ld_preload_legacy_value)
    ∙ outside-remove_environment_variables legacy_variables legacy_names unset refl
    ∙ outside-more node_names legacy_variables unset env refl
        (outside-remove_node_options env (get_env_var env node_options))
