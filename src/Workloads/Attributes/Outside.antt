-- ===== src/Workloads/Attributes/Outside.antt =====
-- Which variables the attributes of internal/workloads/workload_modifier.go can change.
use dash0_operator.Base.{
  String, Bool, true, false, not, Option, none, some, List, [], ◌∷◌, contains, ◌≡◌, ◌&&◌, refl, ◌∙◌,
  arith,
}
use dash0_operator.Workloads.Pod.{EnvVar, Env, Map}
use dash0_operator.Workloads.Env.{plain, get_env_var, add_or_replace_environment_variable}
use dash0_operator.Workloads.Env.Outside.{outside, outside-remove, outside-add_or_replace}
use dash0_operator.Workloads.Maps.{lookup, has_key}
use dash0_operator.Workloads.Attributes.{
  ContainerHasServiceAttributes, service_name_variable, service_namespace_variable,
  service_version_variable, resource_attributes_variable, injector_log_level,
  legacy_injector_log_level, add_if, add_value, from_label, name_label, part_of_label,
  version_label, add_rendered, rendered, derive_resource_attributes_from_annotations,
  value_of_legacy, add_service_attributes_from_labels, add_attributes_from_annotations,
  migrate_legacy_injector_log_level,
}

abbrev pub attribute_variables : List String
attribute_variables =
    service_name_variable ∷ service_namespace_variable ∷ service_version_variable
    ∷ resource_attributes_variable ∷ injector_log_level ∷ legacy_injector_log_level ∷ []

pub outside-add_if :
    (names : List String) (b : Bool) (env : Env) (v : EnvVar)
    → contains names v.name ≡ true
    → outside names (add_if b env v) ≡ outside names env
outside-add_if names true env v h = outside-add_or_replace names env v h
outside-add_if names false env v h = refl

outside-add_value :
    (has : Bool) (env : Env) (name : String) (value : Option String)
    → contains attribute_variables name ≡ true
    → outside attribute_variables (add_value has env name value) ≡ outside attribute_variables env
outside-add_value has env name none h = refl
outside-add_value has env name (some value) h =
    outside-add_if attribute_variables (not has) env (plain name value) h

outside-add_values :
    (has : ContainerHasServiceAttributes) (env : Env) (name space version : Option String)
    → outside attribute_variables (
        add_value has.service_version
          (add_value has.service_namespace
            (add_value has.service_name env service_name_variable name)
            service_namespace_variable
            space)
          service_version_variable
          version)
      ≡ outside attribute_variables env
outside-add_values has env name space version =
    let named = add_value has.service_name env service_name_variable name in
    let spaced = add_value has.service_namespace named service_namespace_variable space in
    outside-add_value has.service_version spaced service_version_variable version refl
    ∙ outside-add_value has.service_namespace named service_namespace_variable space refl
    ∙ outside-add_value has.service_name env service_name_variable name refl

pub outside-add_service_attributes :
    (has : ContainerHasServiceAttributes) (pod workload : Map) (env : Env)
    → outside attribute_variables (add_service_attributes_from_labels has pod workload env)
      ≡ outside attribute_variables env
unfolding add_service_attributes_from_labels
outside-add_service_attributes has pod workload env =
    let named = add_if (not has.service_name) env (from_label service_name_variable name_label) in
    let spaces = not has.service_namespace && has_key pod part_of_label in
    let space = from_label service_namespace_variable part_of_label in
    ground (
      arith,
      outside-add_values has env (lookup workload name_label) (lookup workload part_of_label)
          (lookup workload version_label),
      outside-add_if attribute_variables (not has.service_name) env
          (from_label service_name_variable name_label) refl,
      outside-add_if attribute_variables spaces named space refl,
      outside-add_if attribute_variables (not has.service_version && has_key pod version_label)
          (add_if spaces named space) (from_label service_version_variable version_label) refl,
    )

outside-add_rendered :
    (attributes : Map) (env : Env)
    → outside attribute_variables (add_rendered attributes env) ≡ outside attribute_variables env
outside-add_rendered [] env = refl
outside-add_rendered (e ∷ attributes) env =
    outside-add_or_replace attribute_variables env
      (plain resource_attributes_variable (rendered (e ∷ attributes))) refl

pub outside-add_attributes_from_annotations :
    (has : ContainerHasServiceAttributes) (pod workload : Map) (env : Env)
    → outside attribute_variables (add_attributes_from_annotations has pod workload env)
      ≡ outside attribute_variables env
unfolding add_attributes_from_annotations
outside-add_attributes_from_annotations has pod workload env =
    let derived =
      derive_resource_attributes_from_annotations
        (derive_resource_attributes_from_annotations (record { attributes = []; services = [] })
          workload)
        pod in
    outside-add_values has (add_rendered derived.attributes env)
      (lookup derived.services "service.name") (lookup derived.services "service.namespace")
      (lookup derived.services "service.version")
    ∙ outside-add_rendered derived.attributes env

pub outside-migrate :
    (env : Env)
    → outside attribute_variables (migrate_legacy_injector_log_level env)
      ≡ outside attribute_variables env
unfolding migrate_legacy_injector_log_level
outside-migrate env =
    let migrated =
      plain injector_log_level (value_of_legacy (get_env_var env legacy_injector_log_level)) in
    ground (
      arith,
      outside-add_or_replace attribute_variables env migrated refl,
      outside-remove attribute_variables (add_or_replace_environment_variable env migrated)
          legacy_injector_log_level refl,
    )
