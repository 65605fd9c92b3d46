-- ===== src/Workloads/Attributes.antt =====
-- internal/workloads/workload_modifier.go: the service attributes and the resource attributes that are
-- derived from labels and annotations.
pub mod Outside
use Prim.Native.String
use text.Mathlib.Text.{starts_with}
use dash0_operator.Base.{
  String, Bool, true, false, not, ◌&&◌, ◌||◌, Option, none, some, List, [], ◌∷◌, map, any, contains,
  ◌==◌, is_some, if◌then◌else◌,
}
use dash0_operator.Base.Text.{trim_space, split, join, remove_all, cut_prefix}
use dash0_operator.Workloads.Pod.{EnvVar, Env, Map, ObjectMeta}
use dash0_operator.Workloads.Maps.{lookup, has_key, put, put_sorted}
use dash0_operator.Workloads.Env.{
  plain, from_field, get_env_var, is_blank, env_var_is_set_and_not_empty, is_env_var_unset_or_empty,
  add_or_replace_environment_variable, remove_environment_variable,
}
use dash0_operator.Workloads.Settings.{from_source, trimmed}

abbrev pub service_name_variable : String
service_name_variable = "OTEL_INJECTOR_SERVICE_NAME"

abbrev pub service_namespace_variable : String
service_namespace_variable = "OTEL_INJECTOR_SERVICE_NAMESPACE"

abbrev pub service_version_variable : String
service_version_variable = "OTEL_INJECTOR_SERVICE_VERSION"

abbrev pub resource_attributes_variable : String
resource_attributes_variable = "OTEL_INJECTOR_RESOURCE_ATTRIBUTES"

abbrev pub injector_log_level : String
injector_log_level = "OTEL_INJECTOR_LOG_LEVEL"

abbrev pub legacy_injector_log_level : String
legacy_injector_log_level = "DASH0_INJECTOR_LOG_LEVEL"

abbrev pub name_label : String
name_label = "app.kubernetes.io/name"

abbrev pub part_of_label : String
part_of_label = "app.kubernetes.io/part-of"

abbrev pub version_label : String
version_label = "app.kubernetes.io/version"

pub record ContainerHasServiceAttributes : Type 0 where
  pub service_name : Bool
  pub service_namespace : Bool
  pub service_version : Bool

key_value_pairs : Option EnvVar → List String
key_value_pairs none = []
key_value_pairs (some v) =
    if not (is_some v.value_from) && not (is_blank v.value)
    then map (λ pair. remove_all (trim_space pair) " ") (split b',' v.value)
    else []

unfoldable pub check_container_for_service_attributes : Env → ContainerHasServiceAttributes
unfolding key_value_pairs
check_container_for_service_attributes env =
    let pairs = key_value_pairs (get_env_var env "OTEL_RESOURCE_ATTRIBUTES") in
    record {
      service_name =
          env_var_is_set_and_not_empty env "OTEL_SERVICE_NAME"
          || any pairs (λ pair. starts_with pair "service.name=");
      service_namespace = any pairs (λ pair. starts_with pair "service.namespace=");
      service_version = any pairs (λ pair. starts_with pair "service.version=");
    }

-- addEnvVarFromLabelFieldSelector
abbrev pub from_label : String → String → EnvVar
from_label name label = from_field name (String.◌++◌ "metadata.labels['" (String.◌++◌ label "']"))

abbrev pub add_if : Bool → Env → EnvVar → Env
add_if condition env v = if condition then add_or_replace_environment_variable env v else env

abbrev pub add_value : Bool → Env → String → Option String → Env
add_value has env name none = env
add_value has env name (some value) = add_if (not has) env (plain name value)

-- From the labels of the pod, or else from those of the workload.
unfoldable pub add_service_attributes_from_labels :
    ContainerHasServiceAttributes → Map → Map → Env → Env
add_service_attributes_from_labels has pod_labels workload_labels env =
    if has_key pod_labels name_label
    then (let named =
          add_if (not has.service_name) env (from_label service_name_variable name_label) in
        let spaced =
          add_if (not has.service_namespace && has_key pod_labels part_of_label) named
            (from_label service_namespace_variable part_of_label) in
        add_if (not has.service_version && has_key pod_labels version_label) spaced
          (from_label service_version_variable version_label))
    else if has_key workload_labels name_label
    then (let named =
          add_value has.service_name env service_name_variable
            (lookup workload_labels name_label) in
        let spaced =
          add_value has.service_namespace named service_namespace_variable
            (lookup workload_labels part_of_label) in
        add_value has.service_version spaced service_version_variable
          (lookup workload_labels version_label))
    else env

-- The two maps that the loop over the annotations fills.
pub record DerivedAttributes : Type 0 where
  pub attributes : Map
  pub services : Map

abbrev pub service_attributes : List String
service_attributes = "service.name" ∷ "service.namespace" ∷ "service.version" ∷ []

derive_attribute : DerivedAttributes → Option String → String → DerivedAttributes
derive_attribute d none value = d
derive_attribute d (some key) value = record {
  attributes = put_sorted d.attributes key value;
  services = if contains service_attributes key then put d.services key value else d.services;
}

unfoldable pub derive_resource_attributes_from_annotations :
    DerivedAttributes → Map → DerivedAttributes
unfolding derive_attribute
derive_resource_attributes_from_annotations d [] = d
derive_resource_attributes_from_annotations d ((name, value) ∷ annotations) =
    derive_resource_attributes_from_annotations
      (derive_attribute d (cut_prefix "resource.opentelemetry.io/" name) value) annotations

abbrev pub rendered : Map → String
rendered attributes = join "," (map (λ e. String.◌++◌ e.0 (String.◌++◌ "=" e.1)) attributes)

abbrev add_rendered : Map → Env → Env
add_rendered [] env = env
add_rendered (e ∷ attributes) env =
    add_or_replace_environment_variable env
      (plain resource_attributes_variable (rendered (e ∷ attributes)))

unfoldable pub add_attributes_from_annotations :
    ContainerHasServiceAttributes → Map → Map → Env → Env
add_attributes_from_annotations has pod_annotations workload_annotations env =
    let derived =
      derive_resource_attributes_from_annotations
        (derive_resource_attributes_from_annotations (record { attributes = []; services = [] })
          workload_annotations)
        pod_annotations in
    let listed = add_rendered derived.attributes env in
    let named =
      add_value has.service_name listed service_name_variable
        (lookup derived.services "service.name") in
    let spaced =
      add_value has.service_namespace named service_namespace_variable
        (lookup derived.services "service.namespace") in
    add_value has.service_version spaced service_version_variable
      (lookup derived.services "service.version")

abbrev value_of_legacy : Option EnvVar → String
value_of_legacy none = ""
value_of_legacy (some v) = v.value

unfoldable pub migrate_legacy_injector_log_level : Env → Env
migrate_legacy_injector_log_level env =
    if env_var_is_set_and_not_empty env legacy_injector_log_level
      && not (env_var_is_set_and_not_empty env injector_log_level)
    then remove_environment_variable
        (add_or_replace_environment_variable env
          (plain injector_log_level (value_of_legacy (get_env_var env legacy_injector_log_level))))
        legacy_injector_log_level
    else env
