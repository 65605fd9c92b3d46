-- ===== src/Workloads/Tests/Containers.antt =====
-- The theorems of internal/workloads on sample containers, and those of internal/util/labels.go.
use dash0_operator.Workloads.Attributes.{migrate_legacy_injector_log_level}
use dash0_operator.Workloads.Settings.{
  add_capture, capture_can_be_updated, capture_sql_query_parameters_can_be_updated_for_container,
}
use dash0_operator.Base.{String, some, ◌∷◌, ◌≡◌, refl, [], true, false}
use dash0_operator.Base.Text.{contains_text, has_char, join, split, trim_space}
use dash0_operator.Workloads.Pod.{Container, EnvVar, other_source}
use dash0_operator.Workloads.Env.{
  add_or_replace_environment_variable, get_env_var, is_env_var_unset_or_empty, plain,
  remove_environment_variable,
}
use dash0_operator.Workloads.Env.Outside.{outside}
use dash0_operator.Workloads.Instrumentation.{instrument_container}
use dash0_operator.Workloads.Instrumentation.Kept.{operator_variables, instrument_container-outside}
use dash0_operator.Workloads.Env.{get_env_var, update_env_var, is_env_var_unset_or_empty}
use dash0_operator.Workloads.LdPreload.{
  ld_preload, ld_preload_value, add_or_append_to_ld_preload_env_var, remove_entry_from_ld_preload,
  remove_legacy_environment_variables,
}
use dash0_operator.Workloads.LdPreload.Loaded.{Preloads}
use dash0_operator.Workloads.Instrumentation.Promises.{instrument_container-Preloads}
use dash0_operator.Workloads.Images.{image_ref_to_label, is_label_char}
use dash0_operator.Workloads.Images.Bounds.{
  IsLabelValue, has_label_chars, image_ref_to_label-bounds,
}
use dash0_operator.Workloads.Tests.{container, hash, init_modifier, meta, namespace}

instrument_container-outside_example :
    outside operator_variables (instrument_container init_modifier container meta meta).0.env
    ≡ outside operator_variables container.env
instrument_container-outside_example =
    instrument_container-outside init_modifier container meta meta

abbrev long_image : String
long_image =
    "registry.example.com:5000/mirror/of/ghcr.io/dash0hq/instrumentation@sha256:0123456789abcdef"

image_ref_to_label-bounds_example : IsLabelValue (image_ref_to_label hash long_image)
unfolding has_label_chars is_label_char
image_ref_to_label-bounds_example = image_ref_to_label-bounds hash long_image refl

abbrev own_endpoint : EnvVar
own_endpoint = plain "OTEL_EXPORTER_OTLP_ENDPOINT" "https://otel.example.com"

abbrev exporting_container : Container
exporting_container = record container { env = own_endpoint ∷ container.env }

instrument_container-Preloads_example :
    let r = instrument_container init_modifier container meta meta in
    (v : EnvVar) × (get_env_var r.0.env ld_preload ≡ some v)
    × Preloads r.1 (get_env_var (remove_legacy_environment_variables container.env) ld_preload) v
instrument_container-Preloads_example =
    instrument_container-Preloads init_modifier container meta meta

-- A log level from a source is replaced by an empty one.
log_level_lost :
    migrate_legacy_injector_log_level (
      record {
        name = "DASH0_INJECTOR_LOG_LEVEL";
        value = "";
        value_from = some (other_source "config");
      }
      ∷ [])
    ≡ plain "OTEL_INJECTOR_LOG_LEVEL" "" ∷ []
unfolding add_capture add_or_replace_environment_variable capture_can_be_updated
    capture_sql_query_parameters_can_be_updated_for_container get_env_var is_env_var_unset_or_empty
    migrate_legacy_injector_log_level remove_environment_variable trim_space
log_level_lost = refl

-- A value with space around it is removed when the capture is switched off.
spaced_value_removed :
    add_capture
      (record namespace {
        capture_sql_query_parameters = some false;
        previous_capture_sql_query_parameters = some true;
      })
      (plain "CAPTURE" " true " ∷ [])
      "CAPTURE"
    ≡ []
unfolding add_capture capture_can_be_updated
    capture_sql_query_parameters_can_be_updated_for_container get_env_var is_env_var_unset_or_empty
    remove_environment_variable trim_space
spaced_value_removed = refl

-- The injector in front of entries that are separated by colons is not removed.
colons_keep_injector :
    let env =
      plain "LD_PRELOAD" "/__otel_auto_instrumentation/injector/libotelinject.so /a.so:/b.so"
      ∷ [] in
    (add_or_append_to_ld_preload_env_var (plain "LD_PRELOAD" "/a.so:/b.so" ∷ []) [] ≡ (env, []))
    × (remove_entry_from_ld_preload env ld_preload_value ≡ env)
unfolding add_or_append_to_ld_preload_env_var remove_entry_from_ld_preload get_env_var
    update_env_var contains_text trim_space has_char join split
colons_keep_injector = (refl, refl)
