-- ===== src/Workloads/UpToDate/Labelled.antt =====
-- internal/workloads/workload_modifier.go: after its modification a workload is up to date.
use dash0_operator.Base.{
  ℕ, String, Bool, true, false, some, List, [], ◌∷◌, All, ◌≡◌, refl, ◌∙◌, eq_refl, arith,
}
use dash0_operator.Workloads.Pod.{
  Env, Container, ObjectMeta, Workload, ClusterConfig, NamespaceConfig, ResourceModifier,
}
use dash0_operator.Workloads.Maps.{lookup, put, delete}
use dash0_operator.Workloads.Maps.Laws.{lookup-put, lookup-put-other, lookup-delete-other}
use dash0_operator.Workloads.LdPreload.{Issue}
use dash0_operator.Workloads.Images.{image_ref_to_label}
use dash0_operator.Workloads.Labels.{
  instrumented_label, operator_image_label, instrumentation_image_label, instrumented_by_label,
  legacy_init_container_image_label, add_instrumentation_labels_and_annotations,
  read_instrumentation_state, has_been_instrumented_successfully,
  has_been_instrumented_successfully_by_this_version,
}
use dash0_operator.Workloads.PodSpecs.{instrument_containers}
use dash0_operator.Workloads.Modifier.{
  has_been_modified, at_least_one, instrumentation_is_up_to_date, modify_resource, labelled,
}
use dash0_operator.Workloads.Exporter.{otel_export_env_vars_can_be_updated_for_container}
use dash0_operator.Workloads.Settings.{
  otel_propagators_can_be_updated_for_container, otel_injector_conf_will_be_updated,
  otel_logs_exporter_will_be_updated,
}
use dash0_operator.Workloads.PodSpecs.Laws.{modify_pod_spec-containers}
use dash0_operator.Workloads.Modifier.Laws.{modify_resource-modified}
use dash0_operator.Workloads.UpToDate.{IsTrimmedUrl}
use dash0_operator.Workloads.UpToDate.Containers.{
  Settled, capture_test, instrument_containers-Settled,
}

labels-looked_up :
    (labels : List (String × String)) (state operator image actor : String)
    → let changed =
        delete
          (put
            (put
              (put (put labels instrumented_label state) operator_image_label operator)
              instrumentation_image_label
              image)
            instrumented_by_label
            actor)
          legacy_init_container_image_label in
      (lookup changed instrumented_label ≡ some state)
      × (lookup changed operator_image_label ≡ some operator)
      × (lookup changed instrumentation_image_label ≡ some image)
labels-looked_up labels state operator image actor =
    let stated = put labels instrumented_label state in
    let operated = put stated operator_image_label operator in
    let imaged = put operated instrumentation_image_label image in
    let acted = put imaged instrumented_by_label actor in
    (
      lookup-delete-other acted legacy_init_container_image_label instrumented_label refl
          ∙ lookup-put-other imaged instrumented_by_label actor instrumented_label refl
          ∙ lookup-put-other operated instrumentation_image_label image instrumented_label refl
          ∙ lookup-put-other stated operator_image_label operator instrumented_label refl
          ∙ lookup-put labels instrumented_label state,
      lookup-delete-other acted legacy_init_container_image_label operator_image_label refl
          ∙ lookup-put-other imaged instrumented_by_label actor operator_image_label refl
          ∙ lookup-put-other operated instrumentation_image_label image operator_image_label refl
          ∙ lookup-put stated operator_image_label operator,
      lookup-delete-other acted legacy_init_container_image_label instrumentation_image_label refl
          ∙ lookup-put-other imaged instrumented_by_label actor instrumentation_image_label refl
          ∙ lookup-put operated instrumentation_image_label image,
    )

successful-by_labels :
    (hash : String → String) (meta : ObjectMeta) (c : ClusterConfig)
    → lookup meta.labels instrumented_label ≡ some "true"
    → lookup meta.labels operator_image_label ≡ some (image_ref_to_label hash c.operator_image)
    → lookup meta.labels instrumentation_image_label
      ≡ some (image_ref_to_label hash c.init_container_image)
    → has_been_instrumented_successfully_by_this_version hash meta c ≡ true
unfolding has_been_instrumented_successfully_by_this_version has_been_instrumented_successfully
    read_instrumentation_state
successful-by_labels hash meta c h k l = ground (
  arith,
  h,
  k,
  l,
  eq_refl (image_ref_to_label hash c.operator_image),
  eq_refl (image_ref_to_label hash c.init_container_image),
)

labelled-successful :
    (hash : String → String) (meta : ObjectMeta) (c : ClusterConfig) (is_image_volume : Bool)
    (actor : String)
    → has_been_instrumented_successfully_by_this_version hash
        (add_instrumentation_labels_and_annotations hash meta true c is_image_volume actor)
        c
      ≡ true
unfolding add_instrumentation_labels_and_annotations
labelled-successful hash meta c is_image_volume actor =
    let looked_up =
      labels-looked_up meta.labels "true" (image_ref_to_label hash c.operator_image)
        (image_ref_to_label hash c.init_container_image) actor in
    successful-by_labels hash
      (add_instrumentation_labels_and_annotations hash meta true c is_image_volume actor) c
      looked_up.0 looked_up.1 looked_up.2

-- No container fails a test that every settled environment passes.
at_least_one-Settled :
    (c : ClusterConfig) (n : NamespaceConfig) (test : Env → Bool)
    → ((env : Env) → Settled c n env → test env ≡ false)
    → (containers : List Container) → All (λ x. Settled c n x.env) containers
    → at_least_one containers test ≡ false
at_least_one-Settled c n test k [] h = refl
at_least_one-Settled c n test k (x ∷ containers) h =
    rw (k x.env h.0, at_least_one-Settled c n test k containers h.1) refl

Settled-up_to_date :
    (hash : String → String) (meta : ObjectMeta) (c : ClusterConfig) (n : NamespaceConfig)
    (containers : List Container)
    → has_been_instrumented_successfully_by_this_version hash meta c ≡ true
    → All (λ x. Settled c n x.env) containers
    → instrumentation_is_up_to_date hash meta containers c n ≡ true
unfolding instrumentation_is_up_to_date
Settled-up_to_date hash meta c n containers l h =
    rw
      (
        l,
        at_least_one-Settled c n (otel_export_env_vars_can_be_updated_for_container c)
            (λ env s. s.exporter) containers h,
        at_least_one-Settled c n (otel_propagators_can_be_updated_for_container n)
            (λ env s. s.propagating) containers h,
        at_least_one-Settled c n (otel_injector_conf_will_be_updated c) (λ env s. s.conf) containers
            h,
        at_least_one-Settled c n (otel_logs_exporter_will_be_updated n) (λ env s. s.logs) containers
            h,
        at_least_one-Settled c n (capture_test n) (λ env s. s.capture) containers h,
      )
      refl

-- When the modification of a workload reports a change, the workload afterwards is up to date for the
-- check that decides whether it has to be instrumented again, under the same configuration. The URL of
-- the collector must be set and have no space around it.
pub modify_resource-up_to_date :
    (hash : String → String) (m : ResourceModifier) (w w' : Workload) (count : ℕ)
    (issues : List (String × List Issue))
    → IsTrimmedUrl m.cluster.otel_collector_base_url
    → modify_resource hash m w ≡ some (w', has_been_modified count issues)
    → instrumentation_is_up_to_date hash w'.meta w'.spec.containers m.cluster m.namespace ≡ true
modify_resource-up_to_date hash m w w' count issues trimmed h =
    let (_, r, k, _, e) = modify_resource-modified hash m w w' count issues h in
    let (workload_meta, pod_meta, same) =
      modify_pod_spec-containers m w.spec (some w.meta) w.pod_meta r k in
    let settled =
      instrument_containers-Settled m trimmed workload_meta pod_meta w.spec.containers in
    rw (e, same)
      (Settled-up_to_date hash (labelled hash m w.meta) m.cluster m.namespace
        (instrument_containers m workload_meta pod_meta w.spec.containers).0
        (labelled-successful hash w.meta m.cluster m.is_image_volume m.actor) settled)
