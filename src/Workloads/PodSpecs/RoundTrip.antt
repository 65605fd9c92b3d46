-- ===== src/Workloads/PodSpecs/RoundTrip.antt =====
-- internal/workloads/workload_modifier.go: modifyPodSpec followed by revertPodSpec.
use dash0_operator.Base.{
  not, Option, none, some, List, [], ◌∷◌, map, ◌≡◌, refl, ◌∙◌, Bool-cases, inl, inr,
}
use dash0_operator.Workloads.Pod.{Container, PodSpec, ObjectMeta, Map, ResourceModifier}
use dash0_operator.Workloads.DeepEqual.{deep_equal}
use dash0_operator.Workloads.Maps.{lookup}
use dash0_operator.Workloads.Env.Outside.{outside}
use dash0_operator.Workloads.Instrumentation.{
  remove_mount, instrument_container, uninstrument_container,
}
use dash0_operator.Workloads.Instrumentation.Kept.{
  operator_variables, instrument_container-outside, uninstrument_container-outside,
}
use dash0_operator.Workloads.PodSpecs.{
  ModifyPodSpecResult, safe_to_evict, add_instrumentation_volume, remove_instrumentation_volume,
  add_init_container, remove_init_container, instrument_containers, or_pod_meta, prepared_pod_spec,
  instrumented_pod_spec, modify_pod_spec, revert_pod_spec,
  add_safe_to_evict_local_volumes_annotation, remove_safe_to_evict_local_volumes_annotation,
}
use dash0_operator.Workloads.PodSpecs.Reverted.{
  remove_init_container_idem, remove-add_volume, remove-add_mount, remove-add_init_container,
}
use dash0_operator.Workloads.PodSpecs.Annotation.{
  remove-add_safe_to_evict, remove_safe_to_evict-absent,
}

-- A container without the variables of the operator, and one without its mount as well.
abbrev pub own_env : Container → Container
own_env c = record c { env = outside operator_variables c.env }

abbrev pub own_part : Container → Container
own_part c = record (own_env c) { volume_mounts = remove_mount c.volume_mounts }

module _ (m : ResourceModifier) where
  uninstrument-instrument :
      (c : Container) (workload_meta pod_meta : ObjectMeta)
      → own_env (uninstrument_container m (instrument_container m c workload_meta pod_meta).0)
        ≡ own_part c
  unfolding uninstrument_container instrument_container
  uninstrument-instrument c workload_meta pod_meta =
      let instrumented = (instrument_container m c workload_meta pod_meta).0 in
      let variables : outside operator_variables (uninstrument_container m instrumented).env
          ≡ outside operator_variables c.env =
        uninstrument_container-outside m instrumented
        ∙ instrument_container-outside m c workload_meta pod_meta in
      λ i. record c { env = variables i; volume_mounts = remove-add_mount m c.volume_mounts i }

  reverted-containers :
      (workload_meta pod_meta : ObjectMeta) (containers : List Container)
      → map own_env (
          map
            (uninstrument_container m)
            (instrument_containers m workload_meta pod_meta containers).0)
        ≡ map own_part containers
  unfolding instrument_containers
  reverted-containers workload_meta pod_meta [] = refl
  reverted-containers workload_meta pod_meta (c ∷ containers) = cc (
    uninstrument-instrument c workload_meta pod_meta,
    reverted-containers workload_meta pod_meta containers,
  )

  prepared-removed :
      (spec : PodSpec) (annotations : Map)
      → lookup annotations safe_to_evict ≡ none
      → (p : PodSpec × Map) × (prepared_pod_spec m spec annotations ≡ some p)
        × (remove_safe_to_evict_local_volumes_annotation p.1 ≡ some annotations)
        × (record p.0 {
          volumes = remove_instrumentation_volume p.0.volumes;
          init_containers = remove_init_container p.0.init_containers;
        }
            ≡ record spec {
              volumes = remove_instrumentation_volume spec.volumes;
              init_containers = remove_init_container spec.init_containers;
            })
  unfolding prepared_pod_spec
  prepared-removed spec annotations h =
      let mounted = record spec { volumes = add_instrumentation_volume m spec.volumes } in
      let volumes_back = remove-add_volume m spec.volumes in
      elim (Bool-cases m.is_image_volume) [
        | inl e ↦
            let absent = remove_safe_to_evict-absent annotations h in
            (
              (
                record mounted { init_containers = remove_init_container mounted.init_containers },
                annotations,
              ),
              rw (e, absent) refl,
              absent,
              λ i. record spec {
                volumes = volumes_back i;
                init_containers = remove_init_container_idem spec.init_containers i;
              },
            )
        | inr e ↦ (
          (
            record mounted { init_containers = add_init_container m mounted },
            add_safe_to_evict_local_volumes_annotation annotations,
          ),
          rw e refl,
          remove-add_safe_to_evict annotations h,
          λ i. record spec {
            volumes = volumes_back i;
            init_containers = remove-add_init_container m mounted i;
          },
        )
      ]

  -- Modifying a pod specification and reverting it again both succeed where the annotation on local
  -- volumes was missing at first. Then the annotations of the pod are as before; the volumes, the init
  -- containers and the mounts are as before, less those that carried the name of the instrumentation
  -- volume; the containers keep their variables outside the operator's names; all else is as before.
  pub modify-revert_pod_spec :
      (spec : PodSpec) (workload_meta : Option ObjectMeta) (pod_meta : ObjectMeta)
      → lookup pod_meta.annotations safe_to_evict ≡ none
      → (r r' : ModifyPodSpecResult) × (modify_pod_spec m spec workload_meta pod_meta ≡ some r)
        × (revert_pod_spec m r.spec r.pod_meta ≡ some r')
        × (r'.pod_meta ≡ pod_meta)
        × (map own_env r'.spec.containers ≡ map own_part spec.containers)
        × (r'.spec ≡ record spec {
          volumes = remove_instrumentation_volume spec.volumes;
          init_containers = remove_init_container spec.init_containers;
          containers = r'.spec.containers;
        })
  unfolding modify_pod_spec revert_pod_spec instrumented_pod_spec
  modify-revert_pod_spec spec workload_meta pod_meta h =
      let (p, e, back, same) = prepared-removed spec pod_meta.annotations h in
      let noted = record pod_meta { annotations = p.1 } in
      let meta = or_pod_meta workload_meta noted in
      let done = instrumented_pod_spec m p.0 meta noted in
      let reverted = record done.0 {
        volumes = remove_instrumentation_volume done.0.volumes;
        init_containers = remove_init_container done.0.init_containers;
        containers = map (uninstrument_container m) done.0.containers;
      } in
      let own : map own_env reverted.containers ≡ map own_part p.0.containers =
        reverted-containers meta noted p.0.containers in
      (
        record {
          spec = done.0;
          pod_meta = noted;
          has_been_modified = not (deep_equal spec done.0);
          issues = done.1;
        },
        record {
          spec = reverted;
          pod_meta = pod_meta;
          has_been_modified = not (deep_equal done.0 reverted);
          issues = [];
        },
        rw e refl,
        rw back refl,
        refl,
        own ∙ (λ i. map own_part (same i).containers),
        λ i. record (same i) { containers = reverted.containers },
      )
