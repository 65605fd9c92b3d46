-- ===== src/Workloads/PodSpecs/Reverted.antt =====
-- internal/workloads/workload_modifier.go: reverting the changes of a pod specification brings back what
-- was there, and the branches in which the annotation is removed.
use dash0_operator.Base.{List, [], ◌∷◌, ◌≡◌, refl, arith, eq_iff}
use dash0_operator.Workloads.Pod.{VolumeMount, Volume, Container, PodSpec, ResourceModifier}
use dash0_operator.Workloads.Instrumentation.{dash0_mount, add_mount, remove_mount}
use dash0_operator.Workloads.PodSpecs.{
  init_container_name, add_instrumentation_volume, remove_instrumentation_volume,
  add_init_container, put_init_container, create_init_container, remove_init_container,
}

module _ (m : ResourceModifier) where
  -- Removing the instrumentation volume after adding it gives the volumes without it.
  pub remove-add_volume :
      (volumes : List Volume)
      → remove_instrumentation_volume (add_instrumentation_volume m volumes)
        ≡ remove_instrumentation_volume volumes
  unfolding remove_instrumentation_volume add_instrumentation_volume
  remove-add_volume [] = refl
  remove-add_volume (v ∷ volumes) = ground (arith, remove-add_volume volumes)

  pub remove-add_mount :
      (mounts : List VolumeMount) → remove_mount (add_mount m mounts) ≡ remove_mount mounts
  unfolding remove_mount add_mount dash0_mount
  remove-add_mount [] = refl
  remove-add_mount (v ∷ mounts) = ground (arith, remove-add_mount mounts)

  remove-put_init_container :
      (init : Container)
      → init.name ≡ init_container_name
      → (containers : List Container)
      → remove_init_container (put_init_container m init containers)
        ≡ remove_init_container containers
  unfolding remove_init_container put_init_container
  remove-put_init_container init h [] = ground (arith, h, eq_iff init.name init_container_name)
  remove-put_init_container init h (c ∷ containers) =
      ground (
        arith,
        h,
        eq_iff init.name init_container_name,
        remove-put_init_container init h containers,
      )

  pub remove-add_init_container :
      (spec : PodSpec)
      → remove_init_container (add_init_container m spec)
        ≡ remove_init_container spec.init_containers
  unfolding add_init_container create_init_container
  remove-add_init_container spec =
      remove-put_init_container (create_init_container m spec) refl spec.init_containers

pub remove_init_container_idem :
    (containers : List Container)
    → remove_init_container (remove_init_container containers) ≡ remove_init_container containers
unfolding remove_init_container
remove_init_container_idem [] = refl
remove_init_container_idem (c ∷ containers) = ground (arith, remove_init_container_idem containers)
