-- ===== src/Workloads/PodSpecs.antt =====
-- internal/workloads/workload_modifier.go: the instrumentation volume, the init container and the
-- annotation on the pod, and the modification of a pod specification.
pub mod Laws
pub mod Reverted
pub mod Annotation
pub mod RoundTrip
use mathlib.Core.Option
use dash0_operator.Base.{
  ℕ, String, Bool, not, Option, none, some, List, [], ◌∷◌, ◌++◌, map, keep, ◌==◌, if◌then◌else◌,
}
use dash0_operator.Base.Text.{trim_space, contains_text, split, join}
use dash0_operator.Workloads.Pod.{
  VolumeSource, Volume, image_volume, empty_dir, Container, PodSecurityContext, PodSpec, Map,
  ObjectMeta, ResourceModifier,
}
use dash0_operator.Workloads.Env.{plain}
use dash0_operator.Workloads.Maps.{lookup, put, delete}
use dash0_operator.Workloads.DeepEqual.{deep_equal}
use dash0_operator.Workloads.LdPreload.{Issue}
use dash0_operator.Workloads.Instrumentation.{
  dash0_volume_name, base_directory, instrument_container, uninstrument_container,
}

abbrev pub init_container_name : String
init_container_name = "dash0-instrumentation"

abbrev pub safe_to_evict : String
safe_to_evict = "cluster-autoscaler.kubernetes.io/safe-to-evict-local-volumes"

abbrev pub default_init_container_user : ℕ
default_init_container_user = 13020

unfoldable pub parse_and_normalize_volume_list : String → List String
parse_and_normalize_volume_list value =
    keep (λ name. not (name == "")) (map trim_space (split b',' value))

-- The annotations after the Dash0 volume has been listed among the local volumes.
listed_volume : Map → Option String → Map
listed_volume annotations none = put annotations safe_to_evict dash0_volume_name
listed_volume annotations (some value) =
    if not (contains_text value dash0_volume_name)
    then put annotations safe_to_evict
        (join "," (parse_and_normalize_volume_list value ++ dash0_volume_name ∷ []))
    else annotations

unfoldable pub add_safe_to_evict_local_volumes_annotation : Map → Map
unfolding listed_volume
add_safe_to_evict_local_volumes_annotation annotations =
    listed_volume annotations (lookup annotations safe_to_evict)

-- slices.Delete of the first volume with this name; none where there is none, which makes
-- slices.Delete panic, since slices.Index returns -1.
unfoldable pub delete_first : List String → String → Option (List String)
delete_first [] name = none
delete_first (x ∷ xs) name =
    let rest = delete_first xs name in if x == name then some xs else Option.map (λ ys. x ∷ ys) rest

store_volumes : Map → List String → Map
store_volumes annotations [] = delete annotations safe_to_evict
store_volumes annotations (v ∷ volumes) = put annotations safe_to_evict (join "," (v ∷ volumes))

unlisted_volume : Map → Option String → Option Map
unlisted_volume annotations none = some annotations
unlisted_volume annotations (some value) =
    if value == dash0_volume_name
    then some (delete annotations safe_to_evict)
    else if not (contains_text value dash0_volume_name)
    then some annotations
    else Option.map (store_volumes annotations)
        (delete_first (parse_and_normalize_volume_list value) dash0_volume_name)

-- none: the call panics
unfoldable pub remove_safe_to_evict_local_volumes_annotation : Map → Option Map
unfolding store_volumes unlisted_volume
remove_safe_to_evict_local_volumes_annotation annotations =
    unlisted_volume annotations (lookup annotations safe_to_evict)

unfoldable pub remove_instrumentation_volume : List Volume → List Volume
remove_instrumentation_volume volumes = keep (λ v. not (v.name == dash0_volume_name)) volumes

unfoldable pub remove_init_container : List Container → List Container
remove_init_container containers = keep (λ c. not (c.name == init_container_name)) containers

module _ (m : ResourceModifier) where
  unfoldable pub dash0_volume_source : VolumeSource
  dash0_volume_source =
      if m.is_image_volume
      then image_volume m.cluster.init_container_image m.cluster.init_container_image_pull_policy
      else empty_dir (record { number = 500; scale = 6; format = "DecimalSI"; text = "" })

  abbrev pub dash0_volume : Volume
  dash0_volume = record { name = dash0_volume_name; volume_source = dash0_volume_source }

  unfoldable pub add_instrumentation_volume : List Volume → List Volume
  add_instrumentation_volume [] = dash0_volume ∷ []
  add_instrumentation_volume (v ∷ volumes) =
      let rest = add_instrumentation_volume volumes in
      if v.name == dash0_volume_name then dash0_volume ∷ volumes else v ∷ rest

  fs_group_or : Option ℕ → Option ℕ
  fs_group_or none = some default_init_container_user
  fs_group_or (some group) = some group

  -- The user and the group of the init container; the defaults are the same number.
  init_container_user : Option PodSecurityContext → Option ℕ
  unfolding fs_group_or
  init_container_user none =
      if m.cluster.is_open_shift then none else some default_init_container_user
  init_container_user (some s) = if m.cluster.is_open_shift then none else fs_group_or s.fs_group

  abbrev run_as_non_root_of : Option PodSecurityContext → Option String
  run_as_non_root_of none = none
  run_as_non_root_of (some s) = s.run_as_non_root

  unfoldable pub create_init_container : PodSpec → Container
  unfolding init_container_user
  create_init_container spec = record {
    name = init_container_name;
    image = m.cluster.init_container_image;
    image_pull_policy = m.cluster.init_container_image_pull_policy;
    env =
        plain "DASH0_INSTRUMENTATION_FOLDER_DESTINATION" base_directory
        ∷ (if m.cluster.instrumentation_debug
            then plain "DASH0_COPY_INSTRUMENTATION_DEBUG" "true" ∷ []
            else []);
    volume_mounts =
        record { name = dash0_volume_name; mount_path = base_directory; sub_path = ""; rest = "" }
        ∷ [];
    resources = m.cluster.init_container_resources;
    security_context = some (record {
      run_as_non_root = run_as_non_root_of spec.security_context;
      run_as_user = init_container_user spec.security_context;
      run_as_group = init_container_user spec.security_context;
      rest =
          "allowPrivilegeEscalation=false privileged=false readOnlyRootFilesystem=true drop=ALL seccompProfile=RuntimeDefault";
    });
    rest = "";
  }

  put_init_container : Container → List Container → List Container
  put_init_container init [] = init ∷ []
  put_init_container init (c ∷ containers) =
      let rest = put_init_container init containers in
      if c.name == init_container_name then init ∷ containers else c ∷ rest

  unfoldable pub add_init_container : PodSpec → List Container
  unfolding put_init_container
  add_init_container spec = put_init_container (create_init_container spec) spec.init_containers

  -- instrumentationIssuesPerContainer, as a list of its entries
  with_issues : String → List Issue → List (String × List Issue) → List (String × List Issue)
  with_issues name [] more = more
  with_issues name (i ∷ issues) more = (name, i ∷ issues) ∷ more

  -- The loop over the containers, with the issues of those that have any.
  unfoldable pub instrument_containers :
      ObjectMeta → ObjectMeta → List Container → List Container × List (String × List Issue)
  unfolding with_issues
  instrument_containers workload_meta pod_meta [] = ([], [])
  instrument_containers workload_meta pod_meta (c ∷ containers) =
      let (instrumented, issues) = instrument_container m c workload_meta pod_meta in
      let (rest, more) = instrument_containers workload_meta pod_meta containers in
      (instrumented ∷ rest, with_issues c.name issues more)

  -- The volumes, the annotations of the pod and the init containers; none: a call panics
  prepared_pod_spec : PodSpec → Map → Option (PodSpec × Map)
  prepared_pod_spec spec annotations =
      let mounted = record spec { volumes = add_instrumentation_volume spec.volumes } in
      if not m.is_image_volume
      then some (
        record mounted { init_containers = add_init_container mounted },
        add_safe_to_evict_local_volumes_annotation annotations,
      )
      else Option.map
          (λ rest. (
            record mounted { init_containers = remove_init_container mounted.init_containers },
            rest,
          ))
          (remove_safe_to_evict_local_volumes_annotation annotations)

  instrumented_pod_spec : PodSpec → ObjectMeta → ObjectMeta → PodSpec × List (String × List Issue)
  instrumented_pod_spec spec workload_meta pod_meta =
      let (instrumented, issues) = instrument_containers workload_meta pod_meta spec.containers in
      (record spec { containers = instrumented }, issues)

-- modifyPodSpecResult
pub record ModifyPodSpecResult : Type 0 where
  pub spec : PodSpec
  pub pod_meta : ObjectMeta
  pub has_been_modified : Bool
  pub issues : List (String × List Issue)

-- The metadata of the workload; none where it is the object that holds those of the pod.
abbrev pub or_pod_meta : Option ObjectMeta → ObjectMeta → ObjectMeta
or_pod_meta none pod_meta = pod_meta
or_pod_meta (some meta) pod_meta = meta

module _ (m : ResourceModifier) where
  unfoldable pub modify_pod_spec :
      PodSpec → Option ObjectMeta → ObjectMeta → Option ModifyPodSpecResult
  unfolding prepared_pod_spec instrumented_pod_spec
  modify_pod_spec spec workload_meta pod_meta =
      Option.map
        (λ prepared.
          let noted = record pod_meta { annotations = prepared.1 } in
          let done = instrumented_pod_spec m prepared.0 (or_pod_meta workload_meta noted) noted in
          record {
            spec = done.0;
            pod_meta = noted;
            has_been_modified = not (deep_equal spec done.0);
            issues = done.1;
          })
        (prepared_pod_spec m spec pod_meta.annotations)

  unfoldable pub revert_pod_spec : PodSpec → ObjectMeta → Option ModifyPodSpecResult
  revert_pod_spec spec pod_meta =
      Option.map
        (λ annotations.
          let reverted = record spec {
            volumes = remove_instrumentation_volume spec.volumes;
            init_containers = remove_init_container spec.init_containers;
            containers = map (uninstrument_container m) spec.containers;
          } in
          record {
            spec = reverted;
            pod_meta = record pod_meta { annotations = annotations };
            has_been_modified = not (deep_equal spec reverted);
            issues = [];
          })
        (remove_safe_to_evict_local_volumes_annotation pod_meta.annotations)
