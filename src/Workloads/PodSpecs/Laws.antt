-- ===== src/Workloads/PodSpecs/Laws.antt =====
-- internal/workloads/workload_modifier.go: what modifyPodSpec returns.
use dash0_operator.Base.{true, false, Option, some, ◌≡◌, sym, arith, Option-cases, inl, inr}
use dash0_operator.Workloads.Pod.{PodSpec, ObjectMeta, Map, ResourceModifier}
use dash0_operator.Workloads.DeepEqual.{deep_equal, deep_equal_iff}
use dash0_operator.Workloads.PodSpecs.{
  ModifyPodSpecResult, prepared_pod_spec, instrumented_pod_spec, or_pod_meta, instrument_containers,
  modify_pod_spec,
}

module _ (m : ResourceModifier) where
  prepared_pod_spec-containers :
      (spec : PodSpec) (annotations : Map) (p : PodSpec × Map)
      → prepared_pod_spec m spec annotations ≡ some p
      → p.0.containers ≡ spec.containers
  unfolding prepared_pod_spec
  prepared_pod_spec-containers spec annotations p h = ground arith

  -- The containers of the result are the instrumented ones.
  pub modify_pod_spec-containers :
      (spec : PodSpec) (workload_meta : Option ObjectMeta) (pod_meta : ObjectMeta)
      (r : ModifyPodSpecResult)
      → modify_pod_spec m spec workload_meta pod_meta ≡ some r
      → (w p : ObjectMeta) × (r.spec.containers ≡ (instrument_containers m w p spec.containers).0)
  unfolding modify_pod_spec instrumented_pod_spec
  modify_pod_spec-containers spec workload_meta pod_meta r h =
      elim (Option-cases (prepared_pod_spec m spec pod_meta.annotations)) [
        | inl e ↦ absurd (ground (arith, e, h))
        | inr (p, e) ↦
            let noted = record pod_meta { annotations = p.1 } in
            (or_pod_meta workload_meta noted, noted, ground (arith, e, h))
      ]

  pub modify_pod_spec-unmodified :
      (spec : PodSpec) (workload_meta : Option ObjectMeta) (pod_meta : ObjectMeta)
      (r : ModifyPodSpecResult)
      → modify_pod_spec m spec workload_meta pod_meta ≡ some r
      → r.has_been_modified ≡ false
      → r.spec ≡ spec
  unfolding modify_pod_spec
  modify_pod_spec-unmodified spec workload_meta pod_meta r h k =
      let same : deep_equal spec r.spec ≡ true =
        elim (Option-cases (prepared_pod_spec m spec pod_meta.annotations)) [
          | inl e ↦ absurd (ground (arith, e, h))
          | inr (p, e) ↦ ground (arith, e, h, k)
        ] in
      sym ((deep_equal_iff spec r.spec).0 same)
