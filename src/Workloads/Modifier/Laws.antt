-- ===== src/Workloads/Modifier/Laws.antt =====
-- internal/workloads/workload_modifier.go: the branches of modifyResource.
use dash0_operator.Base.{ℕ, String, true, none, some, List, ◌≡◌, arith, Option-cases, inl, inr}
use dash0_operator.Workloads.Pod.{Workload, ResourceModifier}
use dash0_operator.Workloads.LdPreload.{Issue}
use dash0_operator.Workloads.PodSpecs.{ModifyPodSpecResult, modify_pod_spec, revert_pod_spec}
use dash0_operator.Workloads.PodSpecs.Laws.{modify_pod_spec-unmodified}
use dash0_operator.Workloads.Labels.{unknown, read_instrumentation_state}
use dash0_operator.Workloads.Labels.Merged.{removed-unknown}
use dash0_operator.Workloads.Eligibility.{Reason, check_eligible_for_modification}
use dash0_operator.Workloads.Modifier.{
  has_been_modified, not_modified, modify_resource, modified_workload, reverted_workload,
  revert_resource, modify_if_eligible, labelled,
}

module _ (hash : String → String) (m : ResourceModifier) where
  pub modify_resource-modified :
      (w w' : Workload) (count : ℕ) (issues : List (String × List Issue))
      → modify_resource hash m w ≡ some (w', has_been_modified count issues)
      → (check_eligible_for_modification m w.spec ≡ none)
        × (r : ModifyPodSpecResult) × (modify_pod_spec m w.spec (some w.meta) w.pod_meta ≡ some r)
        × (r.has_been_modified ≡ true)
        × (w' ≡ record w {
          spec = r.spec;
          meta = labelled hash m w.meta;
          pod_meta = labelled hash m r.pod_meta;
        })
  unfolding modify_resource modified_workload modify_if_eligible
  modify_resource-modified w w' count issues h =
      elim (Option-cases (check_eligible_for_modification m w.spec)) [
        | inr (reason, e) ↦ absurd (ground (arith, e, h))
        | inl e ↦ elim (Option-cases (modify_pod_spec m w.spec (some w.meta) w.pod_meta)) [
          | inl k ↦ absurd (ground (arith, e, k, h))
          | inr (r, k) ↦ (e, r, k, ground (arith, e, k, h), ground (arith, e, k, h))
        ]
      ]

  -- When the modification of a workload reports that nothing was modified, for whatever reason, neither
  -- the pod specification nor the metadata of the workload has changed.
  pub modify_resource-not_modified :
      (w w' : Workload) (reason : Reason)
      → modify_resource hash m w ≡ some (w', not_modified reason)
      → (w'.spec ≡ w.spec) × (w'.meta ≡ w.meta)
  unfolding modify_resource modified_workload modify_if_eligible
  modify_resource-not_modified w w' reason h =
      elim (Option-cases (check_eligible_for_modification m w.spec)) [
        | inr (_, e) ↦ ground (arith, e, h)
        | inl e ↦ elim (Option-cases (modify_pod_spec m w.spec (some w.meta) w.pod_meta)) [
          | inl k ↦ ground (arith, e, k, h)
          | inr (r, k) ↦
              ground
                (arith, e, k, h, modify_pod_spec-unmodified m w.spec (some w.meta) w.pod_meta r k)
        ]
      ]

-- When the removal of the instrumentation reports a change, neither the workload nor its pods are
-- labelled as instrumented or as failed any more.
pub revert_resource-unlabelled :
    (m : ResourceModifier) (w w' : Workload) (count : ℕ) (issues : List (String × List Issue))
    → revert_resource m w ≡ some (w', has_been_modified count issues)
    → (read_instrumentation_state w'.meta ≡ unknown)
      × (read_instrumentation_state w'.pod_meta ≡ unknown)
unfolding revert_resource reverted_workload
revert_resource-unlabelled m w w' count issues h =
    elim (Option-cases (revert_pod_spec m w.spec w.pod_meta)) [
      | inl e ↦ ground (arith, e, h, removed-unknown w.meta, removed-unknown w.pod_meta)
      | inr (r, e) ↦ ground (
        arith,
        e,
        h,
        removed-unknown w.meta,
        removed-unknown w.pod_meta,
        removed-unknown r.pod_meta,
      )
    ]
