-- ===== src/Cluster/Delivery.antt =====
-- internal/util/cluster/instrumentation_delivery.go: when instrumentation comes by an image volume.
use dash0_operator.Base.{
  String, true, some, List, [], ◌∷◌, All, ◌≡◌, ◌↔◌, inl, inr, arith, Option-cases,
}
use dash0_operator.Cluster.{
  KubernetesVersion, KubernetesVersionInfo, version, is_at_least, detect_minimum_kubelet_version,
  get, InstrumentationDelivery, image_volume, auto, init_container, other_delivery, by_image_volume,
  resolve_instrumentation_delivery,
}
use dash0_operator.Cluster.Versions.{
  is_at_least_trans, RunsAtLeast, detect_minimum_kubelet_version-minimum,
}

-- The version is known and not older.
abbrev pub IsKnownAtLeast : KubernetesVersion → KubernetesVersionInfo → Type 0
IsKnownAtLeast least v = (v.detected ≡ true) × (is_at_least v.version least ≡ true)

-- The version is not older, if it is known.
abbrev pub IsNotKnownOlder : KubernetesVersion → KubernetesVersionInfo → Type 0
IsNotKnownOlder least v = (v.detected ≡ true) → is_at_least v.version least ≡ true

-- When an image volume is used.
abbrev pub UsesImageVolume :
    InstrumentationDelivery → KubernetesVersionInfo → KubernetesVersionInfo → Type 0
UsesImageVolume image_volume api kubelet =
    IsNotKnownOlder (version 1 31) api × IsNotKnownOlder (version 1 31) kubelet
UsesImageVolume auto api kubelet =
    IsKnownAtLeast (version 1 36) api × IsKnownAtLeast (version 1 36) kubelet
UsesImageVolume init_container api kubelet = ⊥
UsesImageVolume (other_delivery s) api kubelet = ⊥

-- The instrumentation is delivered by an image volume exactly when that is asked for and neither the
-- API server nor a kubelet is known to be older than 1.31, or when the choice is left to the operator
-- and both are known to be at least 1.36.
pub resolve_instrumentation_delivery_iff :
    (delivery : InstrumentationDelivery) (api kubelet : KubernetesVersionInfo)
    → (resolve_instrumentation_delivery delivery api kubelet ≡ by_image_volume)
      ↔ UsesImageVolume delivery api kubelet
unfolding resolve_instrumentation_delivery
resolve_instrumentation_delivery_iff image_volume api kubelet = ground arith
resolve_instrumentation_delivery_iff auto api kubelet = ground arith
resolve_instrumentation_delivery_iff init_container api kubelet = (λ h. cc h, λ h. absurd h)
resolve_instrumentation_delivery_iff (other_delivery s) api kubelet = (λ h. cc h, λ h. absurd h)

RunsAtLeast-weaker :
    (v least : KubernetesVersion) (nodes : List String)
    → is_at_least v least ≡ true
    → All (RunsAtLeast v) nodes
    → All (RunsAtLeast least) nodes
RunsAtLeast-weaker v least [] h a = tt
RunsAtLeast-weaker v least (node ∷ nodes) h ((w, p, k), rest) =
    ((w, p, is_at_least_trans w.version v least k h), RunsAtLeast-weaker v least nodes h rest)

-- When the operator chooses an image volume by itself, by the minimum kubelet version it has detected
-- over the nodes, then every one of these nodes runs a kubelet of version 1.36 or later.
pub resolve_instrumentation_delivery-nodes :
    (api : KubernetesVersionInfo) (nodes : List String)
    → resolve_instrumentation_delivery auto api (get (detect_minimum_kubelet_version (some nodes)))
      ≡ by_image_volume
    → All (RunsAtLeast (version 1 36)) nodes
unfolding get
resolve_instrumentation_delivery-nodes api nodes h =
    let known =
      (resolve_instrumentation_delivery_iff auto api
          (get (detect_minimum_kubelet_version (some nodes)))).0
        h in
    elim (Option-cases (detect_minimum_kubelet_version (some nodes))) [
      | inl e ↦ absurd (ground (arith, e, known.1.0))
      | inr (v, e) ↦
          let least : is_at_least v.version (version 1 36) ≡ true = ground (arith, e, known.1.1) in
          RunsAtLeast-weaker v.version (version 1 36) nodes least
            (detect_minimum_kubelet_version-minimum nodes v e).0
    ]
