-- ===== src/Cluster/Tests.antt =====
-- A cluster with three nodes, all of them new enough for image volumes, and calls of a zone reporter.
use dash0_operator.Base.Text.{cut_prefix, split, trim_space}
use dash0_operator.Base.{String, true, List, [], ◌∷◌, some, All, ◌≡◌, refl, none}
use dash0_operator.Cluster.{
  KubernetesVersionInfo, auto, by_image_volume, detect_minimum_kubelet_version, digits_value,
  extract_leading_digits, get, is_at_least, leading_digits, parse_kubelet_version,
  resolve_instrumentation_delivery, version,
}
use dash0_operator.Cluster.Zones.{Call, report_calls}
use dash0_operator.Cluster.Zones.Alert.{Tells, watch_of, report_calls-Tells}
use dash0_operator.Cluster.Versions.{RunsAtLeast}
use dash0_operator.Cluster.Delivery.{resolve_instrumentation_delivery-nodes}

abbrev api : KubernetesVersionInfo
api = record { version = version 1 37; detected = true }

abbrev nodes : List String
nodes = "v1.37.1" ∷ "v1.36.0-gke.1000" ∷ " v2.0.4-eks-3abbec1" ∷ []

detected :
    resolve_instrumentation_delivery auto api (get (detect_minimum_kubelet_version (some nodes)))
    ≡ by_image_volume
unfolding cut_prefix detect_minimum_kubelet_version digits_value extract_leading_digits get
    is_at_least leading_digits parse_kubelet_version resolve_instrumentation_delivery split
    trim_space
detected = refl

resolve_instrumentation_delivery-nodes_example : All (RunsAtLeast (version 1 36)) nodes
resolve_instrumentation_delivery-nodes_example =
    resolve_instrumentation_delivery-nodes api nodes detected

abbrev calls : List Call
calls =
    record { replica_count = 1; now = 0; node_zones = some ("a" ∷ "b" ∷ "a" ∷ []) }
    ∷ record { replica_count = 1; now = 5; node_zones = some ("a" ∷ []) }
    ∷ record { replica_count = 2; now = 9; node_zones = some ("a" ∷ "b" ∷ []) }
    ∷ []

report_calls-Tells_example :
    Tells (watch_of none) calls (report_calls none calls).1 (watch_of (report_calls none calls).0)
report_calls-Tells_example = report_calls-Tells none calls
