-- ===== src/Cluster.antt =====
-- internal/util/cluster: the versions of Kubernetes in a cluster, and what the operator decides by them.
-- Log lines and the goroutine of the detection are left out; the nodes that the API server lists are an
-- input.
pub mod Versions
pub mod Delivery
pub mod Zones
mod Tests
use Prim.Native.Char.{Char, code}
use Prim.Native.String
use dash0_operator.Base.{
  ℕ, zero, suc, ◌+◌, ◌-◌, ◌*◌, String, Bool, true, false, not, ◌&&◌, Option, none, some, List, [],
  ◌∷◌, ◌==◌, if◌then◌else◌, leb, ltb, nat_eq,
}
use dash0_operator.Base.Text.{trim_space, split, is_digit, cut_prefix}

pub record KubernetesVersion : Type 0 where
  pub major : ℕ
  pub minor : ℕ

abbrev pub version : ℕ → ℕ → KubernetesVersion
version major minor = record { major = major; minor = minor }

-- The texts of the version as they were read; they only occur in messages.
pub record KubernetesVersionInfo : Type 0 where
  pub version : KubernetesVersion
  pub detected : Bool

abbrev pub undetected : KubernetesVersionInfo
undetected = record { version = version 0 0; detected = false }

abbrev pub image_volumes_auto_minimum_version : KubernetesVersion
image_volumes_auto_minimum_version = version 1 36

abbrev pub image_volumes_hard_minimum_version : KubernetesVersion
image_volumes_hard_minimum_version = version 1 31

abbrev pub traffic_distribution_minimum_version : KubernetesVersion
traffic_distribution_minimum_version = version 1 31

unfoldable pub is_at_least : KubernetesVersion → KubernetesVersion → Bool
is_at_least v least =
    if not (nat_eq v.major least.major) then ltb least.major v.major else leb least.minor v.minor

-- The longest prefix of digits; leadingDigitsRegex
unfoldable pub leading_digits : String → String
leading_digits String.[] = ""
leading_digits (String.◌∷◌ c s) =
    let rest = leading_digits s in if is_digit c then String.◌∷◌ c rest else ""

-- The number that digits write, after those before them.
unfoldable pub digits_value : ℕ → String → ℕ
digits_value n String.[] = n
digits_value n (String.◌∷◌ c s) = digits_value (n * 10 + (code c - 48)) s

-- strconv.Atoi on digits: the largest int has 63 bits
abbrev atoi : String → Option ℕ
atoi s = if leb (digits_value 0 s) 9223372036854775807 then some (digits_value 0 s) else none

unfoldable pub extract_leading_digits : String → Option ℕ
extract_leading_digits s = if leading_digits s == "" then none else atoi (leading_digits s)

detected_version : Option ℕ → Option ℕ → Option KubernetesVersionInfo
detected_version (some major) (some minor) =
    some (record { version = version major minor; detected = true })
detected_version _ _ = none

abbrev trim_prefix : String → Option String → String
trim_prefix s none = s
trim_prefix s (some rest) = rest

version_of_segments : List String → Option KubernetesVersionInfo
version_of_segments (major ∷ minor ∷ more) =
    detected_version (extract_leading_digits major) (extract_leading_digits minor)
version_of_segments _ = none

-- none: an error
unfoldable pub parse_kubelet_version : String → Option KubernetesVersionInfo
unfolding detected_version version_of_segments
parse_kubelet_version kubelet_version =
    let trimmed = trim_space kubelet_version in
    version_of_segments (split b'.' (trim_prefix trimmed (cut_prefix "v" trimmed)))

or_undetected : Option KubernetesVersionInfo → KubernetesVersionInfo
or_undetected none = undetected
or_undetected (some v) = v

unfoldable pub parse_kubernetes_api_server_version : String → String → KubernetesVersionInfo
unfolding or_undetected detected_version
parse_kubernetes_api_server_version major minor =
    or_undetected (detected_version (extract_leading_digits major) (extract_leading_digits minor))

lower_version : Option KubernetesVersionInfo → KubernetesVersionInfo → KubernetesVersionInfo
lower_version none v = v
lower_version (some least) v = if not (is_at_least v.version least.version) then v else least

-- The loop over the nodes, with the lowest version so far.
detect_from : Option KubernetesVersionInfo → List String → Option KubernetesVersionInfo
unfolding lower_version
detect_from least [] = least
detect_from least (node ∷ nodes) = elim (parse_kubelet_version node) [
  | none ↦ none
  | some v ↦ detect_from (some (lower_version least v)) nodes
]

-- The kubelet versions of all nodes, or none where the API server has not listed them; none: an error
unfoldable pub detect_minimum_kubelet_version : Option (List String) → Option KubernetesVersionInfo
unfolding detect_from
detect_minimum_kubelet_version none = none
detect_minimum_kubelet_version (some nodes) = detect_from none nodes

-- Get, of the version that the detection has stored
unfoldable pub get : Option KubernetesVersionInfo → KubernetesVersionInfo
get none = undetected
get (some v) = v

-- spec.instrumentWorkloads.instrumentationDelivery
pub data InstrumentationDelivery : Type 0 where
  image_volume auto init_container : InstrumentationDelivery
  other_delivery : String → InstrumentationDelivery

pub data ResolvedInstrumentationDelivery : Type 0 where
  by_image_volume by_init_container : ResolvedInstrumentationDelivery

abbrev is_known_older : KubernetesVersionInfo → KubernetesVersion → Bool
is_known_older v least = v.detected && not (is_at_least v.version least)

unfoldable pub resolve_instrumentation_delivery :
    InstrumentationDelivery
    → KubernetesVersionInfo
    → KubernetesVersionInfo
    → ResolvedInstrumentationDelivery
resolve_instrumentation_delivery image_volume api kubelet =
    if is_known_older api image_volumes_hard_minimum_version
    then by_init_container
    else if is_known_older kubelet image_volumes_hard_minimum_version
    then by_init_container
    else by_image_volume
resolve_instrumentation_delivery auto api kubelet =
    if not api.detected
    then by_init_container
    else if not kubelet.detected
    then by_init_container
    else if is_at_least api.version image_volumes_auto_minimum_version
        && is_at_least kubelet.version image_volumes_auto_minimum_version
    then by_image_volume
    else by_init_container
resolve_instrumentation_delivery init_container api kubelet = by_init_container
resolve_instrumentation_delivery (other_delivery s) api kubelet = by_init_container

unfoldable pub resolve_service_traffic_distribution : KubernetesVersionInfo → Option String
resolve_service_traffic_distribution v =
    if not v.detected
    then none
    else if is_at_least v.version traffic_distribution_minimum_version
    then some "PreferClose"
    else none
