-- ===== src/Cluster/Versions.antt =====
-- internal/util/cluster/kubernetes_version.go: the order of the versions and their minimum.
use dash0_operator.Base.{
  String, true, false, Option, none, some, List, [], ◌∷◌, All, ◌≡◌, refl, sym, ◌∙◌, ◌⊎◌, inl, inr,
  arith, Bool-cases, Option-cases,
}
use mathlib.Core.Option.{some-injective}
use dash0_operator.Base.Members.{In}
use dash0_operator.Cluster.{
  KubernetesVersion, KubernetesVersionInfo, is_at_least, parse_kubelet_version, lower_version,
  detect_from, detect_minimum_kubelet_version,
}

pub is_at_least_refl : (v : KubernetesVersion) → is_at_least v v ≡ true
unfolding is_at_least
is_at_least_refl v = ground arith

pub is_at_least_trans :
    (u v w : KubernetesVersion)
    → is_at_least u v ≡ true
    → is_at_least v w ≡ true
    → is_at_least u w ≡ true
unfolding is_at_least
is_at_least_trans u v w h k = ground arith

is_at_least_total : (v w : KubernetesVersion) → is_at_least v w ≡ false → is_at_least w v ≡ true
unfolding is_at_least
is_at_least_total v w h = ground arith

-- The node runs a kubelet of this version or a later one.
abbrev pub RunsAtLeast : KubernetesVersion → String → Type 0
RunsAtLeast least node =
    (w : KubernetesVersionInfo) × (parse_kubelet_version node ≡ some w)
    × (is_at_least w.version least ≡ true)

-- Where the minimum comes from: the versions before, or a node.
abbrev IsFrom : Option KubernetesVersionInfo → List String → KubernetesVersionInfo → Type 0
IsFrom least nodes v =
    (least ≡ some v) ⊎ ((node : String) × In node nodes × (parse_kubelet_version node ≡ some v))

lower_version-below :
    (least v : KubernetesVersionInfo)
    → (is_at_least v.version (lower_version (some least) v).version ≡ true)
      × (is_at_least least.version (lower_version (some least) v).version ≡ true)
unfolding lower_version
lower_version-below least v = elim (Bool-cases (is_at_least v.version least.version)) [
  | inl e ↦ rw e (e, is_at_least_refl least.version)
  | inr e ↦ rw e (is_at_least_refl v.version, is_at_least_total v.version least.version e)
]

lower_version-from :
    (least : Option KubernetesVersionInfo) (w v : KubernetesVersionInfo)
    → lower_version least w ≡ v
    → (least ≡ some v) ⊎ (w ≡ v)
unfolding lower_version
lower_version-from none w v h = inr h
lower_version-from (some l) w v h = elim (Bool-cases (is_at_least w.version l.version)) [
  | inl e ↦ inl (ground (arith, e, h))
  | inr e ↦ inr (ground (arith, e, h))
]

lower_version-above :
    (least : Option KubernetesVersionInfo) (w : KubernetesVersionInfo)
    → is_at_least w.version (lower_version least w).version ≡ true
unfolding lower_version
lower_version-above none w = is_at_least_refl w.version
lower_version-above (some l) w = (lower_version-below l w).0

-- What is known of the minimum over the versions before and the nodes.
record IsMinimum (least : Option KubernetesVersionInfo) (nodes : List String)
    (v : KubernetesVersionInfo) : Type 0 where
  pub before : (l : KubernetesVersionInfo) → least ≡ some l → is_at_least l.version v.version ≡ true
  pub below : All (RunsAtLeast v.version) nodes
  pub from : IsFrom least nodes v

detect_from-IsMinimum :
    (least : Option KubernetesVersionInfo) (nodes : List String) (v : KubernetesVersionInfo)
    → detect_from least nodes ≡ some v
    → IsMinimum least nodes v
unfolding detect_from
detect_from-IsMinimum least [] v h = record {
  before = λ l e. rw (some-injective l v (sym e ∙ h)) (is_at_least_refl v.version);
  below = tt;
  from = inl h;
}
detect_from-IsMinimum least (node ∷ nodes) v h = elim (Option-cases (parse_kubelet_version node)) [
  | inl e ↦ absurd (ground (arith, e, h))
  | inr (w, e) ↦
      let rest : detect_from (some (lower_version least w)) nodes ≡ some v = ground (arith, e, h) in
      let m = detect_from-IsMinimum (some (lower_version least w)) nodes v rest in
      let low = m.before (lower_version least w) refl in
      record {
        before = λ l k.
            is_at_least_trans l.version (lower_version least w).version v.version
              (rw k ((lower_version-below l w).1)) low;
        below = (
          (
            w,
            e,
            is_at_least_trans w.version (lower_version least w).version v.version
                (lower_version-above least w) low,
          ),
          m.below,
        );
        from = elim m.from [
          | inl k ↦
              elim (lower_version-from least w v (some-injective (lower_version least w) v k)) [
                | inl b ↦ inl b
                | inr s ↦ inr (node, inl refl, rw (← s) e)
              ]
          | inr (n, i, p) ↦ inr (n, inr i, p)
        ];
      }
]

-- When the detection of the minimum kubelet version succeeds, every node of the cluster runs a kubelet
-- of that version or a later one, and one node runs exactly that version.
pub detect_minimum_kubelet_version-minimum :
    (nodes : List String) (v : KubernetesVersionInfo)
    → detect_minimum_kubelet_version (some nodes) ≡ some v
    → All (RunsAtLeast v.version) nodes
      × (node : String) × In node nodes
      × (parse_kubelet_version node ≡ some v)
unfolding detect_minimum_kubelet_version
detect_minimum_kubelet_version-minimum nodes v h =
    let m = detect_from-IsMinimum none nodes v h in
    elim m.from [ inl e ↦ absurd (cc e) | inr (n, i, p) ↦ (m.below, n, i, p) ]
