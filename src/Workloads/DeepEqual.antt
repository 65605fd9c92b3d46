-- ===== src/Workloads/DeepEqual.antt =====
-- reflect.DeepEqual on pod specifications, as internal/workloads/workload_modifier.go calls it. A nil
-- slice and an empty one are one list here.
use mathlib.Core.Logic.{dite}
use mathlib.Core.Bool.{Bool-discrete}
use native.Mathlib.Decide.{ℕ_discrete}
use dash0_operator.Base.{String, Bool, true, false, ◌==◌, eq_iff, ◌≡◌, ◌↔◌, arith}
use dash0_operator.Workloads.Pod.{
  Source, EnvVar, VolumeMount, Quantity, VolumeSource, Volume, SecurityContext, Resources,
  Container, MatchExpression, PodSecurityContext, PodSpec,
}

String_discrete : Discrete String
String_discrete s t =
    dite (Bool-discrete (s == t) true) (λ same. yes ((eq_iff s t).0 same))
      (λ differ. no (λ p. differ ((eq_iff s t).1 p)))

Source_discrete : Discrete Source
Source_discrete = hlevel (String_discrete)

EnvVar_discrete : Discrete EnvVar
EnvVar_discrete = hlevel (String_discrete, Source_discrete)

VolumeMount_discrete : Discrete VolumeMount
VolumeMount_discrete = hlevel (String_discrete)

Quantity_discrete : Discrete Quantity
Quantity_discrete = hlevel (String_discrete, ℕ_discrete)

VolumeSource_discrete : Discrete VolumeSource
VolumeSource_discrete = hlevel (String_discrete, Quantity_discrete)

Volume_discrete : Discrete Volume
Volume_discrete = hlevel (String_discrete, VolumeSource_discrete)

SecurityContext_discrete : Discrete SecurityContext
SecurityContext_discrete = hlevel (String_discrete, ℕ_discrete)

Resources_discrete : Discrete Resources
Resources_discrete = hlevel (String_discrete, ℕ_discrete)

Container_discrete : Discrete Container
Container_discrete = hlevel (
  String_discrete, EnvVar_discrete, VolumeMount_discrete, Resources_discrete,
  SecurityContext_discrete,
)

MatchExpression_discrete : Discrete MatchExpression
MatchExpression_discrete = hlevel (String_discrete)

PodSecurityContext_discrete : Discrete PodSecurityContext
PodSecurityContext_discrete = hlevel (String_discrete, ℕ_discrete)

PodSpec_discrete : Discrete PodSpec
PodSpec_discrete = hlevel (
  String_discrete, MatchExpression_discrete, PodSecurityContext_discrete, Volume_discrete,
  Container_discrete,
)

-- reflect.DeepEqual
unfoldable pub deep_equal : PodSpec → PodSpec → Bool
unfolding String_discrete Source_discrete EnvVar_discrete VolumeMount_discrete Quantity_discrete
    VolumeSource_discrete Volume_discrete SecurityContext_discrete Resources_discrete
    Container_discrete MatchExpression_discrete PodSecurityContext_discrete PodSpec_discrete
deep_equal a b = elim (PodSpec_discrete a b) [ yes _ ↦ true | no _ ↦ false ]

pub deep_equal_iff : (a b : PodSpec) → (deep_equal a b ≡ true) ↔ (a ≡ b)
unfolding deep_equal
deep_equal_iff a b = ground arith
