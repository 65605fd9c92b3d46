-- ===== src/WebhookCerts/Api.antt =====
-- What one pass of the manager of internal/webhookcerts/manager.go sees of the cluster: the answers
-- of the API server to its calls, and what a process keeps between passes.
use dash0_operator.Base.{ℕ, String, Bool, Option, List, Result}
use dash0_operator.Base.Bytes.{Bytes}
use dash0_operator.WebhookCerts.Certificates.{KeyPair, CertError}
use dash0_operator.WebhookCerts.SecretData.{SecretData}

pub data ApiError : Type 0 where
  conflict not_found forbidden invalid bad_request other : ApiError

pub record Secret : Type 0 where
  pub uid : String
  pub entries : SecretData

-- The answers to the calls of one run of ensureMaterial.
pub record Attempt : Type 0 where
  pub now : ℕ
  pub draw : ℕ
  pub read : Result ApiError Secret
  -- the bundles of each target, for the retention candidates
  pub target_bundles : List (Result ApiError (List Bytes))
  -- the CA bundle in the secret of an older chart version, where one is configured
  pub previous_secret : Option (Result ApiError Bytes)
  pub rollout_complete : Bool
  pub update : SecretData → Result ApiError Unit

-- The answers to one run of inject: the bundles of the target's entries that point at the operator,
-- none where the target is missing or without the label, and the answer to the patch.
pub record TargetAnswer : Type 0 where
  pub read : Result ApiError (Option (List Bytes))
  pub patch : Result ApiError Unit

-- What completeRotationIfPossible sees.
pub record SwitchAnswer : Type 0 where
  pub now : ℕ
  pub draw : ℕ
  pub update : SecretData → Result ApiError Unit

pub record Pass : Type 0 where
  pub attempts : ℕ → Attempt
  -- for each target, the answers to the first attempt and to each retry
  pub targets : List (ℕ → TargetAnswer)
  -- the bundles of the Perses CRD's entries; none where no name is configured
  pub perses_crd : Option (Result ApiError (List Bytes))
  pub switch : SwitchAnswer

pub data PassError : Type 0 where
  api : ApiError → PassError
  certs : CertError → PassError
  -- tls.X509KeyPair refuses the serving pair
  unusable_pair : PassError
  -- the dereference of a nil serving certificate, a panic
  nil_dereference : PassError
  not_injected : PassError

-- store.go; `notified` counts the calls of notifyListeners.
pub record Store : Type 0 where
  pub serving : Option KeyPair
  pub ca_bundle : Bytes
  pub ready : Bool
  pub notified : ℕ

pub record Manager : Type 0 where
  pub dns_names : List String
  pub remembered : Option Secret
  pub store : Store
