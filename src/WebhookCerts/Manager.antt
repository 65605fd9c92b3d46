-- ===== src/WebhookCerts/Manager.antt =====
-- internal/webhookcerts/manager.go and store.go: one pass of the manager.
--
-- Events and log lines are left out, and with them the maps that only they read.
pub mod Rotation
pub mod Readiness
use dash0_operator.Base.{
  ℕ, zero, suc, ◌+◌, String, Bool, true, false, not, ◌&&◌, ◌||◌, Option, none, some, List, [], ◌∷◌,
  map, Result, ok, err, ◌>>=◌, any, all, ◌==◌, if◌then◌else◌,
}
use dash0_operator.Base.Bytes.{Bytes, bytes_eq}
use dash0_operator.WebhookCerts.X509.{X509}
use dash0_operator.WebhookCerts.Certificates.{KeyPair, CertError, parse_certificates}
use dash0_operator.WebhookCerts.Material.{
  Material, bundle, RetentionCandidates, add, generate_material, retain_chart_cas, MaintainInput,
  Maintained, maintain,
}
use dash0_operator.WebhookCerts.Material.Switch.{
  SwitchDecision, no_rotation_pending, rotation_waiting, rotation_blocked, rotation_switch,
  rotation_forced_switch, evaluate_switch, switch_to_pending_ca,
}
use dash0_operator.WebhookCerts.SecretData.{
  SecretData, data_equal, to_secret_data, material_from_secret_data,
}
use dash0_operator.WebhookCerts.Api.{
  ApiError, conflict, not_found, forbidden, invalid, bad_request, Secret, Attempt, TargetAnswer,
  SwitchAnswer, Pass, PassError, api, certs, unusable_pair, nil_dereference, not_injected, Store,
  Manager,
}
use dash0_operator.WebhookCerts.Ensure.{
  from_api, from_certs, Ensured, write_secret, remember, ensure_with_retries,
}
use dash0_operator.WebhookCerts.Targets.{
  TargetOutcome, max_conflict_retries, inject_all, perses_crd_carries, perses_crd_notifies,
  evaluate_outcomes, all_injected,
}

-- Store.load; `usable` is the answer of tls.X509KeyPair.
load_pair : Bool → Option KeyPair → Bytes → Store → Result PassError Store
load_pair usable none bytes store = err nil_dereference
load_pair usable (some pair) bytes store =
    if not usable
    then err unusable_pair
    else ok (record store {
      serving = some pair;
      ca_bundle = bytes;
      notified = if bytes_eq store.ca_bundle bytes then store.notified else store.notified + 1;
    })

module _ (x : X509) where
  unfoldable pub load : (KeyPair → Bool) → Material → Store → Result PassError Store
  unfolding load_pair
  load usable m store =
      load_pair (elim m.serving [ none ↦ false | some pair ↦ usable pair ]) m.serving (bundle x m)
        store

-- The manager after a part of a pass, and the result of that part.
pub record After (A : Type 0) : Type 0 where
  pub manager : Manager
  pub result : Result PassError A

abbrev switches : SwitchDecision → Bool
switches rotation_switch = true
switches rotation_forced_switch = true
switches _ = false

-- The rest of the pass once the rotation has been looked after.
finish : List TargetOutcome → After Unit → After Unit
finish outcomes after = elim after.result [
  | err e ↦ after
  | ok done ↦
      let (store, result) = evaluate_outcomes outcomes after.manager.store in
      record { manager = record (after.manager) { store = store }; result = result }
]

notified_of : Pass → Bytes → Manager → Manager
notified_of p bytes s =
    if perses_crd_notifies p.perses_crd bytes
    then record s { store = record (s.store) { notified = s.store.notified + 1 } }
    else s

module _ (x : X509) (usable : KeyPair → Bool) where
  load_into : Manager → Material → After Unit
  load_into s m = elim (load x usable m s.store) [
    | ok store ↦ record { manager = record s { store = store }; result = ok tt }
    | err e ↦ record { manager = s; result = err e }
  ]

  switch_written : Manager → Secret → Material → SwitchAnswer → After Unit
  unfolding load_into
  switch_written s secret m a = elim (write_secret a.update secret (to_secret_data x m)) [
    | err e ↦ record { manager = s; result = err e }
    | ok updated ↦ load_into (record s { remembered = remember updated (to_secret_data x m) }) m
  ]

  unfoldable pub complete_switch : Manager → Ensured → SwitchAnswer → After Unit
  unfolding switch_written
  complete_switch s e a = elim (switch_to_pending_ca x a.draw e.material s.dns_names a.now) [
    | err c ↦ record { manager = s; result = err (certs c) }
    | ok m ↦ switch_written s e.secret m a
  ]

  unfoldable pub complete_rotation_if_possible :
      Manager → Ensured → List TargetOutcome → Bool → SwitchAnswer → After Unit
  complete_rotation_if_possible s e outcomes perses_carries a =
      if switches (evaluate_switch x e.material (all_injected outcomes perses_carries) a.now)
      then complete_switch s e a
      else record { manager = s; result = ok tt }

  -- The pass after the material has been ensured.
  run_with : Manager → Pass → Ensured → After Unit
  unfolding load_into finish notified_of
  run_with s p e =
      let loaded = load_into (record s { remembered = e.remembered }) e.material in
      let bytes = bundle x e.material in
      let outcomes = inject_all p.targets bytes in
      let carries = perses_crd_carries p.perses_crd bytes in
      let completed =
        complete_rotation_if_possible (notified_of p bytes loaded.manager) e outcomes carries
          p.switch in
      elim loaded.result [ err f ↦ loaded | ok done ↦ finish outcomes completed ]

  unfoldable pub run_pass : Manager → Pass → After Unit
  unfolding run_with
  run_pass s p = elim (ensure_with_retries x max_conflict_retries 0 s p) [
    | err e ↦ record { manager = s; result = err e }
    | ok ensured ↦ run_with s p ensured
  ]
