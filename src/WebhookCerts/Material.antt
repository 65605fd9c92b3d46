-- ===== src/WebhookCerts/Material.antt =====
-- internal/webhookcerts/state.go: the certificate state and its changes over time.
--
-- Material that a failed operation has changed in place is dropped by every caller, so an error
-- carries no material. `draw` numbers the randomness that an operation consumes: `maintain` uses
-- `draw` for a new CA and `draw + 1` for a serving certificate.
pub mod Switch
pub mod Members
pub mod Steps
pub mod Rotation
pub mod Retention
pub mod Serving
pub mod Soundness
pub mod Bundle
use dash0_operator.Base.{
  ℕ, zero, suc, ◌+◌, String, Bool, true, false, not, ◌&&◌, ◌||◌, Option, none, some, List, [], ◌∷◌,
  ◌++◌, Result, ok, err, ◌>>=◌, ltb, leb, any, keep, length, is_some, if◌then◌else◌, compare,
  Ordering,
}
use dash0_operator.Base.Bytes.{Bytes, compare_bytes}
use dash0_operator.Base.Sorting.{sort_stable}
use dash0_operator.WebhookCerts.X509.{Certificate, X509}
use dash0_operator.WebhookCerts.Certificates.{
  KeyPair, CertError, no_pending_ca, ca_rotation_lead_time, foreign_cert_retention,
  serving_cert_renew_before, forced_switch_lead_time, minimum_rotation_age, append_unique,
  contains_certificate, generate_ca, issue_serving_cert, serving_cert_not_after, is_expired,
  is_operator_created, is_legacy_chart_ca, without_expired, missing_dns_names, encode_certificates,
}

pub record Material : Type 0 where
  pub active_ca : KeyPair
  pub pending_ca : Option KeyPair
  pub rotation_started_at : ℕ
  pub previous_cas : List Certificate
  pub retained_chart_cas : List Certificate
  pub retained_certs : List Certificate
  pub retained_since : ℕ
  pub serving : Option KeyPair

abbrev pub cert_of : Option KeyPair → List Certificate
cert_of none = []
cert_of (some pair) = pair.cert ∷ []

-- The names of the certificates in a serving pair, or none.
abbrev pub names_of : X509 → Option KeyPair → List String
names_of x none = []
names_of x (some pair) = x.dns_names pair.cert

module _ (x : X509) where
  -- By NotBefore, then by the encoding.
  unfoldable pub compare_certificates : Certificate → Certificate → Ordering
  compare_certificates a b = elim (compare (x.not_before a) (x.not_before b)) [
    | Ordering.lt ↦ Ordering.lt
    | Ordering.gt ↦ Ordering.gt
    | Ordering.eq ↦ compare_bytes a b
  ]

  unfoldable pub collected_certs : Material → List Certificate
  collected_certs m =
      let active = append_unique [] (m.active_ca.cert ∷ []) in
      let pending = append_unique active (cert_of m.pending_ca) in
      let previous = append_unique pending m.previous_cas in
      let chart = append_unique previous m.retained_chart_cas in
      append_unique chart m.retained_certs

  unfoldable pub bundle_certs : Material → List Certificate
  bundle_certs m = sort_stable compare_certificates (collected_certs m)

  unfoldable pub bundle : Material → Bytes
  bundle m = encode_certificates x (bundle_certs m)

-- The certificates that the injection targets and the chart's secret trust.
pub record RetentionCandidates : Type 0 where
  pub chart_cas : List Certificate
  pub other : List Certificate

module _ (x : X509) where
  add_candidate : Bool → ℕ → RetentionCandidates → Certificate → RetentionCandidates
  add_candidate from_chart_secret now c cert =
      if is_expired x cert now || is_operator_created x cert
      then c
      else if from_chart_secret || is_legacy_chart_ca x cert
      then record c { chart_cas = append_unique c.chart_cas (cert ∷ []) }
      else record c { other = append_unique c.other (cert ∷ []) }

  add_candidates : Bool → ℕ → RetentionCandidates → List Certificate → RetentionCandidates
  unfolding add_candidate
  add_candidates from_chart_secret now c [] = c
  add_candidates from_chart_secret now c (cert ∷ certs) =
      add_candidates from_chart_secret now (add_candidate from_chart_secret now c cert) certs

  unlisted : RetentionCandidates → RetentionCandidates
  unlisted c = record c {
    other = keep (λ cert. not (contains_certificate c.chart_cas cert)) c.other;
  }

  -- retentionCandidates.add
  unfoldable pub add : RetentionCandidates → List Certificate → Bool → ℕ → RetentionCandidates
  unfolding add_candidates unlisted
  add c certs from_chart_secret now = unlisted (add_candidates from_chart_secret now c certs)

  unfoldable pub generate_material :
      ℕ → List String → RetentionCandidates → ℕ → Result CertError Material
  generate_material draw names candidates now = do
    active_ca ← generate_ca x draw now
    serving ← issue_serving_cert x (suc draw) active_ca names now
    ok (record {
      active_ca = active_ca;
      pending_ca = none;
      rotation_started_at = 0;
      previous_cas = [];
      retained_chart_cas = candidates.chart_cas;
      retained_certs = candidates.other;
      retained_since = now;
      serving = some serving;
    })

  -- The CAs that the bundle did not contain before the call.
  abbrev pub missing_chart_cas : Material → List Certificate → List Certificate
  missing_chart_cas m chart_cas =
      keep (λ ca. not (contains_certificate (bundle_certs x m) ca)) chart_cas

  -- The material, and how many CAs have been added.
  unfoldable pub retain_chart_cas : Material → List Certificate → Material × ℕ
  retain_chart_cas m chart_cas =
      let added = missing_chart_cas m chart_cas in
      (record m { retained_chart_cas = m.retained_chart_cas ++ added }, length added)

pub record MaintainInput : Type 0 where
  pub now : ℕ
  pub dns_names : List String
  -- the answer of rolloutComplete, if it is asked
  pub rollout_complete : Bool

pub data Change : Type 0 where
  started_ca_rotation removed_retained_certs issued_serving_cert renewed_serving_cert : Change
  reissued_serving_cert : List String → Change

pub record MaintenanceResult : Type 0 where
  pub changes : List Change
  pub bundle_changed : Bool
  pub retention_overdue : Bool

abbrev pub no_maintenance : MaintenanceResult
no_maintenance = record { changes = []; bundle_changed = false; retention_overdue = false }

abbrev pub change_bundle : MaintenanceResult → Change → MaintenanceResult
change_bundle r change = record r { changes = r.changes ++ change ∷ []; bundle_changed = true }

abbrev pub changes_with : List Change → Option Change → List Change
changes_with changes none = changes
changes_with changes (some change) = changes ++ change ∷ []

-- What one step of `maintain` leaves behind.
pub record Maintained : Type 0 where
  pub material : Material
  pub result : MaintenanceResult

-- The material with a serving certificate, and the change, if any.
pub record Served : Type 0 where
  pub material : Material
  pub change : Option Change

unfoldable pub remove_retained : MaintainInput → Maintained → Maintained
remove_retained input s =
    if not (leb (length s.material.retained_certs) 0)
      && not (ltb input.now (s.material.retained_since + foreign_cert_retention))
    then (if input.rollout_complete
        then record {
          material = record (s.material) { retained_certs = [] };
          result = change_bundle s.result removed_retained_certs;
        }
        else record s { result = record (s.result) { retention_overdue = true } })
    else s

abbrev pub finished : MaintenanceResult → Served → Maintained
finished r served = record {
  material = served.material;
  result = record r { changes = changes_with r.changes served.change };
}

module _ (x : X509) where
  unfoldable pub start_rotation : ℕ → Material → MaintainInput → Result CertError Maintained
  start_rotation draw m input =
      if not (is_some m.pending_ca)
        && ltb (x.not_after m.active_ca.cert) (input.now + ca_rotation_lead_time)
      then (do
        pending_ca ← generate_ca x draw input.now
        ok (record {
          material = record m { pending_ca = some pending_ca; rotation_started_at = input.now };
          result = change_bundle no_maintenance started_ca_rotation;
        }))
      else ok (record { material = m; result = no_maintenance })

  unfoldable pub remove_expired : MaintainInput → Maintained → Maintained
  remove_expired input s =
      if s.result.bundle_changed
      then record s {
        material = record (s.material) {
          previous_cas = without_expired x s.material.previous_cas input.now;
          retained_chart_cas = without_expired x s.material.retained_chart_cas input.now;
          retained_certs = without_expired x s.material.retained_certs input.now;
        };
      }
      else s

  pub issue_with : ℕ → Material → List String → ℕ → Change → Result CertError Served
  issue_with draw m names now change = do
    serving ← issue_serving_cert x draw m.active_ca names now
    ok (record { material = record m { serving = some serving }; change = some change })

  abbrev pub is_renewal_due : Material → KeyPair → ℕ → Bool
  is_renewal_due m serving now =
      ltb (x.not_after serving.cert) (now + serving_cert_renew_before)
      && ltb (x.not_after serving.cert) (serving_cert_not_after x m.active_ca now)

  ensure_serving_cert_of : ℕ → Material → Option KeyPair → List String → ℕ → Result CertError Served
  unfolding issue_with
  ensure_serving_cert_of draw m none names now = issue_with draw m names now issued_serving_cert
  ensure_serving_cert_of draw m (some serving) names now =
      let missing = missing_dns_names x serving.cert names in
      if not (leb (length missing) 0)
      then issue_with draw m (x.dns_names serving.cert ++ missing) now
          (reissued_serving_cert missing)
      else if is_renewal_due m serving now
      then issue_with draw m names now renewed_serving_cert
      else ok (record { material = m; change = none })

  unfoldable pub ensure_serving_cert : ℕ → Material → List String → ℕ → Result CertError Served
  unfolding ensure_serving_cert_of
  ensure_serving_cert draw m names now = ensure_serving_cert_of draw m m.serving names now

  -- The state after the retained and the expired certificates have been removed.
  abbrev pub cleaned : MaintainInput → Maintained → Maintained
  cleaned input s = remove_expired input (remove_retained input s)

  unfoldable pub maintain : ℕ → Material → MaintainInput → Result CertError Maintained
  maintain draw m input = do
    started ← start_rotation draw m input
    let s = cleaned input started
    served ← ensure_serving_cert (suc draw) s.material input.dns_names input.now
    ok (finished s.result served)
