-- ===== src/WebhookCerts/Tests/Facts.antt =====
-- That the samples are sound and can be stored.
use dash0_operator.Base.{refl, [], ◌∷◌, arith}
use dash0_operator.WebhookCerts.Certificates.{
  create_key_pair, generate_ca, issue_serving_cert, serving_cert_not_after, is_expired,
  missing_dns_names, verify_serving_cert_chain, latest, without_expired,
}
use dash0_operator.WebhookCerts.Certificates.Chains.{IsUsable}
use dash0_operator.WebhookCerts.Material.{
  generate_material, maintain, start_rotation, remove_expired, remove_retained, ensure_serving_cert,
}
use dash0_operator.WebhookCerts.Material.Soundness.{IsSound}
use dash0_operator.WebhookCerts.SecretData.RoundTrip.{IsStorable}
use dash0_operator.WebhookCerts.Tests.Library.{library, create, chain}
use dash0_operator.WebhookCerts.Tests.Samples.{late, aged, rotating, switch_time}

aged_ca-IsUsable : IsUsable library aged.material.active_ca late.now
unfolding maintain start_rotation remove_expired remove_retained ensure_serving_cert
    missing_dns_names generate_ca issue_serving_cert create_key_pair create serving_cert_not_after
    generate_material
aged_ca-IsUsable = record {
  capable = record {
    constrained = refl;
    authority = refl;
    signs = refl;
    serves = refl;
    unrestricted = refl;
  };
  matches = refl;
  unexpired = omega arith;
  whole_seconds = refl;
  ordered = omega arith;
  near = omega arith;
}

pub aged-IsSound : IsSound library aged.material late.now
unfolding maintain start_rotation remove_expired remove_retained ensure_serving_cert
    missing_dns_names generate_ca issue_serving_cert create_key_pair create serving_cert_not_after
    generate_material verify_serving_cert_chain chain latest
aged-IsSound = record { active = aged_ca-IsUsable; pending = tt; serving = refl }

pub rotating-IsSound : IsSound library rotating.material switch_time
unfolding maintain start_rotation remove_expired remove_retained ensure_serving_cert
    missing_dns_names generate_ca issue_serving_cert create_key_pair create serving_cert_not_after
    generate_material verify_serving_cert_chain chain latest
rotating-IsSound = record {
  active = record {
    capable = record {
      constrained = refl;
      authority = refl;
      signs = refl;
      serves = refl;
      unrestricted = refl;
    };
    matches = refl;
    unexpired = omega arith;
    whole_seconds = refl;
    ordered = omega arith;
    near = omega arith;
  };
  pending = record {
    capable = record {
      constrained = refl;
      authority = refl;
      signs = refl;
      serves = refl;
      unrestricted = refl;
    };
    matches = refl;
    unexpired = omega arith;
    whole_seconds = refl;
    ordered = omega arith;
    near = omega arith;
  };
  serving = refl;
}

-- Keys of the library are lists of the number of the draw.
pub rotating-IsStorable : IsStorable library rotating.material switch_time
unfolding maintain start_rotation remove_expired remove_retained ensure_serving_cert
    missing_dns_names generate_ca issue_serving_cert create_key_pair create serving_cert_not_after
    generate_material verify_serving_cert_chain chain latest is_expired without_expired
rotating-IsStorable = record {
  active = record {
    parsed = refl;
    cert_encoded = refl;
    der = 1 ∷ [];
    key_encoded = refl;
    key_parsed = refl;
    key_public = refl;
  };
  authority = refl;
  unexpired = refl;
  pending = (
    record {
      parsed = refl;
      cert_encoded = refl;
      der = 5 ∷ [];
      key_encoded = refl;
      key_parsed = refl;
      key_public = refl;
    },
    refl,
    refl,
  );
  previous = tt;
  chart = tt;
  retained = (refl, tt);
  serving = (
    record {
      parsed = refl;
      cert_encoded = refl;
      der = 4 ∷ [];
      key_encoded = refl;
      key_parsed = refl;
      key_public = refl;
    },
    refl,
  );
}
