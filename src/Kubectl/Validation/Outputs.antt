-- ===== src/Kubectl/Validation/Outputs.antt =====
-- What it means to pass the checks on what a command request reads and how it renders it.
use dash0_operator.Base.{
  String, ◌≡◌, refl, ◌↔◌, ◌⊎◌, inl, inr, true, false, none, some, List, [], ◌∷◌, any, contains,
  ◌==◌, eq_iff, arith, Bool-cases, Option-cases, All,
}
use dash0_operator.Base.Members.{In, contains_iff, contains-false_iff}
use dash0_operator.Kubectl.Arguments.{
  KubectlLibrary, KubectlArguments, normalize_resource_type, value_of, has_template_flag,
  output_format, content_free, redactable, unredactable, known_output_formats,
  output_is_content_free,
}
use dash0_operator.Kubectl.Allowed.{AllowedKubectlCommands}
use dash0_operator.Kubectl.Validation.{
  event_resource_types, events_read_via_get_requested, sensitive_resource_types,
  targets_sensitive_resource, sensitive_content_requested, format_rejection,
  unsupported_output_format_requested,
}

abbrev pub ReadsNoEvents : List String → Type 0
ReadsNoEvents types = All (λ t. ¬ (In t event_resource_types)) types

not_any_iff :
    (types names : List String)
    → (any types (λ t. contains names t) ≡ false) ↔ All (λ t. ¬ (In t names)) types
not_any_iff [] names = (λ h. tt, λ h. refl)
not_any_iff (t ∷ types) names = ground (arith, contains-false_iff names t, not_any_iff types names)

pub events_iff :
    (p : KubectlArguments) (allowed : AllowedKubectlCommands)
    → (events_read_via_get_requested p allowed ≡ none)
      ↔ (p.kubectl_command ≡ "get" → In "events" allowed.commands ⊎ ReadsNoEvents p.resource_types)
unfolding events_read_via_get_requested
events_iff p allowed =
    let gets = eq_iff p.kubectl_command "get" in
    let configured = contains_iff allowed.commands "events" in
    let types = not_any_iff p.resource_types event_resource_types in
    elim (Bool-cases (p.kubectl_command == "get")) [
      | inr e ↦ (λ h g. absurd (cc (e, gets.1 g)), λ h. ground arith)
      | inl e ↦ elim (Bool-cases (contains allowed.commands "events")) [
        | inl a ↦ (λ h g. inl (configured.0 a), λ h. ground arith)
        | inr n ↦ (
          λ h g. inr (types.0 (ground arith)),
          λ h. elim (h (gets.0 e)) [
            | inl i ↦ absurd (cc (n, configured.1 i))
            | inr r ↦ let quiet = types.1 r in ground arith
          ],
        )
      ]
    ]

abbrev pub readable_formats : List String
readable_formats = "" ∷ "name" ∷ "wide" ∷ "json" ∷ "yaml" ∷ []

module _ (k : KubectlLibrary) (p : KubectlArguments) where
  abbrev pub TargetsNoSecret : Type 0
  TargetsNoSecret =
      All (λ t. ¬ (In (normalize_resource_type k t) sensitive_resource_types)) p.resource_types

  targets_iff :
      (types : List String)
      → (any types (λ t. contains sensitive_resource_types (normalize_resource_type k t)) ≡ false)
        ↔ All (λ t. ¬ (In (normalize_resource_type k t) sensitive_resource_types)) types
  targets_iff [] = (λ h. tt, λ h. refl)
  targets_iff (t ∷ types) = ground (
    arith,
    contains-false_iff sensitive_resource_types (normalize_resource_type k t),
    targets_iff types,
  )

  pub sensitive_iff :
      (sensitive_content_requested k p ≡ none)
      ↔ (TargetsNoSecret ⊎ (output_is_content_free k p ≡ true))
  unfolding sensitive_content_requested
  sensitive_iff =
      let types = targets_iff p.resource_types in
      elim (Bool-cases (targets_sensitive_resource k p)) [
        | inr n ↦ (λ h. inl (types.0 n), λ h. ground arith)
        | inl t ↦ (
          λ h. inr (ground arith),
          λ h. elim h [ inl n ↦ absurd (cc (t, types.1 n)) | inr f ↦ ground arith ],
        )
      ]

  -- No template, and either no output format or one that can be handed out.
  abbrev pub HasReadableOutput : Type 0
  HasReadableOutput =
      (value_of p "template" ≡ none)
      × ((format : String) → output_format k p ≡ some format → In format readable_formats)

  known_iff :
      (format : String)
      → ((known_output_formats format ≡ content_free) ⊎ (known_output_formats format ≡ redactable))
        ↔ In format readable_formats
  unfolding known_output_formats
  known_iff format = ground (
    arith,
    eq_iff "" format,
    eq_iff "name" format,
    eq_iff "wide" format,
    eq_iff "json" format,
    eq_iff "yaml" format,
  )

  format_rejection_iff :
      (formats : List String)
      → (format_rejection k formats ≡ none)
        ↔ All
            (λ f. (known_output_formats f ≡ content_free) ⊎ (known_output_formats f ≡ redactable))
            formats
  unfolding format_rejection
  format_rejection_iff [] = (λ h. tt, λ h. refl)
  format_rejection_iff (f ∷ formats) = ground (arith, format_rejection_iff formats)

  template_unreadable : known_output_formats "go-template" ≡ unredactable
  unfolding known_output_formats
  template_unreadable = refl

  pub output_iff : (unsupported_output_format_requested k p ≡ none) ↔ HasReadableOutput
  unfolding unsupported_output_format_requested has_template_flag
  output_iff = elim (Option-cases (value_of p "template")) [
    | inr (t, template) ↦ (
      λ h. absurd (elim (Option-cases (output_format k p)) [
        | inl n ↦
            let fine = (format_rejection_iff ("go-template" ∷ [])).0 (ground arith) in
            ground (arith, fine.0, template_unreadable)
        | inr (format, e) ↦
            let fine = (format_rejection_iff (format ∷ "go-template" ∷ [])).0 (ground arith) in
            ground (arith, fine.1.0, template_unreadable)
      ]),
      λ h. absurd (cc (template, h.0)),
    )
    | inl no_template ↦ elim (Option-cases (output_format k p)) [
      | inl no_format ↦ (λ h. (no_template, λ f e. absurd (cc (no_format, e))), λ h. ground arith)
      | inr (format, e) ↦
          let known = known_iff format in
          let checks = format_rejection_iff (format ∷ []) in
          (
            λ h. (
              no_template,
              λ f e'.
                  let same : format ≡ f = cc (e, e') in
                  rw same at (known.0 (checks.0 (ground arith)).0),
            ),
            λ h. let fine = checks.1 (known.1 (h.1 format e), tt) in ground arith,
          )
    ]
  ]
