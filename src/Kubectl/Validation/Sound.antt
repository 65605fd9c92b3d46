-- ===== src/Kubectl/Validation/Sound.antt =====
-- validateCommandAndParseArguments as a whole: what the requests are that pass every check.
use dash0_operator.Base.{
  String, ◌≡◌, ◌≢◌, refl, ◌↔◌, ◌⊎◌, inl, inr, true, false, Option, none, some, List, [], ◌∷◌,
  Result, ok, err, Result-cases, Option-cases, arith, eq_iff, All, contains, contains,
}
use dash0_operator.Base.Members.{In}
use dash0_operator.Kubectl.Arguments.{
  KubectlLibrary, KubectlArguments, parse_kubectl_arguments, value_of, output_format,
  has_template_flag, output_is_content_free, parseable_output_format, response_has_to_be_redacted,
  known_output_formats, is_content_free, or_blank, content_free,
}
use dash0_operator.Kubectl.Allowed.{AllowedKubectlCommands}
use dash0_operator.Kubectl.Validation.{
  CommandRequest, Rejection, validate_command_and_parse_arguments, pass, ◌>>◌, parse_rejection,
  disallowed_executable_requested, disallowed_flag_requested, hidden_log_verbosity_requested,
  hidden_kuberc_in, disallowed_kubectl_command_requested, disallowed_subcommand_requested,
  events_read_via_get_requested, sensitive_content_requested, unsupported_output_format_requested,
  unsafe_sort_by_requested, termination_message_sort_by_requested,
}
use dash0_operator.Kubectl.Validation.Checks.{
  executable_iff, HasAllowedName, flags_iff, log_verbosity_iff, SelectsNoKuberc, kuberc_iff,
  IsAllowedCommand, command_iff, subcommand_iff,
}
use dash0_operator.Kubectl.Validation.Outputs.{
  ReadsNoEvents, events_iff, TargetsNoSecret, sensitive_iff, HasReadableOutput, output_iff,
  readable_formats,
}
use dash0_operator.Kubectl.Validation.Order.{
  SortsSafely, sort_by_iff, SortsByNoMessage, messages_iff,
}

-- The policy of the connector, without the order of the checks or their code.
pub record IsAccepted (k : KubectlLibrary) (req : CommandRequest) (allowed : AllowedKubectlCommands)
    (p : KubectlArguments) : Type 0 where
  pub is_kubectl : req.command ≡ "kubectl"
  pub is_parsed : parse_kubectl_arguments k req.arguments ≡ ok p
  pub no_separator : p.has_end_of_flags_separator ≡ false
  pub known_flags : All HasAllowedName p.flags
  pub quiet : k.log_verbosity ("kubectl" ∷ req.arguments) ≡ "0"
  pub no_kuberc : All SelectsNoKuberc req.arguments
  pub allowed_command : IsAllowedCommand allowed p.kubectl_command
  pub only_can_i : p.kubectl_command ≡ "auth" → p.subcommand ≡ "can-i"
  pub only_bare_info : p.kubectl_command ≡ "cluster-info" → p.subcommand ≡ ""
  pub events :
      p.kubectl_command ≡ "get" → In "events" allowed.commands ⊎ ReadsNoEvents p.resource_types
  pub secrets : TargetsNoSecret k p ⊎ (output_is_content_free k p ≡ true)
  pub readable : HasReadableOutput k p
  pub safe_order : SortsSafely k p
  pub no_message_order : SortsByNoMessage k p allowed

-- Checks in a row, and a result after them.
abbrev after_checks :
    {A : Type 0} → List (Option Rejection) → Result Rejection A → Result Rejection A
after_checks [] r = r
after_checks (check ∷ checks) r = pass check >> after_checks checks r

after_checks-ok :
    {A : Type 0} (checks : List (Option Rejection)) (r : Result Rejection A) (a : A)
    → (after_checks checks r ≡ ok a) ↔ (All (λ check. check ≡ none) checks × (r ≡ ok a))
after_checks-ok [] r a = (λ h. (tt, h), λ h. h.1)
after_checks-ok (none ∷ checks) r a =
    let rest = after_checks-ok checks r a in
    (λ h. let both = rest.0 h in ((refl, both.0), both.1), λ h. rest.1 (h.0.1, h.1))
after_checks-ok (some reason ∷ checks) r a = (λ h. absurd (cc h), λ h. absurd (cc h.0.0))

module _ (k : KubectlLibrary) (req : CommandRequest) (allowed : AllowedKubectlCommands) where
  abbrev checks_of : KubectlArguments → List (Option Rejection)
  checks_of p =
      disallowed_executable_requested req
      ∷ disallowed_flag_requested p
      ∷ hidden_log_verbosity_requested k req
      ∷ hidden_kuberc_in req.arguments
      ∷ disallowed_kubectl_command_requested p allowed
      ∷ disallowed_subcommand_requested p
      ∷ events_read_via_get_requested p allowed
      ∷ sensitive_content_requested k p
      ∷ unsupported_output_format_requested k p
      ∷ unsafe_sort_by_requested k p
      ∷ termination_message_sort_by_requested k p allowed
      ∷ []

  accepted_iff_checks :
      (p : KubectlArguments)
      → (validate_command_and_parse_arguments k req allowed ≡ ok p) ↔ (
          (parse_kubectl_arguments k req.arguments ≡ ok p)
          × All (λ check. check ≡ none) (checks_of p))
  unfolding validate_command_and_parse_arguments
  accepted_iff_checks p = elim (Result-cases (parse_kubectl_arguments k req.arguments)) [
    | inl (q, e) ↦
        let checks = after_checks-ok (checks_of q) (ok q) p in
        (
          λ h.
              let all = checks.0 (rw e at h) in
              let same : q ≡ p = cc all.1 in (cc (e, all.1), rw same at all.0),
          λ h. let same : p ≡ q = cc (e, h.0) in rw e (checks.1 (rw same at h.1, cc same)),
        )
    | inr (f, e) ↦ (
      λ h. absurd (
          cc (
            ((after_checks-ok (disallowed_executable_requested req ∷ []) (err (parse_rejection f))
                p).0
              (rw e at h)).1)),
      λ h. absurd (cc (e, h.0)),
    )
  ]

  -- A request passes exactly where it satisfies the policy, and the arguments are the parsed ones.
  pub validate_command_and_parse_arguments_iff :
      (p : KubectlArguments)
      → (validate_command_and_parse_arguments k req allowed ≡ ok p) ↔ IsAccepted k req allowed p
  validate_command_and_parse_arguments_iff p =
      let passed = accepted_iff_checks p in
      let flags = flags_iff p in
      let subcommand = subcommand_iff p in
      (
        λ h.
            let (
              parsed,
              (exe, (fl, (verb, (kub, (cmd, (sub, (ev, (sens, (out, (sort, (msg, done))))))))))),
            ) =
              passed.0 h in
            record {
              is_kubectl = (executable_iff req).0 exe;
              is_parsed = parsed;
              no_separator = (flags.0 fl).0;
              known_flags = (flags.0 fl).1;
              quiet = (log_verbosity_iff k req).0 verb;
              no_kuberc = (kuberc_iff req.arguments).0 kub;
              allowed_command = (command_iff p allowed).0 cmd;
              only_can_i = (subcommand.0 sub).0;
              only_bare_info = (subcommand.0 sub).1;
              events = (events_iff p allowed).0 ev;
              secrets = (sensitive_iff k p).0 sens;
              readable = (output_iff k p).0 out;
              safe_order = (sort_by_iff k p).0 sort;
              no_message_order = (messages_iff k p allowed).0 msg;
            },
        λ a. passed.1 (
          a.is_parsed,
          (
            (executable_iff req).1 a.is_kubectl,
            (
              flags.1 (a.no_separator, a.known_flags),
              (
                (log_verbosity_iff k req).1 a.quiet,
                (
                  (kuberc_iff req.arguments).1 a.no_kuberc,
                  (
                    (command_iff p allowed).1 a.allowed_command,
                    (
                      subcommand.1 (a.only_can_i, a.only_bare_info),
                      (
                        (events_iff p allowed).1 a.events,
                        (
                          (sensitive_iff k p).1 a.secrets,
                          (
                            (output_iff k p).1 a.readable,
                            (
                              (sort_by_iff k p).1 a.safe_order,
                              ((messages_iff k p allowed).1 a.no_message_order, tt),
                            ),
                          ),
                        ),
                      ),
                    ),
                  ),
                ),
              ),
            ),
          ),
        ),
      )

readable_json :
    (format : String)
    → In format readable_formats
    → known_output_formats format ≢ content_free
    → contains ("json" ∷ "yaml" ∷ []) format ≡ true
unfolding known_output_formats
readable_json format = ground (
  arith,
  eq_iff "" format,
  eq_iff "name" format,
  eq_iff "wide" format,
  eq_iff "json" format,
  eq_iff "yaml" format,
)

blank_free : known_output_formats "" ≡ content_free
unfolding known_output_formats
blank_free = refl

module _ (k : KubectlLibrary) (p : KubectlArguments) where
  content :
      response_has_to_be_redacted k p ≡ true
      → value_of p "template" ≡ none
      → is_content_free (known_output_formats (or_blank (output_format k p))) ≡ false
  unfolding response_has_to_be_redacted output_is_content_free has_template_flag
  content r unset = ground arith

  parses :
      (f : String)
      → value_of p "template" ≡ none
      → output_format k p ≡ some f
      → contains ("json" ∷ "yaml" ∷ []) f ≡ true
      → parseable_output_format k p ≡ some f
  unfolding parseable_output_format has_template_flag
  parses f unset e kept = ground arith

named : (f : String) → contains ("json" ∷ "yaml" ∷ []) f ≡ true → (f ≡ "json") ⊎ (f ≡ "yaml")
named f kept = ground (arith, eq_iff "json" f, eq_iff "yaml" f)

-- The response of an accepted request either needs no redaction, or is rendered in a format that
-- the redaction can parse.
pub IsAccepted-parseable :
    (k : KubectlLibrary) (req : CommandRequest) (allowed : AllowedKubectlCommands)
    → (p : KubectlArguments) → validate_command_and_parse_arguments k req allowed ≡ ok p
    → response_has_to_be_redacted k p ≡ true
    → (f : String) × (parseable_output_format k p ≡ some f) × ((f ≡ "json") ⊎ (f ≡ "yaml"))
IsAccepted-parseable k req allowed p h r =
    let a = (validate_command_and_parse_arguments_iff k req allowed p).0 h in
    let no_template = a.readable.0 in
    elim (Option-cases (output_format k p)) [
      | inl unset ↦ absurd (cc (rw (unset, blank_free) at (content k p r no_template)))
      | inr (f, e) ↦
          let free = rw e at (content k p r no_template) in
          let kept = readable_json f (a.readable.1 f e) (λ c. cc (free, c)) in
          (f, parses k p f no_template e kept, named f kept)
    ]
