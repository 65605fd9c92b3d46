-- ===== src/Kubectl/Validation.antt =====
-- images/agent0-connector/src/kubectl/validation.go: the checks of a command request, in order. Each
-- check returns the reason of a rejection, without the text of its message.
pub mod Sound
pub mod Checks
pub mod Outputs
pub mod Order
use dash0_operator.Base.{
  ℕ, String, Bool, true, false, not, ◌&&◌, ◌||◌, Option, none, some, List, [], ◌∷◌, ◌++◌, Result,
  ok, err, ◌>>=◌, any, contains, texts_eq, ◌==◌, if◌then◌else◌,
}
use dash0_operator.Base.Text.{contains_text}
use dash0_operator.Kubectl.Arguments.{
  ParsedFlag, KubectlLibrary, ParseFailure, unknown_command, other_failure, KubectlArguments,
  parse_kubectl_arguments, normalize_resource_type, value_of, has_template_flag, output_format,
  OutputFormatHandling, unknown, content_free, redactable, unredactable, known_output_formats,
  output_is_content_free,
}
use dash0_operator.Kubectl.Allowed.{
  supported_kubectl_commands, unconditionally_rejected_kubectl_commands, allowed_subcommands,
  AllowedKubectlCommands, allows,
}
use dash0_operator.Kubectl.SortBy.{
  termination_message_sort_by_paths, is_sort_by_path_below, parse_sort_by_path,
  sort_by_expression_is_safe,
}

-- The fields of pb.CommandRequest that are checked.
pub record CommandRequest : Type 0 where
  pub command : String
  pub arguments : List String

pub data Rejection : Type 0 where
  no_executable : Rejection
  wrong_executable : String → Rejection
  unresolved_command unparsable_arguments end_of_flags_separator : Rejection
  disallowed_flag : String → Rejection
  log_verbosity_set : String → Rejection
  kuberc_selected : String → Rejection
  unsupported_command never_supported_command disabled_command : String → Rejection
  only_bare_command missing_subcommand disallowed_subcommand : Rejection
  events_via_get sensitive_content : Rejection
  unknown_output_format unredactable_output_format : String → Rejection
  unsafe_sort_by termination_message_sort_by : String → Rejection

abbrev pub allowed_flags : List String
allowed_flags =
    "namespace" ∷ "all-namespaces" ∷ "request-timeout" ∷ "help" ∷ "output" ∷ "selector"
    ∷ "field-selector" ∷ "sort-by" ∷ "chunk-size" ∷ "subresource" ∷ "label-columns" ∷ "template"
    ∷ "allow-missing-template-keys" ∷ "no-headers" ∷ "show-labels" ∷ "show-kind"
    ∷ "show-managed-fields" ∷ "ignore-not-found" ∷ "show-events" ∷ "container" ∷ "since"
    ∷ "since-time" ∷ "tail" ∷ "limit-bytes" ∷ "max-log-requests" ∷ "all-containers" ∷ "previous"
    ∷ "timestamps" ∷ "prefix" ∷ "ignore-errors" ∷ "containers" ∷ "sum" ∷ "use-protocol-buffers"
    ∷ "for" ∷ "types" ∷ "api-version" ∷ "recursive" ∷ "api-group" ∷ "verbs" ∷ "categories"
    ∷ "namespaced" ∷ "cached" ∷ "client" ∷ "list" ∷ []

unfoldable pub disallowed_executable_requested : CommandRequest → Option Rejection
disallowed_executable_requested req =
    if req.command == ""
    then some no_executable
    else if not (req.command == "kubectl")
    then some (wrong_executable req.command)
    else none

unfoldable pub disallowed_flag_in : List ParsedFlag → Option Rejection
disallowed_flag_in [] = none
disallowed_flag_in (flag ∷ flags) =
    if contains allowed_flags flag.long_name
    then disallowed_flag_in flags
    else some (disallowed_flag flag.long_name)

unfoldable pub disallowed_flag_requested : KubectlArguments → Option Rejection
disallowed_flag_requested p =
    if p.has_end_of_flags_separator then some end_of_flags_separator else disallowed_flag_in p.flags

unfoldable pub hidden_log_verbosity_requested : KubectlLibrary → CommandRequest → Option Rejection
hidden_log_verbosity_requested k req =
    let level = k.log_verbosity ("kubectl" ∷ req.arguments) in
    if level == "0" then none else some (log_verbosity_set level)

unfoldable pub hidden_kuberc_in : List String → Option Rejection
hidden_kuberc_in [] = none
hidden_kuberc_in (argument ∷ arguments) =
    if argument == "--kuberc" || contains_text argument "--kuberc="
    then some (kuberc_selected argument)
    else hidden_kuberc_in arguments

unfoldable pub disallowed_kubectl_command_requested :
    KubectlArguments → AllowedKubectlCommands → Option Rejection
disallowed_kubectl_command_requested p allowed =
    if p.kubectl_command == ""
    then none
    else if not (contains supported_kubectl_commands p.kubectl_command)
    then some (unsupported_command p.kubectl_command)
    else if contains unconditionally_rejected_kubectl_commands p.kubectl_command
    then some (never_supported_command p.kubectl_command)
    else if not (allows allowed p.kubectl_command)
    then some (disabled_command p.kubectl_command)
    else none

subcommand_rejection : String → Option (List String) → Option Rejection
subcommand_rejection requested none = none
subcommand_rejection requested (some subcommands) =
    if contains subcommands requested
    then none
    else if texts_eq subcommands ("" ∷ [])
    then some only_bare_command
    else if requested == ""
    then some missing_subcommand
    else some disallowed_subcommand

unfoldable pub disallowed_subcommand_requested : KubectlArguments → Option Rejection
unfolding subcommand_rejection
disallowed_subcommand_requested p =
    subcommand_rejection p.subcommand (allowed_subcommands p.kubectl_command)

abbrev pub event_resource_types : List String
event_resource_types = "event" ∷ "events" ∷ "ev" ∷ []

unfoldable pub events_read_via_get_requested :
    KubectlArguments → AllowedKubectlCommands → Option Rejection
events_read_via_get_requested p allowed =
    if not (p.kubectl_command == "get") || allows allowed "events"
    then none
    else if any p.resource_types (λ t. contains event_resource_types t)
    then some events_via_get
    else none

abbrev pub sensitive_resource_types : List String
sensitive_resource_types = "secret" ∷ "secrets" ∷ []

module _ (k : KubectlLibrary) where
  -- targetedSensitiveResource; the type is normalized again
  abbrev pub targets_sensitive_resource : KubectlArguments → Bool
  targets_sensitive_resource p =
      any p.resource_types (λ t. contains sensitive_resource_types (normalize_resource_type k t))

  unfoldable pub sensitive_content_requested : KubectlArguments → Option Rejection
  sensitive_content_requested p =
      if not (targets_sensitive_resource p)
      then none
      else if output_is_content_free k p
      then none
      else some sensitive_content

  format_rejection : List String → Option Rejection
  format_rejection [] = none
  format_rejection (format ∷ formats) =
      let rest = format_rejection formats in
      elim (known_output_formats format) [
        | unknown ↦ some (unknown_output_format format)
        | unredactable ↦ some (unredactable_output_format format)
        | content_free ↦ rest
        | redactable ↦ rest
      ]

  abbrev formats_of : Option String → List String
  formats_of none = []
  formats_of (some format) = format ∷ []

  unfoldable pub unsupported_output_format_requested : KubectlArguments → Option Rejection
  unfolding format_rejection
  unsupported_output_format_requested p =
      format_rejection
        (formats_of (output_format k p) ++ (if has_template_flag p then "go-template" ∷ [] else []))

  unsafe_expression : Option String → Option Rejection
  unsafe_expression none = none
  unsafe_expression (some expression) =
      if sort_by_expression_is_safe k expression then none else some (unsafe_sort_by expression)

  unfoldable pub unsafe_sort_by_requested : KubectlArguments → Option Rejection
  unfolding unsafe_expression
  unsafe_sort_by_requested p =
      if not (p.kubectl_command == "get") then none else unsafe_expression (value_of p "sort-by")

  termination_path : String → Option (List String) → Option Rejection
  termination_path expression none = none
  termination_path expression (some path) =
      if any termination_message_sort_by_paths
        (λ message. is_sort_by_path_below message path || is_sort_by_path_below path message)
      then some (termination_message_sort_by expression)
      else none

  termination_expression : Option String → Option Rejection
  termination_expression none = none
  termination_expression (some expression) =
      termination_path expression (parse_sort_by_path k expression)

  unfoldable pub termination_message_sort_by_requested :
      KubectlArguments → AllowedKubectlCommands → Option Rejection
  unfolding termination_path termination_expression
  termination_message_sort_by_requested p allowed =
      if not (p.kubectl_command == "get") || allows allowed "logs"
      then none
      else termination_expression (value_of p "sort-by")

abbrev pub pass : Option Rejection → Result Rejection Unit
pass none = ok tt
pass (some reason) = err reason

infixl 5 ◌>>◌
abbrev pub ◌>>◌ : {A : Type 0} → Result Rejection Unit → Result Rejection A → Result Rejection A
ok done >> next = next
err reason >> next = err reason

abbrev pub parse_rejection : ParseFailure → Rejection
parse_rejection unknown_command = unresolved_command
parse_rejection other_failure = unparsable_arguments

abbrev pub parsed_of : Result ParseFailure KubectlArguments → Result Rejection KubectlArguments
parsed_of (ok p) = ok p
parsed_of (err e) = err (parse_rejection e)

unfoldable pub validate_command_and_parse_arguments :
    KubectlLibrary → CommandRequest → AllowedKubectlCommands → Result Rejection KubectlArguments
validate_command_and_parse_arguments k req allowed = do
  pass (disallowed_executable_requested req)
  arguments ← parsed_of (parse_kubectl_arguments k req.arguments)
  pass (disallowed_flag_requested arguments)
  pass (hidden_log_verbosity_requested k req)
  pass (hidden_kuberc_in req.arguments)
  pass (disallowed_kubectl_command_requested arguments allowed)
  pass (disallowed_subcommand_requested arguments)
  pass (events_read_via_get_requested arguments allowed)
  pass (sensitive_content_requested k arguments)
  pass (unsupported_output_format_requested k arguments)
  pass (unsafe_sort_by_requested k arguments)
  pass (termination_message_sort_by_requested k arguments allowed)
  ok arguments
