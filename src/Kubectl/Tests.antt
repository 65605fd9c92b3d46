-- ===== src/Kubectl/Tests.antt =====
-- The theorems about images/agent0-connector/src/kubectl, applied to concrete inputs.
use dash0_operator.Base.{
  String, ◌≡◌, ◌≢◌, refl, ◌↔◌, ◌⊎◌, true, false, some, List, [], ◌∷◌, Result, ok, err, ◌==◌,
  if◌then◌else◌, All, take, length, ltb,
}
use dash0_operator.Base.Bytes.{Bytes}
use dash0_operator.Base.Text.{
  trim_space, trim_left, trim_right, before, has_char, split, contains_text, to_lower,
}
use dash0_operator.Kubectl.Arguments.{
  KubectlLibrary, Resolved, ParseFailure, other_failure, RootNode, list_node, field_node,
  KubectlArguments, parse_kubectl_arguments, resource_types_of, extract_normalized_resource_types,
  types_of_parts, normalize_resource_type, value_of, value_in, has_template_flag, output_format,
  normalize_output_format, known_output_formats, output_is_content_free, parseable_output_format,
  response_has_to_be_redacted,
}
use dash0_operator.Kubectl.Allowed.{AllowedKubectlCommands, parse_allowed_kubectl_commands}
use dash0_operator.Kubectl.Allowed.Settings.{
  entries_of, CanBeAllowed, parse_allowed_kubectl_commands_iff,
}
use dash0_operator.Kubectl.SortBy.{parse_sort_by_path, sort_by_expression_is_safe}
use dash0_operator.Kubectl.SortBy.Paths.{IsSafePath, sort_by_expression_is_safe_iff}
use dash0_operator.Kubectl.Validation.{
  CommandRequest, validate_command_and_parse_arguments, disallowed_executable_requested,
  disallowed_flag_in, disallowed_flag_requested, hidden_log_verbosity_requested, hidden_kuberc_in,
  disallowed_kubectl_command_requested, disallowed_subcommand_requested,
  events_read_via_get_requested, sensitive_content_requested, unsupported_output_format_requested,
  unsafe_sort_by_requested, termination_message_sort_by_requested,
}
use dash0_operator.Kubectl.Validation.Sound.{
  IsAccepted, validate_command_and_parse_arguments_iff, IsAccepted-parseable,
}
use dash0_operator.Kubectl.Output.{write_all}
use dash0_operator.Kubectl.Output.Captured.{concat, empty_buffer, write_all-captured}

-- A command, a resource, and an output format at most.
abbrev resolve : List String → Result ParseFailure Resolved
resolve (command ∷ resource ∷ []) = ok (record {
  command_path = command ∷ [];
  flags = [];
  positional = resource ∷ [];
  end_of_flags = false;
})
resolve (command ∷ resource ∷ flag ∷ format ∷ []) =
    if flag == "-o"
    then ok (record {
      command_path = command ∷ [];
      flags = record { long_name = "output"; shorthand = "o"; value = format } ∷ [];
      positional = resource ∷ [];
      end_of_flags = false;
    })
    else err other_failure
resolve _ = err other_failure

abbrev name_path : List RootNode
name_path = list_node (field_node "metadata" ∷ field_node "name" ∷ []) ∷ []

abbrev library : KubectlLibrary
library = record {
  resolve = resolve;
  log_verbosity = λ arguments. "0";
  relax = λ expression. some expression;
  parse_json_path = λ expression. some name_path;
  lower = λ c. c;
}

abbrev request : CommandRequest
request = record { command = "kubectl"; arguments = "get" ∷ "pods" ∷ "-o" ∷ "json" ∷ [] }

abbrev allowed : AllowedKubectlCommands
allowed = record { commands = "get" ∷ "logs" ∷ [] }

abbrev arguments : KubectlArguments
arguments = record {
  kubectl_command = "get";
  subcommand = "";
  flags = record { long_name = "output"; shorthand = "o"; value = "json" } ∷ [];
  has_end_of_flags_separator = false;
  resource_types = "pods" ∷ [];
  positional_arguments = "pods" ∷ [];
}

accepted : validate_command_and_parse_arguments library request allowed ≡ ok arguments
unfolding validate_command_and_parse_arguments disallowed_executable_requested disallowed_flag_in
    disallowed_flag_requested hidden_log_verbosity_requested hidden_kuberc_in
    disallowed_kubectl_command_requested disallowed_subcommand_requested
    events_read_via_get_requested sensitive_content_requested unsupported_output_format_requested
    unsafe_sort_by_requested termination_message_sort_by_requested parse_kubectl_arguments
    resource_types_of extract_normalized_resource_types types_of_parts normalize_resource_type
    value_of value_in has_template_flag output_format normalize_output_format known_output_formats
    output_is_content_free trim_space trim_left trim_right before has_char split contains_text
    to_lower
accepted = refl

redacted : response_has_to_be_redacted library arguments ≡ true
unfolding response_has_to_be_redacted output_is_content_free value_of value_in has_template_flag
    output_format normalize_output_format known_output_formats trim_space trim_left trim_right
    before to_lower
redacted = refl

validate_command_and_parse_arguments_iff_example :
    (validate_command_and_parse_arguments library request allowed ≡ ok arguments)
    ↔ IsAccepted library request allowed arguments
validate_command_and_parse_arguments_iff_example =
    validate_command_and_parse_arguments_iff library request allowed arguments

IsAccepted-parseable_example :
    (f : String) × (parseable_output_format library arguments ≡ some f)
    × ((f ≡ "json") ⊎ (f ≡ "yaml"))
IsAccepted-parseable_example =
    IsAccepted-parseable library request allowed arguments accepted redacted

sort_by_expression_is_safe_iff_example :
    (sort_by_expression_is_safe library ".metadata.name" ≡ true) ↔ (
      (path : List String) × (parse_sort_by_path library ".metadata.name" ≡ some path)
      × IsSafePath path)
sort_by_expression_is_safe_iff_example = sort_by_expression_is_safe_iff library ".metadata.name"

parse_allowed_kubectl_commands_iff_example :
    (parse_allowed_kubectl_commands "get, logs" ≡ ok allowed) ↔ (
      (trim_space "get, logs" ≢ "")
      × All CanBeAllowed (entries_of "get, logs")
      × (allowed.commands ≡ entries_of "get, logs"))
parse_allowed_kubectl_commands_iff_example = parse_allowed_kubectl_commands_iff "get, logs" allowed

abbrev chunks : List Bytes
chunks = (1 ∷ 2 ∷ []) ∷ (3 ∷ 4 ∷ []) ∷ []

write_all-captured_example :
    ((write_all (empty_buffer 3) chunks).buf ≡ take 3 (concat chunks))
    × ((write_all (empty_buffer 3) chunks).truncated ≡ ltb 3 (length (concat chunks)))
write_all-captured_example = write_all-captured 3 chunks
