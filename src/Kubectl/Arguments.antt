-- ===== src/Kubectl/Arguments.antt =====
-- images/agent0-connector/src/kubectl: parser.go, parsed_arguments.go and normalizeOutputFormat of
-- kubectl.go. What the code takes from k8s.io/kubectl, cobra, pflag and client-go's jsonpath is a
-- record of operations.
use Prim.Native.Char.{Char}
use Prim.Native.String
use dash0_operator.Base.{
  String, Bool, true, false, not, ◌&&◌, Option, none, some, List, [], ◌∷◌, ◌++◌, Result, ok, err,
  contains, is_some, ◌==◌, if◌then◌else◌,
}
use dash0_operator.Base.Text.{trim_space, before, has_char, split, to_lower}

pub record ParsedFlag : Type 0 where
  pub long_name : String
  pub shorthand : String
  pub value : String

-- An argument list that kubectl's command tree has resolved, and its flags parsed.
pub record Resolved : Type 0 where
  -- the names of the resolved command and its parents below the root
  pub command_path : List String
  pub flags : List ParsedFlag
  pub positional : List String
  pub end_of_flags : Bool

pub data ParseFailure : Type 0 where
  unknown_command other_failure : ParseFailure

-- A node of a parsed JSONPath expression. Of an array node's three parameters the code reads
-- whether the first is known, the second derived, and the third known.
pub data Node : Type 0 where
  field_node : String → Node
  array_node : Bool → Bool → Bool → Node
  other_node : Node

pub data RootNode : Type 0 where
  list_node : List Node → RootNode
  no_list_node : RootNode

pub record KubectlLibrary : Type 0 where
  -- cobra's Command.Find and pflag's FlagSet.Parse on kubectl's command tree
  pub resolve : List String → Result ParseFailure Resolved
  -- kubectlcmd.GetLogVerbosity on the raw argument list, "kubectl" in front
  pub log_verbosity : List String → String
  -- get.RelaxedJSONPathExpression and jsonpath.Parse
  pub relax : String → Option String
  pub parse_json_path : String → Option (List RootNode)
  -- unicode.ToLower
  pub lower : Char → Char

pub record KubectlArguments : Type 0 where
  pub kubectl_command : String
  pub subcommand : String
  pub flags : List ParsedFlag
  pub has_end_of_flags_separator : Bool
  pub resource_types : List String
  pub positional_arguments : List String

abbrev head_or : List String → String → String
head_or [] d = d
head_or (s ∷ _) d = s

-- strings.Join of all but the first name, by single spaces
join_from : String → List String → String
join_from s [] = s
join_from s (t ∷ more) = join_from (String.◌++◌ s (String.◌++◌ " " t)) more

subcommand_of : List String → String
unfolding join_from
subcommand_of [] = ""
subcommand_of (_ ∷ []) = ""
subcommand_of (_ ∷ s ∷ more) = join_from s more

module _ (k : KubectlLibrary) where
  unfoldable pub normalize_resource_type : String → String
  normalize_resource_type resource_type = before b'.' (to_lower k.lower (trim_space resource_type))

  -- One part of a comma-separated argument; a bare type counts in the first argument alone.
  abbrev pub part_types : Bool → String → List String
  part_types is_resource_type_slot part =
      if not (has_char b'/' part) && not is_resource_type_slot
      then []
      else normalize_resource_type (before b'/' part) ∷ []

  unfoldable pub types_of_parts : Bool → List String → List String
  types_of_parts slot [] = []
  types_of_parts slot (part ∷ parts) = part_types slot part ++ types_of_parts slot parts

  unfoldable pub extract_normalized_resource_types : String → Bool → List String
  unfolding types_of_parts
  extract_normalized_resource_types argument slot = types_of_parts slot (split b',' argument)

  -- The resource types of the arguments, the first of which is the resource type slot or not.
  unfoldable pub resource_types_of : Bool → List String → List String
  resource_types_of slot [] = []
  resource_types_of slot (argument ∷ arguments) =
      extract_normalized_resource_types argument slot ++ resource_types_of false arguments

  arguments_of : Resolved → KubectlArguments
  unfolding subcommand_of
  arguments_of r = record {
    kubectl_command = head_or r.command_path "";
    subcommand = subcommand_of r.command_path;
    flags = r.flags;
    has_end_of_flags_separator = r.end_of_flags;
    resource_types = resource_types_of true r.positional;
    positional_arguments = r.positional;
  }

  unfoldable pub parse_kubectl_arguments : List String → Result ParseFailure KubectlArguments
  unfolding arguments_of
  parse_kubectl_arguments arguments = elim (k.resolve arguments) [
    | ok r ↦ ok (arguments_of r)
    | err e ↦ err e
  ]

  unfoldable pub normalize_output_format : String → String
  normalize_output_format value = to_lower k.lower (before b'=' (trim_space value))

unfoldable pub value_in : List ParsedFlag → String → Option String
value_in [] name = none
value_in (flag ∷ flags) name =
    if flag.long_name == name then some flag.value else value_in flags name

unfoldable pub value_of : KubectlArguments → String → Option String
unfolding value_in
value_of p name = value_in p.flags name

unfoldable pub has_template_flag : KubectlArguments → Bool
unfolding value_of
has_template_flag p = is_some (value_of p "template")

pub data OutputFormatHandling : Type 0 where
  unknown content_free redactable unredactable : OutputFormatHandling

-- knownOutputFormats; unknown is what the map lacks
unfoldable pub known_output_formats : String → OutputFormatHandling
known_output_formats format =
    if contains ("" ∷ "name" ∷ "wide" ∷ []) format
    then content_free
    else if contains ("json" ∷ "yaml" ∷ []) format
    then redactable
    else if contains
        ("custom-columns" ∷ "go-template" ∷ "jsonpath" ∷ "jsonpath-as-json" ∷ "template" ∷ [])
        format
    then unredactable
    else unknown

abbrev pub is_content_free : OutputFormatHandling → Bool
is_content_free content_free = true
is_content_free _ = false

abbrev pub or_blank : Option String → String
or_blank none = ""
or_blank (some s) = s

module _ (k : KubectlLibrary) where
  -- none where the flag is not set; the source returns "" with false then
  unfoldable pub output_format : KubectlArguments → Option String
  unfolding value_of
  output_format p = elim (value_of p "output") [
    | none ↦ none
    | some value ↦ some (normalize_output_format k value)
  ]

  unfoldable pub output_is_content_free : KubectlArguments → Bool
  unfolding output_format has_template_flag known_output_formats
  output_is_content_free p =
      if has_template_flag p
      then false
      else is_content_free (known_output_formats (or_blank (output_format p)))

  parseable : Option String → Option String
  parseable none = none
  parseable (some format) = if contains ("json" ∷ "yaml" ∷ []) format then some format else none

  unfoldable pub parseable_output_format : KubectlArguments → Option String
  unfolding output_format has_template_flag parseable
  parseable_output_format p = if has_template_flag p then none else parseable (output_format p)

  -- redaction.go
  unfoldable pub response_has_to_be_redacted : KubectlArguments → Bool
  unfolding output_is_content_free
  response_has_to_be_redacted p =
      if not (p.kubectl_command == "get") then false else not (output_is_content_free p)
