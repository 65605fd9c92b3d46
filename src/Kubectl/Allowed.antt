-- ===== src/Kubectl/Allowed.antt =====
-- images/agent0-connector/src/kubectl/allowed_commands.go, and the command lists of validation.go
pub mod Settings
use dash0_operator.Base.{
  ℕ, String, Bool, true, false, not, ◌&&◌, ◌||◌, Option, none, some, List, [], ◌∷◌, ◌++◌, Result,
  ok, err, contains, ◌==◌, if◌then◌else◌,
}
use dash0_operator.Base.Text.{trim_space, split}

abbrev pub supported_kubectl_commands : List String
supported_kubectl_commands =
    "api-resources" ∷ "auth" ∷ "api-versions" ∷ "cluster-info" ∷ "describe" ∷ "events" ∷ "explain"
    ∷ "get" ∷ "logs" ∷ "top" ∷ "version" ∷ []

abbrev pub unconditionally_rejected_kubectl_commands : List String
unconditionally_rejected_kubectl_commands = "describe" ∷ []

-- Commands that are restricted to some subcommands; "" is the bare command.
abbrev pub allowed_subcommands : String → Option (List String)
allowed_subcommands command =
    if command == "auth"
    then some ("can-i" ∷ [])
    else if command == "cluster-info"
    then some ("" ∷ [])
    else none

-- The set of commands, as a list; the phrase for the messages is left out.
pub record AllowedKubectlCommands : Type 0 where
  pub commands : List String

abbrev pub allows : AllowedKubectlCommands → String → Bool
allows a command = contains a.commands command

pub data SettingError : Type 0 where
  blank_setting empty_entry : SettingError
  invalid_entries : List String → SettingError
  no_commands : SettingError

-- What the loop over the entries has collected.
pub record Entries : Type 0 where
  pub commands : List String
  pub invalid : List String

abbrev pub is_valid_entry : String → Bool
is_valid_entry command =
    contains supported_kubectl_commands command
    && not (contains unconditionally_rejected_kubectl_commands command)

add_entry : Entries → String → Entries
add_entry e command =
    if is_valid_entry command
    then record e { commands = e.commands ++ command ∷ [] }
    else record e { invalid = e.invalid ++ command ∷ [] }

pub collect_entries : Entries → List String → Result SettingError Entries
unfolding add_entry
collect_entries e [] = ok e
collect_entries e (entry ∷ entries) =
    let rest = collect_entries (add_entry e (trim_space entry)) entries in
    if trim_space entry == "" then err empty_entry else rest

checked : Entries → Result SettingError AllowedKubectlCommands
checked e = elim e.invalid [
  | c ∷ cs ↦ err (invalid_entries (c ∷ cs))
  | [] ↦ elim e.commands [ [] ↦ err no_commands | c ∷ cs ↦ ok (record { commands = e.commands }) ]
]

pub parse_allowed_kubectl_commands : String → Result SettingError AllowedKubectlCommands
unfolding collect_entries checked
parse_allowed_kubectl_commands value =
    if trim_space value == ""
    then err blank_setting
    else elim (collect_entries (record { commands = []; invalid = [] }) (split b',' value)) [
      | err e ↦ err e
      | ok entries ↦ checked entries
    ]
