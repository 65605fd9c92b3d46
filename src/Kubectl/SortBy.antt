-- ===== src/Kubectl/SortBy.antt =====
-- images/agent0-connector/src/kubectl/validation.go: the paths of --sort-by expressions.
pub mod Paths
use dash0_operator.Base.{
  ℕ, String, Bool, true, false, not, ◌&&◌, ◌||◌, Option, none, some, List, [], ◌∷◌, ◌++◌, map, any,
  length, leb, take, texts_eq, ◌==◌, if◌then◌else◌,
}
use dash0_operator.Kubectl.Arguments.{
  Node, field_node, array_node, other_node, RootNode, list_node, no_list_node, KubectlLibrary,
}

abbrev pub safe_sort_by_path_prefixes : List (List String)
safe_sort_by_path_prefixes = ("metadata" ∷ []) ∷ ("status" ∷ []) ∷ []

abbrev pub unsafe_sort_by_path_prefix : List String
unsafe_sort_by_path_prefix = "metadata" ∷ "annotations" ∷ []

abbrev termination_paths : String → List (List String)
termination_paths status_field =
    ("status" ∷ status_field ∷ "state" ∷ "terminated" ∷ "message" ∷ [])
    ∷ ("status" ∷ status_field ∷ "lastState" ∷ "terminated" ∷ "message" ∷ [])
    ∷ []

-- The map of the source has no order, and the list is only searched.
abbrev pub termination_message_sort_by_paths : List (List String)
termination_message_sort_by_paths =
    termination_paths "containerStatuses"
    ++ (termination_paths "initContainerStatuses" ++ termination_paths "ephemeralContainerStatuses")

pub is_sort_by_path_below : List String → List String → Bool
is_sort_by_path_below path prefix =
    leb (length prefix) (length path) && texts_eq (take (length prefix) path) prefix

-- The loop over the nodes of the expression.
pub path_of_nodes : List Node → Option (List String)
path_of_nodes [] = some []
path_of_nodes (field_node value ∷ nodes) =
    let rest = path_of_nodes nodes in
    if value == "" then none else elim rest [ none ↦ none | some path ↦ some (value ∷ path) ]
path_of_nodes (array_node known derived third ∷ nodes) =
    let rest = path_of_nodes nodes in if known && derived && not third then rest else none
path_of_nodes (other_node ∷ nodes) = none

abbrev non_empty_path : Option (List String) → Option (List String)
non_empty_path none = none
non_empty_path (some []) = none
non_empty_path (some (s ∷ path)) = some (s ∷ path)

root_path : List RootNode → Option (List String)
unfolding path_of_nodes
root_path (list_node nodes ∷ []) = non_empty_path (path_of_nodes nodes)
root_path _ = none

module _ (k : KubectlLibrary) where
  parse_relaxed : Option String → Option (List String)
  unfolding root_path
  parse_relaxed none = none
  parse_relaxed (some relaxed) =
      if relaxed == ""
      then none
      else elim (k.parse_json_path relaxed) [ none ↦ none | some roots ↦ root_path roots ]

  unfoldable pub parse_sort_by_path : String → Option (List String)
  unfolding parse_relaxed
  parse_sort_by_path expression = parse_relaxed (k.relax expression)

  pub sort_by_expression_is_safe : String → Bool
  unfolding is_sort_by_path_below
  sort_by_expression_is_safe expression = elim (parse_sort_by_path expression) [
    | none ↦ false
    | some path ↦
        if is_sort_by_path_below path unsafe_sort_by_path_prefix
        then false
        else any safe_sort_by_path_prefixes (λ prefix. is_sort_by_path_below path prefix)
  ]
