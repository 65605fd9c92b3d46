-- ===== src/Kubectl/Validation/Order.antt =====
-- What it means to pass the checks on the order that a command request asks for.
use dash0_operator.Base.{
  String, ◌≡◌, refl, ◌↔◌, inl, inr, Bool, true, false, ◌||◌, none, some, List, [], ◌∷◌, any,
  contains, ◌==◌, eq_iff, arith, if◌then◌else◌, Bool-cases, Option-cases, All,
}
use dash0_operator.Base.Members.{In, contains_iff, contains-false_iff}
use dash0_operator.Kubectl.Arguments.{KubectlLibrary, KubectlArguments, value_of}
use dash0_operator.Kubectl.Allowed.{AllowedKubectlCommands}
use dash0_operator.Kubectl.SortBy.{
  termination_message_sort_by_paths, is_sort_by_path_below, parse_sort_by_path,
}
use dash0_operator.Kubectl.SortBy.Paths.{
  IsBelow, IsSafePath, is_sort_by_path_below_iff, sort_by_expression_is_safe_iff,
}
use dash0_operator.Kubectl.Validation.{
  Rejection, unsafe_sort_by_requested, termination_path, termination_expression,
  termination_message_sort_by_requested,
}

none_if : (b : Bool) (r : Rejection) → (if b then some r else none) ≡ none → b ≡ false
none_if true r h = absurd (cc h)
none_if false r h = refl

module _ (k : KubectlLibrary) (p : KubectlArguments) where
  -- What a request may sort by: nothing, or a plain and safe path.
  abbrev pub SortsSafely : Type 0
  SortsSafely =
      p.kubectl_command ≡ "get"
      → (expression : String) → value_of p "sort-by" ≡ some expression
      → (path : List String) × (parse_sort_by_path k expression ≡ some path) × IsSafePath path

  pub sort_by_iff : (unsafe_sort_by_requested k p ≡ none) ↔ SortsSafely
  unfolding unsafe_sort_by_requested
  sort_by_iff =
      let gets = eq_iff p.kubectl_command "get" in
      elim (Bool-cases (p.kubectl_command == "get")) [
        | inr n ↦ (λ h g. absurd (cc (n, gets.1 g)), λ h. ground arith)
        | inl g ↦ elim (Option-cases (value_of p "sort-by")) [
          | inl unset ↦ (λ h _ e s. absurd (cc (unset, s)), λ h. ground arith)
          | inr (expression, given) ↦
              let safe = sort_by_expression_is_safe_iff k expression in
              (
                λ h _ e s.
                    let same : expression ≡ e = cc (given, s) in rw same at (safe.0 (ground arith)),
                λ h. let fine = safe.1 (h (gets.0 g) expression given) in ground arith,
              )
        ]
      ]

  -- The path neither leads to a termination message nor lies below one.
  abbrev pub AvoidsMessages : List String → Type 0
  AvoidsMessages path =
      All (λ message. (¬ (IsBelow message path)) × (¬ (IsBelow path message)))
        termination_message_sort_by_paths

  avoids_iff :
      (path : List String) (messages : List (List String))
      → (any messages (λ m. is_sort_by_path_below m path || is_sort_by_path_below path m) ≡ false)
        ↔ All (λ m. (¬ (IsBelow m path)) × (¬ (IsBelow path m))) messages
  avoids_iff path [] = (λ h. tt, λ h. refl)
  avoids_iff path (m ∷ messages) =
      let inside = is_sort_by_path_below_iff m path in
      let below = is_sort_by_path_below_iff path m in
      let ih = avoids_iff path messages in
      (
        λ h. (
          (λ b. ground (arith, inside.1 b), λ b. ground (arith, below.1 b)),
          ih.0 (ground arith),
        ),
        λ h. ground (arith, inside.0, below.0, h.0.0, h.0.1, ih.1 h.1),
      )

  abbrev pub SortsByNoMessage : AllowedKubectlCommands → Type 0
  SortsByNoMessage allowed =
      p.kubectl_command ≡ "get"
      → ¬ (In "logs" allowed.commands)
      → (expression : String) (path : List String) → value_of p "sort-by" ≡ some expression
      → parse_sort_by_path k expression ≡ some path
      → AvoidsMessages path

  pub messages_iff :
      (allowed : AllowedKubectlCommands)
      → (termination_message_sort_by_requested k p allowed ≡ none) ↔ SortsByNoMessage allowed
  unfolding termination_message_sort_by_requested
  messages_iff allowed =
      let gets = eq_iff p.kubectl_command "get" in
      let logs = contains_iff allowed.commands "logs" in
      elim (Bool-cases (p.kubectl_command == "get")) [
        | inr n ↦ (λ h g _ e q s r. absurd (cc (n, gets.1 g)), λ h. ground arith)
        | inl g ↦ elim (Bool-cases (contains allowed.commands "logs")) [
          | inl l ↦ (λ h _ n e q s r. absurd (n (logs.0 l)), λ h. ground arith)
          | inr l ↦
              let disabled = (contains-false_iff allowed.commands "logs").0 l in
              elim (Option-cases (value_of p "sort-by")) [
                | inl unset ↦ (λ h _ n e q s r. absurd (cc (unset, s)), λ h. ground arith)
                | inr (expression, given) ↦ elim (Option-cases (parse_sort_by_path k expression)) [
                  | inl broken ↦ (
                    λ h _ n e q s r.
                        let same : expression ≡ e = cc (given, s) in absurd (cc (broken, same, r)),
                    λ h. ground arith,
                  )
                  | inr (path, plain) ↦
                      let avoids = avoids_iff path termination_message_sort_by_paths in
                      (
                        λ h _ n e q s r.
                            let same : expression ≡ e = cc (given, s) in
                            let same_path : path ≡ q = cc (plain, same, r) in
                            rw same_path at (
                              avoids.0 (
                                none_if _ _ (
                                  rw
                                    (
                                      termination_message_sort_by_requested, g, l, given,
                                      termination_expression, plain, termination_path,
                                    )
                                    at h))),
                        λ h.
                            let fine =
                              avoids.1 (h (gets.0 g) disabled expression path given plain) in
                            rw
                              (
                                termination_message_sort_by_requested, g, l, given,
                                termination_expression, plain, termination_path, fine,
                              )
                              refl,
                      )
                ]
              ]
        ]
      ]
