-- ===== src/Kubectl/Validation/Checks.antt =====
-- What it means to pass each check of a command request.
use dash0_operator.Base.{
  String, ◌≡◌, ◌≢◌, ◌∙◌, refl, sym, ◌↔◌, ◌⊎◌, inl, inr, false, none, List, [], ◌∷◌, contains, ◌==◌,
  eq_iff, arith, Bool-cases, All,
}
use dash0_operator.Base.Members.{In, contains_iff}
use dash0_operator.Base.Text.{contains_text}
use dash0_operator.Kubectl.Arguments.{ParsedFlag, KubectlLibrary, KubectlArguments}
use dash0_operator.Kubectl.Allowed.{
  supported_kubectl_commands, unconditionally_rejected_kubectl_commands, AllowedKubectlCommands,
}
use dash0_operator.Kubectl.Validation.{
  CommandRequest, allowed_flags, disallowed_executable_requested, disallowed_flag_in,
  disallowed_flag_requested, hidden_log_verbosity_requested, hidden_kuberc_in,
  disallowed_kubectl_command_requested, disallowed_subcommand_requested,
}

pub executable_iff :
    (req : CommandRequest)
    → (disallowed_executable_requested req ≡ none) ↔ (req.command ≡ "kubectl")
unfolding disallowed_executable_requested
executable_iff req = (
  λ h. ground (arith, eq_iff req.command "kubectl"),
  λ h. rw (h, disallowed_executable_requested) refl,
)

abbrev pub HasAllowedName : ParsedFlag → Type 0
HasAllowedName flag = In flag.long_name allowed_flags

flags_in_iff :
    (flags : List ParsedFlag) → (disallowed_flag_in flags ≡ none) ↔ All HasAllowedName flags
unfolding disallowed_flag_in
flags_in_iff [] = (λ h. tt, λ h. refl)
flags_in_iff (flag ∷ flags) =
    let known = contains_iff allowed_flags flag.long_name in
    let ih = flags_in_iff flags in
    elim (Bool-cases (contains allowed_flags flag.long_name)) [
      | inl e ↦ (λ h. (known.0 e, ih.0 (rw e at h)), λ h. rw e (ih.1 h.1))
      | inr e ↦ (λ h. absurd (cc (rw e at h)), λ h. absurd (cc (e, known.1 h.0)))
    ]

pub flags_iff :
    (p : KubectlArguments)
    → (disallowed_flag_requested p ≡ none)
      ↔ ((p.has_end_of_flags_separator ≡ false) × All HasAllowedName p.flags)
unfolding disallowed_flag_requested
flags_iff p = ground (arith, flags_in_iff p.flags)

pub log_verbosity_iff :
    (k : KubectlLibrary) (req : CommandRequest)
    → (hidden_log_verbosity_requested k req ≡ none)
      ↔ (k.log_verbosity ("kubectl" ∷ req.arguments) ≡ "0")
unfolding hidden_log_verbosity_requested
log_verbosity_iff k req = ground (arith, eq_iff (k.log_verbosity ("kubectl" ∷ req.arguments)) "0")

abbrev pub SelectsNoKuberc : String → Type 0
SelectsNoKuberc argument = (argument ≢ "--kuberc") × (contains_text argument "--kuberc=" ≡ false)

pub kuberc_iff :
    (arguments : List String) → (hidden_kuberc_in arguments ≡ none) ↔ All SelectsNoKuberc arguments
unfolding hidden_kuberc_in
kuberc_iff [] = (λ h. tt, λ h. refl)
kuberc_iff (argument ∷ arguments) = ground (arith, eq_iff argument "--kuberc", kuberc_iff arguments)

abbrev pub IsAllowedCommand : AllowedKubectlCommands → String → Type 0
IsAllowedCommand allowed command =
    (command ≡ "")
    ⊎ (In command supported_kubectl_commands
        × (¬ (In command unconditionally_rejected_kubectl_commands))
        × In command allowed.commands)

pub command_iff :
    (p : KubectlArguments) (allowed : AllowedKubectlCommands)
    → (disallowed_kubectl_command_requested p allowed ≡ none)
      ↔ IsAllowedCommand allowed p.kubectl_command
unfolding disallowed_kubectl_command_requested
command_iff p allowed =
    let c = p.kubectl_command in
    let blank = eq_iff c "" in
    let supported = contains_iff supported_kubectl_commands c in
    let rejected = contains_iff unconditionally_rejected_kubectl_commands c in
    let configured = contains_iff allowed.commands c in
    elim (Bool-cases (c == "")) [
      | inl e ↦ (λ h. inl (blank.0 e), λ h. rw e refl)
      | inr e ↦ elim (Bool-cases (contains supported_kubectl_commands c)) [
        | inr n ↦ (
          λ h. absurd (cc (rw (e, n) at h)),
          λ h. elim h [
            | inl b ↦ absurd (cc (e, blank.1 b))
            | inr s ↦ absurd (cc (n, supported.1 s.0))
          ],
        )
        | inl s ↦ elim (Bool-cases (contains unconditionally_rejected_kubectl_commands c)) [
          | inl r ↦ (
            λ h. absurd (cc (rw (e, s, r) at h)),
            λ h. elim h [
              | inl b ↦ absurd (cc (e, blank.1 b))
              | inr t ↦ absurd (t.1 (rejected.0 r))
            ],
          )
          | inr r ↦ elim (Bool-cases (contains allowed.commands c)) [
            | inl a ↦ (
              λ h. inr (supported.0 s, λ i. cc (r, rejected.1 i), configured.0 a),
              λ h. rw (e, s, r, a) refl,
            )
            | inr n ↦ (
              λ h. absurd (cc (rw (e, s, r, n) at h)),
              λ h. elim h [
                | inl b ↦ absurd (cc (e, blank.1 b))
                | inr t ↦ absurd (cc (n, configured.1 t.2))
              ],
            )
          ]
        ]
      ]
    ]

auth_ne_cluster : ◌≢◌ {A = String} "auth" "cluster-info"
auth_ne_cluster = ground (arith, eq_iff "auth" "cluster-info")

pub subcommand_iff :
    (p : KubectlArguments)
    → (disallowed_subcommand_requested p ≡ none) ↔ (
        (p.kubectl_command ≡ "auth" → p.subcommand ≡ "can-i")
        × (p.kubectl_command ≡ "cluster-info" → p.subcommand ≡ ""))
unfolding disallowed_subcommand_requested
subcommand_iff p =
    let auth = eq_iff p.kubectl_command "auth" in
    let cluster = eq_iff p.kubectl_command "cluster-info" in
    let can_i = eq_iff "can-i" p.subcommand in
    let bare = eq_iff "" p.subcommand in
    elim (Bool-cases (p.kubectl_command == "auth")) [
      | inl e ↦
          let other =
            λ (c : p.kubectl_command ≡ "cluster-info"). auth_ne_cluster (sym (auth.0 e) ∙ c) in
          (
            λ h. (λ a. ground (arith, can_i), λ c. absurd (other c)),
            λ h. ground (arith, can_i.1 (sym (h.0 (auth.0 e)))),
          )
      | inr e ↦ (
        λ h. (λ a. absurd (cc (e, auth.1 a)), λ c. ground (arith, bare, cluster.1 c)),
        λ h. ground (arith, h.1, cluster, bare),
      )
    ]
