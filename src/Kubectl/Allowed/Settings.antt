-- ===== src/Kubectl/Allowed/Settings.antt =====
-- ParseAllowedKubectlCommands of images/agent0-connector/src/kubectl/allowed_commands.go: which
-- settings it accepts.
use Prim.Native.Char.{Char, code}
use Prim.Native.String.{[], ◌∷◌}
use dash0_operator.Base.{
  ℕ, String, ◌≡◌, ◌≢◌, ◌∙◌, refl, ◌↔◌, inl, inr, true, false, List, [], ◌∷◌, ◌++◌, map, ok, ◌==◌,
  eq_iff, All, Bool-cases, Result-cases, arith, nat_eq,
}
use dash0_operator.Base.Members.{In, contains_iff, contains-false_iff}
use dash0_operator.Base.Text.{trim_space, split, on_first}
use dash0_operator.Kubectl.Allowed.{
  supported_kubectl_commands, unconditionally_rejected_kubectl_commands, AllowedKubectlCommands,
  Entries, is_valid_entry, add_entry, collect_entries, checked, parse_allowed_kubectl_commands,
}

abbrev pub entries_of : String → List String
entries_of value = map trim_space (split b',' value)

abbrev pub CanBeAllowed : String → Type 0
CanBeAllowed command =
    In command supported_kubectl_commands
    × (¬ (In command unconditionally_rejected_kubectl_commands))

valid_iff : (command : String) → (is_valid_entry command ≡ true) ↔ CanBeAllowed command
valid_iff command = ground (
  arith,
  contains_iff supported_kubectl_commands command,
  contains-false_iff unconditionally_rejected_kubectl_commands command,
)

blank_invalid : is_valid_entry "" ≡ false
blank_invalid = refl

All-valid_iff :
    (commands : List String)
    → All (λ c. is_valid_entry c ≡ true) commands ↔ All CanBeAllowed commands
All-valid_iff [] = (λ h. tt, λ h. tt)
All-valid_iff (c ∷ cs) = ground (arith, valid_iff c, All-valid_iff cs)

append_cons :
    (xs : List String) (y : String) (ys : List String) → (xs ++ y ∷ []) ++ ys ≡ xs ++ y ∷ ys
append_cons [] y ys = refl
append_cons (x ∷ xs) y ys = rw (append_cons xs y ys) refl

not_nil : (xs : List String) (y : String) → xs ++ y ∷ [] ≢ []
not_nil [] y h = cc h
not_nil (x ∷ xs) y h = cc h

append_nil : (xs : List String) → xs ++ [] ≡ xs
append_nil [] = refl
append_nil (x ∷ xs) = rw (append_nil xs) refl

nonblank : (command : String) → is_valid_entry command ≡ true → (command == "") ≡ false
nonblank command valid = elim (Bool-cases (command == "")) [
  | inl e ↦
      let blank : command ≡ "" = (eq_iff command "").0 e in
      absurd (cc (rw blank at valid, blank_invalid))
  | inr e ↦ e
]

module _ (e : Entries) (command : String) where
  commands-add_entry :
      is_valid_entry command ≡ true
      → add_entry e command ≡ record { commands = e.commands ++ command ∷ []; invalid = e.invalid }
  unfolding add_entry
  commands-add_entry valid = rw valid refl

  invalid-add_entry :
      (add_entry e command).invalid ≡ [] → (is_valid_entry command ≡ true) × (e.invalid ≡ [])
  unfolding add_entry
  invalid-add_entry clean = elim (Bool-cases (is_valid_entry command)) [
    | inl valid ↦ (valid, rw valid at clean)
    | inr invalid ↦ absurd (not_nil e.invalid command (rw invalid at clean))
  ]

collect-valid :
    (e : Entries) (texts : List String)
    → All (λ c. is_valid_entry c ≡ true) (map trim_space texts)
    → collect_entries e texts
      ≡ ok (record { commands = e.commands ++ map trim_space texts; invalid = e.invalid })
unfolding collect_entries
collect-valid e [] h = rw (append_nil e.commands) refl
collect-valid e (s ∷ texts) h =
    let ih = collect-valid (add_entry e (trim_space s)) texts h.1 in
    let added = commands-add_entry e (trim_space s) h.0 in
    let grouped = append_cons e.commands (trim_space s) (map trim_space texts) in
    rw (nonblank (trim_space s) h.0, ih, added, grouped) refl

-- Entries that are not valid leave a trace.
collect-ok :
    (e : Entries) (texts : List String) (r : Entries)
    → collect_entries e texts ≡ ok r
    → r.invalid ≡ []
    → All (λ c. is_valid_entry c ≡ true) (map trim_space texts) × (e.invalid ≡ [])
unfolding collect_entries
collect-ok e [] r h clean = let same : e ≡ r = cc h in (tt, rw same clean)
collect-ok e (s ∷ texts) r h clean = elim (Bool-cases (trim_space s == "")) [
  | inl blank ↦ absurd (cc (rw blank at h))
  | inr filled ↦
      let (rest, before) = collect-ok (add_entry e (trim_space s)) texts r (rw filled at h) clean in
      let (valid, none_before) = invalid-add_entry e (trim_space s) before in
      ((valid, rest), none_before)
]

first_part : (c : Char) (parts : List String) → on_first c parts ≢ []
first_part c [] h = cc h
first_part c (part ∷ parts) h = cc h

split-ne-nil : (n : ℕ) (s : String) → split n s ≢ []
unfolding split
split-ne-nil n [] h = cc h
split-ne-nil n (c ∷ s) h = elim (Bool-cases (nat_eq (code c) n)) [
  | inl e ↦ cc (rw e at h)
  | inr e ↦ first_part c (split n s) (rw e at h)
]

map-ne-nil : (texts : List String) → texts ≢ [] → map trim_space texts ≢ []
map-ne-nil [] filled h = filled refl
map-ne-nil (s ∷ texts) filled h = cc h

checked-ok :
    (commands invalid : List String) (a : AllowedKubectlCommands)
    → checked (record { commands = commands; invalid = invalid }) ≡ ok a
    → (invalid ≡ []) × (a.commands ≡ commands)
unfolding checked
checked-ok [] [] a h = absurd (cc h)
checked-ok (c ∷ cs) [] a h =
    let same : record { commands = c ∷ cs } ≡ a = cc h in (refl, rw (← same) refl)
checked-ok commands (i ∷ is) a h = absurd (cc h)

checked-clean :
    (commands : List String)
    → commands ≢ []
    → checked (record { commands = commands; invalid = [] }) ≡ ok (record { commands = commands })
unfolding checked
checked-clean [] filled = absurd (filled refl)
checked-clean (c ∷ cs) filled = refl

abbrev no_entries : Entries
no_entries = record { commands = []; invalid = [] }

-- A setting is accepted exactly when it is not blank and each of its entries, without the white
-- space around it, is a supported command that is not rejected unconditionally; the allowed
-- commands are those entries.
pub parse_allowed_kubectl_commands_iff :
    (value : String) (a : AllowedKubectlCommands)
    → (parse_allowed_kubectl_commands value ≡ ok a) ↔ (
        (trim_space value ≢ "")
        × All CanBeAllowed (entries_of value)
        × (a.commands ≡ entries_of value))
unfolding parse_allowed_kubectl_commands
parse_allowed_kubectl_commands_iff value a =
    let blank = eq_iff (trim_space value) "" in
    let texts = split b',' value in
    elim (Bool-cases (trim_space value == "")) [
      | inl e ↦ (λ h. absurd (cc (rw e at h)), λ h. absurd (h.0 (blank.0 e)))
      | inr e ↦ (
        λ h. elim (Result-cases (collect_entries no_entries texts)) [
          | inl (r, collected) ↦
              let (clean, commands) = checked-ok r.commands r.invalid a (rw (e, collected) at h) in
              let (valid, _) = collect-ok no_entries texts r collected clean in
              let same : r ≡ record { commands = map trim_space texts; invalid = [] } =
                cc (collected, collect-valid no_entries texts valid) in
              (
                λ b. cc (e, blank.1 b),
                (All-valid_iff (map trim_space texts)).0 valid,
                commands ∙ rw same refl,
              )
          | inr (f, failed) ↦ absurd (cc (rw (e, failed) at h))
        ],
        λ h.
            let valid = (All-valid_iff (map trim_space texts)).1 h.1 in
            let filled = map-ne-nil texts (split-ne-nil b',' value) in
            rw
              (
                e,
                collect-valid no_entries texts valid,
                checked-clean (map trim_space texts) filled,
                h.2,
              )
              refl,
      )
    ]
