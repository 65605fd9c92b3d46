-- ===== src/Workloads/LdPreload/Loaded.antt =====
-- internal/workloads/workload_modifier.go: LD_PRELOAD after it has been added or extended, as the dynamic
-- linker reads it.
use Prim.Native.Char.{Char, code}
use Prim.Native.String
use Prim.Native.String.append
use dash0_operator.Base.{
  String, true, Option, none, some, List, [], ◌∷◌, ◌++◌, ◌≡◌, ◌≢◌, refl, ap, inl, inr, Bool-cases,
  ◌∙◌, ◌||◌, nat_eq, if◌then◌else◌,
}
use dash0_operator.Base.Members.{In, In-append}
use dash0_operator.Base.Text.{contains_text, on_first}
use dash0_operator.Workloads.Pod.{EnvVar, Env}
use dash0_operator.Workloads.Env.{plain, get_env_var, is_blank}
use dash0_operator.Workloads.Env.Laws.{get_env_var-append, get_env_var-update}
use dash0_operator.Workloads.LdPreload.{
  Issue, ld_preload_from_source, ld_preload, ld_preload_value, is_from_source, set_value,
  appended_ld_preload, add_to_ld_preload, add_or_append_to_ld_preload_env_var,
}

-- The objects that the dynamic linker loads for a value: they are separated by spaces or colons. The
-- empty ones, which it skips, are kept.
unfoldable pub loaded_objects : String → List String
loaded_objects String.[] = "" ∷ []
loaded_objects (String.◌∷◌ c s) =
    let rest = loaded_objects s in
    if nat_eq (code c) 32 || nat_eq (code c) 58 then "" ∷ rest else on_first c rest

-- What becomes of the variable of a container, if it has one, with the issues that are reported.
pub data Preloads (issues : List Issue) : Option EnvVar → EnvVar → Type 0 where
  -- the injector is the only object
  alone : (v : EnvVar) → loaded_objects v.value ≡ ld_preload_value ∷ [] → Preloads issues none v
  instead_of_blank :
      (w v : EnvVar)
      → is_blank w.value ≡ true
      → loaded_objects v.value ≡ ld_preload_value ∷ []
      → Preloads issues (some w) v
  -- it is loaded before all objects of the container
  prepended :
      (w v : EnvVar)
      → loaded_objects v.value ≡ ld_preload_value ∷ loaded_objects w.value
      → Preloads issues (some w) v
  -- the value has the path of the injector in it already
  mentioned :
      (w : EnvVar) → contains_text w.value ld_preload_value ≡ true → Preloads issues (some w) w
  reported :
      (w : EnvVar)
      → is_from_source w ≡ true
      → In ld_preload_from_source issues
      → Preloads issues (some w) w

loaded_objects-injector : loaded_objects ld_preload_value ≡ ld_preload_value ∷ []
unfolding loaded_objects
loaded_objects-injector = refl

on_first-ne-nil : (c : Char) (parts : List String) → on_first c parts ≢ []
on_first-ne-nil c [] h = cc h
on_first-ne-nil c (part ∷ parts) h = cc h

loaded_objects-ne-nil : (s : String) → loaded_objects s ≢ []
unfolding loaded_objects
loaded_objects-ne-nil String.[] h = cc h
loaded_objects-ne-nil (String.◌∷◌ c s) h =
    elim (Bool-cases (nat_eq (code c) 32 || nat_eq (code c) 58)) [
      | inl e ↦ cc (rw e at h)
      | inr e ↦ on_first-ne-nil c (loaded_objects s) (rw e at h)
    ]

on_first-append :
    (c : Char) (parts more : List String)
    → parts ≢ []
    → on_first c (parts ++ more) ≡ on_first c parts ++ more
on_first-append c [] more h = absurd (h refl)
on_first-append c (part ∷ parts) more h = refl

-- A space separates the objects on its two sides.
loaded_objects-append :
    (s t : String)
    → loaded_objects (String.◌++◌ s (String.◌++◌ " " t)) ≡ loaded_objects s ++ loaded_objects t
unfolding loaded_objects
loaded_objects-append String.[] t =
    rw (append.nil (String.◌++◌ " " t), append.cons " " String.[] t, append.nil t) refl
loaded_objects-append (String.◌∷◌ c s) t =
    elim (Bool-cases (nat_eq (code c) 32 || nat_eq (code c) 58)) [
      | inl e ↦
          rw (append.cons c s (String.◌++◌ " " t), loaded_objects)
            (rw (e, loaded_objects-append s t) refl)
      | inr e ↦
          rw (append.cons c s (String.◌++◌ " " t), loaded_objects)
            (rw (e, loaded_objects-append s t)
              (on_first-append c (loaded_objects s) (loaded_objects t) (loaded_objects-ne-nil s)))
    ]

loaded_objects-before :
    (value : String)
    → loaded_objects (String.◌++◌ ld_preload_value (String.◌++◌ " " value))
      ≡ ld_preload_value ∷ loaded_objects value
loaded_objects-before value =
    loaded_objects-append ld_preload_value value
    ∙ ap (λ parts. parts ++ loaded_objects value) loaded_objects-injector

appended-Preloads :
    (issues : List Issue) (w : EnvVar)
    → Preloads issues (some w) (set_value (appended_ld_preload w.value) w)
appended-Preloads issues w = elim (Bool-cases (contains_text w.value ld_preload_value)) [
  | inl e ↦ rw e (mentioned w e)
  | inr e ↦ elim (Bool-cases (is_blank w.value)) [
    | inl b ↦
        rw (e, b) (instead_of_blank w (set_value ld_preload_value w) b loaded_objects-injector)
    | inr b ↦
        let value = String.◌++◌ ld_preload_value (String.◌++◌ " " w.value) in
        rw (e, b) (prepended w (set_value value w) (loaded_objects-before w.value))
  ]
]

add_to_ld_preload-Preloads :
    (env : Env) (issues : List Issue) (o : Option EnvVar)
    → get_env_var env ld_preload ≡ o
    → (v : EnvVar) × (get_env_var (add_to_ld_preload env issues o).0 ld_preload ≡ some v)
      × Preloads (add_to_ld_preload env issues o).1 o v
unfolding add_to_ld_preload
add_to_ld_preload-Preloads env issues none h = (
  plain ld_preload ld_preload_value,
  get_env_var-append env (plain ld_preload ld_preload_value) h,
  alone (plain ld_preload ld_preload_value) loaded_objects-injector,
)
add_to_ld_preload-Preloads env issues (some w) h = elim (Bool-cases (is_from_source w)) [
  | inl e ↦ rw e (
    w,
    h,
    reported w e (
        (In-append ld_preload_from_source issues (ld_preload_from_source ∷ [])).1 (inr (inl refl))),
  )
  | inr e ↦
      let extended = set_value (appended_ld_preload w.value) in
      rw e (
        extended w,
        get_env_var-update extended (λ u. refl) env ld_preload ∙ rw h refl,
        appended-Preloads issues w,
      )
]

pub add_or_append-Preloads :
    (env : Env) (issues : List Issue)
    → (v : EnvVar) × (get_env_var (add_or_append_to_ld_preload_env_var env issues).0 ld_preload
        ≡ some v)
      × Preloads (add_or_append_to_ld_preload_env_var env issues).1 (get_env_var env ld_preload) v
unfolding add_or_append_to_ld_preload_env_var
add_or_append-Preloads env issues =
    add_to_ld_preload-Preloads env issues (get_env_var env ld_preload) refl
