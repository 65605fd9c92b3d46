-- ===== src/Workloads/Env/Laws.antt =====
-- Lookup after the elementary operations on an environment of internal/workloads.
use mathlib.Core.Option
use dash0_operator.Base.{
  String, none, some, [], ◌∷◌, ◌++◌, ◌≡◌, refl, ◌∙◌, eq_iff, eq_refl, arith, Option-cases, inl, inr,
}
use dash0_operator.Workloads.Pod.{EnvVar, Env}
use dash0_operator.Workloads.Env.{
  plain, get_env_var, update_env_var, replace_existing_environment_variable,
  add_or_replace_environment_variable, remove_environment_variable,
}

pub get_env_var-name :
    (env : Env) (n : String) (v : EnvVar) → get_env_var env n ≡ some v → v.name ≡ n
unfolding get_env_var
get_env_var-name [] n v h = cc
get_env_var-name (w ∷ env) n v h = ground (arith, get_env_var-name env n v, eq_iff w.name n)

pub get_env_var-append :
    (env : Env) (v : EnvVar)
    → get_env_var env v.name ≡ none
    → get_env_var (env ++ v ∷ []) v.name ≡ some v
unfolding get_env_var
get_env_var-append [] v h = ground (arith, eq_refl v.name)
get_env_var-append (w ∷ env) v h = ground (arith, get_env_var-append env v)

pub get_env_var-update :
    (f : EnvVar → EnvVar)
    → ((v : EnvVar) → (f v).name ≡ v.name)
    → (env : Env) (n : String)
    → get_env_var (update_env_var f env n) n ≡ Option.map f (get_env_var env n)
unfolding get_env_var update_env_var
get_env_var-update f k [] n = refl
get_env_var-update f k (w ∷ env) n = ground (arith, get_env_var-update f k env n, k w)

pub get_env_var-remove :
    (env : Env) (n : String) → get_env_var (remove_environment_variable env n) n ≡ none
unfolding get_env_var remove_environment_variable
get_env_var-remove [] n = refl
get_env_var-remove (w ∷ env) n = ground (arith, get_env_var-remove env n)

replace_existing-name : (v w : EnvVar) → (replace_existing_environment_variable v w).name ≡ w.name
unfolding replace_existing_environment_variable
replace_existing-name v w = ground arith

replace_existing-plain :
    (n s : String) (w : EnvVar)
    → w.name ≡ n
    → replace_existing_environment_variable (plain n s) w ≡ plain n s
unfolding replace_existing_environment_variable
replace_existing-plain n s w h = ground (arith, eq_iff s "")

pub get_env_var-add_or_replace :
    (env : Env) (n s : String)
    → get_env_var (add_or_replace_environment_variable env (plain n s)) n ≡ some (plain n s)
unfolding add_or_replace_environment_variable
get_env_var-add_or_replace env n s = elim (Option-cases (get_env_var env n)) [
  | inl e ↦ rw (e) (get_env_var-append env (plain n s) e)
  | inr (w, e) ↦ rw (e) (
      get_env_var-update (replace_existing_environment_variable (plain n s))
        (replace_existing-name (plain n s)) env n
      ∙ rw (e, replace_existing-plain n s w (get_env_var-name env n w e)) refl)
]
