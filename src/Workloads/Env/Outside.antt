-- ===== src/Workloads/Env/Outside.antt =====
-- What the elementary operations on an environment of internal/workloads leave alone: the variables
-- outside a list of names, with their values and in their order.
use dash0_operator.Base.{
  String, true, false, not, List, [], ◌∷◌, ◌++◌, keep, all, contains, ◌≡◌, refl, eq_iff, arith,
}
use dash0_operator.Workloads.Pod.{EnvVar, Env}
use dash0_operator.Workloads.Env.{
  get_env_var, update_env_var, delete_env_var, replace_existing_environment_variable,
  add_or_replace_environment_variable, remove_environment_variable, remove_environment_variables,
}

unfoldable pub outside : List String → Env → Env
outside names env = keep (λ v. not (contains names v.name)) env

pub get_env_var-outside :
    (names : List String) (env : Env) (n : String)
    → contains names n ≡ false
    → get_env_var (outside names env) n ≡ get_env_var env n
unfolding get_env_var outside
get_env_var-outside names [] n h = refl
get_env_var-outside names (v ∷ env) n h =
    ground (arith, get_env_var-outside names env n, eq_iff v.name n)

-- Variables outside the names are found alike.
pub get_env_var-same :
    (names : List String) (env env' : Env) (n : String)
    → outside names env ≡ outside names env'
    → contains names n ≡ false
    → get_env_var env n ≡ get_env_var env' n
get_env_var-same names env env' n h k =
    cc (h, get_env_var-outside names env n k, get_env_var-outside names env' n k)

contains-all :
    (names more : List String) (n : String)
    → all names (contains more) ≡ true
    → contains names n ≡ true
    → contains more n ≡ true
contains-all [] more n h k = cc
contains-all (x ∷ names) more n h k = ground (arith, contains-all names more n, eq_iff x n)

outside-outside :
    (names more : List String) (env : Env)
    → all names (contains more) ≡ true
    → outside more (outside names env) ≡ outside more env
unfolding outside
outside-outside names more [] h = refl
outside-outside names more (v ∷ env) h =
    ground (arith, outside-outside names more env h, contains-all names more v.name h)

pub outside-more :
    (names more : List String) (env env' : Env)
    → all names (contains more) ≡ true
    → outside names env ≡ outside names env'
    → outside more env ≡ outside more env'
outside-more names more env env' h k =
    cc (k, outside-outside names more env h, outside-outside names more env' h)

module _ (names : List String) where
  pub outside-append :
      (env : Env) (v : EnvVar)
      → contains names v.name ≡ true
      → outside names (env ++ v ∷ []) ≡ outside names env
  unfolding outside
  outside-append [] v h = ground arith
  outside-append (w ∷ env) v h = ground (arith, outside-append env v h)

  pub outside-update :
      (f : EnvVar → EnvVar)
      → ((v : EnvVar) → (f v).name ≡ v.name)
      → (env : Env) (n : String) → contains names n ≡ true
      → outside names (update_env_var f env n) ≡ outside names env
  unfolding outside update_env_var
  outside-update f k [] n h = refl
  outside-update f k (w ∷ env) n h =
      ground (arith, outside-update f k env n h, eq_iff w.name n, k w)

  pub outside-delete :
      (env : Env) (n : String)
      → contains names n ≡ true
      → outside names (delete_env_var env n) ≡ outside names env
  unfolding outside delete_env_var
  outside-delete [] n h = refl
  outside-delete (w ∷ env) n h = ground (arith, outside-delete env n h, eq_iff w.name n)

  pub outside-remove :
      (env : Env) (n : String)
      → contains names n ≡ true
      → outside names (remove_environment_variable env n) ≡ outside names env
  unfolding outside remove_environment_variable
  outside-remove [] n h = refl
  outside-remove (w ∷ env) n h = ground (arith, outside-remove env n h, eq_iff w.name n)

  replace_existing-name : (v w : EnvVar) → (replace_existing_environment_variable v w).name ≡ w.name
  unfolding replace_existing_environment_variable
  replace_existing-name v w = ground arith

  pub outside-add_or_replace :
      (env : Env) (v : EnvVar)
      → contains names v.name ≡ true
      → outside names (add_or_replace_environment_variable env v) ≡ outside names env
  unfolding add_or_replace_environment_variable
  outside-add_or_replace env v h = ground (
    arith,
    outside-append env v h,
    outside-update (replace_existing_environment_variable v) (replace_existing-name v) env v.name h,
  )

  pub outside-remove_environment_variables :
      (removed : List String) (env : Env)
      → all removed (contains names) ≡ true
      → outside names (remove_environment_variables env removed) ≡ outside names env
  unfolding remove_environment_variables
  outside-remove_environment_variables [] env h = refl
  outside-remove_environment_variables (n ∷ removed) env h = ground (
    arith,
    outside-remove env n,
    outside-remove_environment_variables removed (remove_environment_variable env n),
  )
