-- ===== src/WebhookCerts/Targets/Injection.antt =====
-- What a target carries when injectAll of internal/webhookcerts/manager.go reports it as injected.
use dash0_operator.Base.{
  ℕ, zero, suc, ◌≡◌, refl, inl, inr, true, false, not, Option, none, some, List, [], ◌∷◌, map,
  Result, ok, err, arith, any, All, Bool-cases,
}
use dash0_operator.Base.Bytes.{Bytes, bytes_eq, bytes_eq→eq}
use dash0_operator.WebhookCerts.Api.{ApiError, TargetAnswer}
use dash0_operator.WebhookCerts.Targets.{
  inject, patched, inject_with_retry, inject_all, max_conflict_retries,
}

All-any-not :
    (bundles : List Bytes) (bytes : Bytes)
    → any bundles (λ c. not (bytes_eq c bytes)) ≡ false
    → All (λ c. c ≡ bytes) bundles
All-any-not [] bytes h = tt
All-any-not (b ∷ bundles) bytes h =
    (bytes_eq→eq b bytes (ground arith), All-any-not bundles bytes (ground arith))

All-map_const :
    (bundles : List Bytes) (bytes : Bytes) → All (λ c. c ≡ bytes) (map (λ b. bytes) bundles)
All-map_const [] bytes = tt
All-map_const (b ∷ bundles) bytes = (refl, All-map_const bundles bytes)

inject-carried :
    (t : TargetAnswer) (bytes : Bytes)
    → (inject t bytes).injected ≡ true
    → All (λ c. c ≡ bytes) (inject t bytes).carried × ((inject t bytes).failed ≡ none)
unfolding inject patched
inject-carried t bytes h = go t.read refl
  where
    go :
        (r : Result ApiError (Option (List Bytes)))
        → t.read ≡ r
        → All (λ c. c ≡ bytes) (inject t bytes).carried × ((inject t bytes).failed ≡ none)
    go (err e) same = absurd (ground arith)
    go (ok none) same = absurd (ground arith)
    go (ok (some [])) same = absurd (ground arith)
    go (ok (some (b ∷ bundles))) same =
        elim (Bool-cases (any (b ∷ bundles) (λ c. not (bytes_eq c bytes)))) [
          | inl changed ↦ ground (arith, All-map_const (b ∷ bundles) bytes)
          | inr unchanged ↦ ground (arith, All-any-not (b ∷ bundles) bytes unchanged)
        ]

inject_with_retry-carried :
    (left attempt : ℕ) (answers : ℕ → TargetAnswer) (bytes : Bytes)
    → (inject_with_retry left attempt answers bytes).injected ≡ true
    → All (λ c. c ≡ bytes) (inject_with_retry left attempt answers bytes).carried
      × ((inject_with_retry left attempt answers bytes).failed ≡ none)
unfolding inject_with_retry
inject_with_retry-carried zero attempt answers bytes h = inject-carried (answers attempt) bytes h
inject_with_retry-carried (suc left) attempt answers bytes h = ground (
  arith,
  inject-carried (answers attempt) bytes,
  inject_with_retry-carried left (suc attempt) answers bytes,
)

-- A target that a pass reports as injected carries the CA bundle in each of its entries that point
-- at the operator, and has no error.
pub inject_all-carried :
    (targets : List (ℕ → TargetAnswer)) (bytes : Bytes)
    → All
        (λ o. o.injected ≡ true → All (λ c. c ≡ bytes) o.carried × (o.failed ≡ none))
        (inject_all targets bytes)
unfolding inject_all
inject_all-carried [] bytes = tt
inject_all-carried (t ∷ targets) bytes =
    (inject_with_retry-carried max_conflict_retries 0 t bytes, inject_all-carried targets bytes)
