-- ===== src/ReconcileGuard/Tests.antt =====
-- The theorems about the guard, at a trigger that arrives during a reconciliation.
use dash0_operator.Base.{◌≤◌, ◌≡◌, refl, ◌⊎◌, true, false, [], ◌∷◌, All, length}
use dash0_operator.ReconcileGuard.{
  max_reconcile_repetitions, clear_pending, System, trigger, end_repetition, on_trigger, on_clear,
  on_read, on_end, Reaches, here, next, initial, reconciling,
}
use dash0_operator.ReconcileGuard.Interleavings.{
  WaitsOrDropped, repetitions_of, Reaches-one_run, Reaches-seen,
}

abbrev triggered : System
triggered = trigger initial

-- A second trigger arrives while the first reconciliation runs, which then fails.
abbrev reconciled : System
reconciled = record triggered { runs = reconciling 0 ∷ []; unseen = false; dropped = false }

abbrev failed : System
failed = end_repetition (trigger reconciled) [] [] 0 true

failed_reached : Reaches initial failed
unfolding trigger clear_pending end_repetition
failed_reached =
    next
      (next
        (next (next (next here (on_trigger initial)) (on_clear _ [] [] 0 refl))
          (on_read _ [] [] 0 refl))
        (on_trigger _))
      (on_end _ [] [] 0 true refl)

failed_idle : failed.runs ≡ []
unfolding trigger end_repetition
failed_idle = refl

Reaches-one_run_example :
    (length failed.runs ≤ 1) × All (λ p. repetitions_of p ≤ max_reconcile_repetitions) failed.runs
Reaches-one_run_example = Reaches-one_run failed failed_reached

Reaches-seen_example : (failed.unseen ≡ false) ⊎ WaitsOrDropped failed
Reaches-seen_example = Reaches-seen failed failed_reached failed_idle
