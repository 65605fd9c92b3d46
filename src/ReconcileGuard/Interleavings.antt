-- ===== src/ReconcileGuard/Interleavings.antt =====
-- The interleavings of triggers and reconciliations of internal/util/reconcile_guard.go.
use dash0_operator.Base.{
  ℕ, suc, ◌≤◌, ◌≡◌, ◌≢◌, refl, ◌⊎◌, inl, inr, Bool, true, false, not, ◌&&◌, List, [], ◌∷◌, ◌++◌,
  All, length, leb, arith, Bool-cases,
}
use dash0_operator.ReconcileGuard.{
  max_reconcile_repetitions, clear_pending, Phase, starting, clear, reconciling, System, trigger,
  end_repetition, Step, on_trigger, on_clear, on_read, on_end, Reaches, here, next, initial,
}

abbrev pub repetitions_of : Phase → ℕ
repetitions_of (starting n) = n
repetitions_of (clear n) = n
repetitions_of (reconciling n) = n

-- What a call that has read its input still has to know.
abbrev Remembers : System → Phase → Type 0
Remembers s (starting n) = Unit
Remembers s (clear n) = Unit
Remembers s (reconciling n) = s.unseen ≡ true → s.guard.pending ≡ true

-- Why a trigger may not have been followed by a reconciliation: the one that ended last failed and left
-- it pending, or it was dropped after as many repetitions as the limit allows.
abbrev pub WaitsOrDropped : System → Type 0
WaitsOrDropped s =
    ((s.guard.pending ≡ true) × (s.last_failed ≡ true))
    ⊎ ((s.dropped ≡ true) × (s.last_repetitions ≡ max_reconcile_repetitions))

record IsIdle (s : System) : Type 0 where
  free : s.guard.running ≡ false
  no_runs : s.runs ≡ []
  kept : s.unseen ≡ true → WaitsOrDropped s

record IsBusy (s : System) : Type 0 where
  taken : s.guard.running ≡ true
  phase : Phase
  one_run : s.runs ≡ phase ∷ []
  limited : repetitions_of phase ≤ max_reconcile_repetitions
  remembers : Remembers s phase

only :
    (before after : List Phase) (x y : Phase)
    → y ∷ [] ≡ before ++ x ∷ after
    → (before ≡ []) × (after ≡ []) × (y ≡ x)
only [] [] x y e = (refl, refl, cc)
only [] (a ∷ after) x y e = absurd (cc e)
only (b ∷ []) after x y e = absurd (cc e)
only (b ∷ c ∷ before) after x y e = absurd (cc e)

none : (before after : List Phase) (x : Phase) → [] ≢ before ++ x ∷ after
none [] after x e = cc e
none (b ∷ before) after x e = cc e

Remembers-pending : (s : System) → s.guard.pending ≡ true → (p : Phase) → Remembers s p
Remembers-pending s h (starting n) = tt
Remembers-pending s h (clear n) = tt
Remembers-pending s h (reconciling n) = λ u. h

trigger-Orderly : (s : System) → IsIdle s ⊎ IsBusy s → IsIdle (trigger s) ⊎ IsBusy (trigger s)
unfolding trigger
trigger-Orderly s (inl idle) = rw idle.free (
    inr (record {
      taken = refl;
      phase = starting 0;
      one_run = rw idle.no_runs refl;
      limited = omega arith;
      remembers = tt;
    }))
trigger-Orderly s (inr busy) = rw busy.taken (
    inr (record {
      taken = refl;
      phase = busy.phase;
      one_run = busy.one_run;
      limited = busy.limited;
      remembers =
          Remembers-pending
            (record s { guard = record { running = true; pending = true }; unseen = true }) refl
            busy.phase;
    }))

module _ (s : System) (before after : List Phase) (n : ℕ) where
  end-Orderly :
      (failed : Bool)
      → IsBusy s
      → before ≡ []
      → after ≡ []
      → n ≤ max_reconcile_repetitions
      → (s.unseen ≡ true → s.guard.pending ≡ true)
      → IsIdle (end_repetition s before after n failed)
        ⊎ IsBusy (end_repetition s before after n failed)
  unfolding end_repetition
  end-Orderly failed busy b a limited kept = elim (Bool-cases (not failed && s.guard.pending)) [
    | inr done ↦
        rw (done, b, a)
          (inl (record {
            free = refl;
            no_runs = refl;
            kept = λ u. inl (kept u, ground (arith, done, kept u));
          }))
    | inl again ↦ elim (Bool-cases (leb max_reconcile_repetitions n)) [
      | inl reached ↦
          rw (again, reached, b, a)
            (inl (record {
              free = refl;
              no_runs = refl;
              kept = λ u. inr (ground arith, ground (arith, reached, limited));
            }))
      | inr below ↦
          rw (again, below, b, a)
            (inr (record {
              taken = busy.taken;
              phase = starting (suc n);
              one_run = refl;
              limited = ground (arith, below);
              remembers = tt;
            }))
    ]
  ]

Step-Orderly : {s t : System} → Step s t → IsIdle s ⊎ IsBusy s → IsIdle t ⊎ IsBusy t
unfolding clear_pending
Step-Orderly (on_trigger s) h = trigger-Orderly s h
Step-Orderly (on_clear s before after n e) (inl idle) =
    absurd (none before after (starting n) (rw idle.no_runs at e))
Step-Orderly (on_clear s before after n e) (inr busy) =
    let (b, a, same) = only before after (starting n) busy.phase (rw busy.one_run at e) in
    inr (record {
      taken = busy.taken;
      phase = clear n;
      one_run = rw (b, a) refl;
      limited = rw same at busy.limited;
      remembers = tt;
    })
Step-Orderly (on_read s before after n e) (inl idle) =
    absurd (none before after (clear n) (rw idle.no_runs at e))
Step-Orderly (on_read s before after n e) (inr busy) =
    let (b, a, same) = only before after (clear n) busy.phase (rw busy.one_run at e) in
    inr (record {
      taken = busy.taken;
      phase = reconciling n;
      one_run = rw (b, a) refl;
      limited = rw same at busy.limited;
      remembers = λ u. absurd (cc u);
    })
Step-Orderly (on_end s before after n failed e) (inl idle) =
    absurd (none before after (reconciling n) (rw idle.no_runs at e))
Step-Orderly (on_end s before after n failed e) (inr busy) =
    let (b, a, same) = only before after (reconciling n) busy.phase (rw busy.one_run at e) in
    end-Orderly s before after n failed busy b a (rw same at busy.limited)
      (rw same at busy.remembers)

Reaches-Orderly : {s : System} → Reaches initial s → IsIdle s ⊎ IsBusy s
Reaches-Orderly here = inl (record { free = refl; no_runs = refl; kept = λ u. absurd (cc u) })
Reaches-Orderly (next r st) = Step-Orderly st (Reaches-Orderly r)

-- In every interleaving, at most one reconciliation runs at a time, and none is repeated more often
-- than the limit allows.
pub Reaches-one_run :
    (s : System)
    → Reaches initial s
    → (length s.runs ≤ 1) × All (λ p. repetitions_of p ≤ max_reconcile_repetitions) s.runs
Reaches-one_run s r = elim (Reaches-Orderly r) [
  | inl idle ↦ rw idle.no_runs (omega arith, tt)
  | inr busy ↦ rw busy.one_run (omega arith, (busy.limited, tt))
]

-- In every interleaving, when no reconciliation runs, each trigger has been followed by a
-- reconciliation that read its input after it, unless a trigger is still pending and the reconciliation
-- that ended last failed, or a trigger was dropped and the one that ended last had been repeated as often
-- as the limit allows.
pub Reaches-seen :
    (s : System) → Reaches initial s → s.runs ≡ [] → (s.unseen ≡ false) ⊎ WaitsOrDropped s
Reaches-seen s r quiet = elim (Reaches-Orderly r) [
  | inl idle ↦ elim (Bool-cases s.unseen) [ inl u ↦ inr (idle.kept u) | inr seen ↦ inl seen ]
  | inr busy ↦ absurd (cc (quiet, busy.one_run))
]
