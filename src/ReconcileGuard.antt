-- ===== src/ReconcileGuard.antt =====
-- internal/util/reconcile_guard.go: the guard that serializes reconciliations, and the goroutines
-- that call its Run, as a step relation. A step is what happens under the lock of the guard, or the
-- moment at which a reconciliation reads its input.
pub mod Interleavings
pub mod Tests
use dash0_operator.Base.{
  ℕ, suc, ◌≤◌, ◌≡◌, Bool, true, false, not, ◌&&◌, ◌||◌, List, [], ◌∷◌, ◌++◌, leb, if◌then◌else◌,
}

abbrev pub max_reconcile_repetitions : ℕ
max_reconcile_repetitions = 5

pub record ReconcileGuard : Type 0 where
  pub running : Bool
  pub pending : Bool

pub acquire : ReconcileGuard → Bool × ReconcileGuard
acquire g =
    if g.running then (false, record g { pending = true }) else (true, record g { running = true })

pub clear_pending : ReconcileGuard → ReconcileGuard
clear_pending g = record g { pending = false }

-- Released, and whether a trigger has been dropped.
pub release_unless_pending : ReconcileGuard → Bool → Bool → (Bool × Bool) × ReconcileGuard
release_unless_pending g failed repetition_limit_reached =
    if not failed && g.pending
    then (if not repetition_limit_reached
        then ((false, false), g)
        else ((true, true), record { running = false; pending = false }))
    else ((true, false), record g { running = false })

-- Where a call of Run stands in its loop, with the number of repetitions: before clearPending,
-- before reconcile reads its input, and before releaseUnlessPending.
pub data Phase : Type 0 where
  starting clear reconciling : ℕ → Phase

-- The guard and the calls of Run that are in their loop. `unseen` remembers that something has
-- triggered a reconciliation since one has read its input last, and `dropped` that the limit has
-- been reached since then. `last_failed` and `last_repetitions` are how the reconciliation ended that ended
-- last, whatever the guard has made of it.
pub record System : Type 0 where
  pub guard : ReconcileGuard
  pub runs : List Phase
  pub unseen : Bool
  pub dropped : Bool
  pub last_failed : Bool
  pub last_repetitions : ℕ

-- A call of Run enters its loop, or is skipped.
pub trigger : System → System
unfolding acquire
trigger s =
    let (acquired, g) = acquire s.guard in
    record s { guard = g; runs = if acquired then starting 0 ∷ s.runs else s.runs; unseen = true }

-- The end of one repetition, of the call between these other calls.
pub end_repetition : System → List Phase → List Phase → ℕ → Bool → System
unfolding release_unless_pending
end_repetition s before after repetitions failed =
    let ((released, trigger_dropped), g) =
      release_unless_pending s.guard failed (leb max_reconcile_repetitions repetitions) in
    record s {
      guard = g;
      runs = if released then before ++ after else before ++ starting (suc repetitions) ∷ after;
      dropped = s.dropped || trigger_dropped;
      last_failed = failed;
      last_repetitions = repetitions;
    }

pub data Step : System → System → Type 0 where
  on_trigger : (s : System) → Step s (trigger s)
  on_clear :
      (s : System) (before after : List Phase) (n : ℕ)
      → s.runs ≡ before ++ starting n ∷ after
      → Step s (record s { guard = clear_pending s.guard; runs = before ++ clear n ∷ after })
  on_read :
      (s : System) (before after : List Phase) (n : ℕ)
      → s.runs ≡ before ++ clear n ∷ after
      → Step s
          (record s { runs = before ++ reconciling n ∷ after; unseen = false; dropped = false })
  on_end :
      (s : System) (before after : List Phase) (n : ℕ) (failed : Bool)
      → s.runs ≡ before ++ reconciling n ∷ after
      → Step s (end_repetition s before after n failed)

pub data Reaches (s : System) : System → Type 0 where
  here : Reaches s s
  next : {t u : System} → Reaches s t → Step t u → Reaches s u

abbrev pub initial : System
initial = record {
  guard = record { running = false; pending = false };
  runs = [];
  unseen = false;
  dropped = false;
  last_failed = false;
  last_repetitions = 0;
}
