-- ===== src/Cluster/Zones/Alert.antt =====
-- internal/util/cluster/zone_coverage.go: the reporter as an alert that is raised and cleared.
use dash0_operator.Base.{
  ℕ, ◌+◌, ◌*◌, ◌<◌, ◌≤◌, String, Bool, true, false, ◌&&◌, Option, none, some, List, [], ◌∷◌, ◌++◌,
  length, ◌≡◌, ◌≢◌, ◌⊎◌, ◌↔◌, refl, arith, Bool-cases, inl, inr, nat_eq, if◌then◌else◌, eq_iff,
}
use dash0_operator.Base.Members.{In, IsDistinct, contains_iff}
use dash0_operator.Cluster.Zones.{
  ZoneCoverageState, ZoneMessage, warn, resolved, is_insufficient, report, zones_of, Call,
  is_too_early, report_nodes, report_call, report_calls,
}

-- An alert that is raised for a number of zones and of replicas, or is not raised.
pub data Alert : Type 0 where
  clear : Alert
  raised : ℕ → ℕ → Alert

-- There are several zones, and too few replicas for them.
abbrev pub IsUncovered : ℕ → ℕ → Type 0
IsUncovered zones replicas = (1 < zones) × (replicas < zones)

-- What a check that finds these counts makes of the alert, and what it says.
pub data Says (zones replicas : ℕ) : Alert → List ZoneMessage → Alert → Type 0 where
  raises :
      (a : Alert)
      → IsUncovered zones replicas
      → a ≢ raised zones replicas
      → Says zones replicas a (warn zones replicas ∷ []) (raised zones replicas)
  stays_raised :
      IsUncovered zones replicas
      → Says zones replicas (raised zones replicas) [] (raised zones replicas)
  clears :
      (z r : ℕ)
      → ¬ (IsUncovered zones replicas)
      → Says zones replicas (raised z r) (resolved zones replicas ∷ []) clear
  stays_clear : ¬ (IsUncovered zones replicas) → Says zones replicas clear [] clear

-- There are as many different names among these labels, the empty one aside.
abbrev pub CountsZones : List String → ℕ → Type 0
CountsZones labels n =
    (names : List String) × (length names ≡ n)
    × IsDistinct names
    × ((z : String) → In z names ↔ (In z labels × (z ≢ "")))

-- The alert, with the time of the last check and the replicas that it was for.
pub record Watch : Type 0 where
  pub alert : Alert
  pub last : Option (ℕ × ℕ)

abbrev pub thirty_minutes : ℕ
thirty_minutes = 30 * 60 * 1000000000

-- A check is due at a call: it is the first, or for other replicas, or thirty minutes are over.
abbrev pub IsDue : Option (ℕ × ℕ) → Call → Type 0
IsDue none c = Unit
IsDue (some (at, replicas)) c = (replicas ≢ c.replica_count) ⊎ (at + thirty_minutes ≤ c.now)

-- What a call makes of the watch, and what it says.
pub data Reports (w : Watch) (c : Call) : List ZoneMessage → Watch → Type 0 where
  skips : ¬ (IsDue w.last c) → Reports w c [] w
  fails : c.node_zones ≡ none → Reports w c [] w
  checks :
      (labels : List String) (zones : ℕ) (said : List ZoneMessage) (b : Alert)
      → IsDue w.last c
      → c.node_zones ≡ some labels
      → CountsZones labels zones
      → Says zones c.replica_count w.alert said b
      → Reports w c said (record { alert = b; last = some (c.now, c.replica_count) })

-- Calls one after the other.
pub data Tells : Watch → List Call → List ZoneMessage → Watch → Type 0 where
  ends : {w : Watch} → Tells w [] [] w
  goes_on :
      {u v w : Watch} {c : Call} {calls : List Call} {said more : List ZoneMessage}
      → Reports u c said v
      → Tells v calls more w
      → Tells u (c ∷ calls) (said ++ more) w

alert_if : Bool → ℕ → ℕ → Alert
alert_if true zones replicas = raised zones replicas
alert_if false zones replicas = clear

-- The watch that a state of the reporter stands for.
unfoldable pub watch_of : Option ZoneCoverageState → Watch
unfolding alert_if
watch_of none = record { alert = clear; last = none }
watch_of (some s) = record {
  alert = alert_if s.warned s.zone_count s.replica_count;
  last = some (s.checked_at, s.replica_count);
}

is_insufficient_iff :
    (zones replicas : ℕ) → (is_insufficient zones replicas ≡ true) ↔ IsUncovered zones replicas
is_insufficient_iff zones replicas = (λ h. ground (arith, h), λ h. ground (arith, h))

not-IsUncovered :
    (zones replicas : ℕ) → is_insufficient zones replicas ≡ false → ¬ (IsUncovered zones replicas)
not-IsUncovered zones replicas e u = cc (e, (is_insufficient_iff zones replicas).1 u)

-- The messages of a check, by the counts of the last warning, if one is active.
said : Bool → ℕ → ℕ → ℕ → ℕ → List ZoneMessage
said was z r zones replicas =
    if is_insufficient zones replicas
    then (if was && (nat_eq z zones && nat_eq r replicas) then [] else warn zones replicas ∷ [])
    else if was
    then resolved zones replicas ∷ []
    else []

alert_if-Says :
    (was : Bool) (z r zones replicas : ℕ)
    → Says zones replicas
        (alert_if was z r)
        (said was z r zones replicas)
        (alert_if (is_insufficient zones replicas) zones replicas)
unfolding alert_if said
alert_if-Says true z r zones replicas = elim (Bool-cases (is_insufficient zones replicas)) [
  | inr e ↦ rw e (clears z r (not-IsUncovered zones replicas e))
  | inl e ↦
      let u = (is_insufficient_iff zones replicas).0 e in
      elim (Bool-cases (nat_eq z zones && nat_eq r replicas)) [
        | inl k ↦
            let first : z ≡ zones = ground (arith, k) in
            let second : r ≡ replicas = ground (arith, k) in
            rw (e, k, first, second) (stays_raised u)
        | inr k ↦ rw (e, k) (raises (raised z r) u (λ same. ground (arith, k, same)))
      ]
]
alert_if-Says false z r zones replicas = elim (Bool-cases (is_insufficient zones replicas)) [
  | inr e ↦ rw e (stays_clear (not-IsUncovered zones replicas e))
  | inl e ↦ rw e (raises clear ((is_insufficient_iff zones replicas).0 e) (λ same. cc same))
]

zones_of-In :
    (labels : List String) (z : String) → In z (zones_of labels) ↔ (In z labels × (z ≢ ""))
unfolding zones_of
zones_of-In [] z = (λ h. absurd h, λ h. h.0)
zones_of-In (label ∷ labels) z =
    ground (arith, zones_of-In labels z, eq_iff label "", contains_iff (zones_of labels) label)

zones_of-IsDistinct : (labels : List String) → IsDistinct (zones_of labels)
unfolding zones_of
zones_of-IsDistinct [] = tt
zones_of-IsDistinct (label ∷ labels) =
    ground (arith, zones_of-IsDistinct labels, contains_iff (zones_of labels) label)

zones_of-CountsZones : (labels : List String) → CountsZones labels (length (zones_of labels))
zones_of-CountsZones labels =
    (zones_of labels, refl, zones_of-IsDistinct labels, zones_of-In labels)

early-not-IsDue :
    (previous : Option ZoneCoverageState) (c : Call)
    → is_too_early previous c.replica_count c.now ≡ true
    → ¬ (IsDue (watch_of previous).last c)
unfolding is_too_early watch_of
early-not-IsDue none c e due = cc e
early-not-IsDue (some s) c e (inl differ) = differ (ground (arith, e))
early-not-IsDue (some s) c e (inr over) = ground (arith, e, over)

late-IsDue :
    (previous : Option ZoneCoverageState) (c : Call)
    → is_too_early previous c.replica_count c.now ≡ false
    → IsDue (watch_of previous).last c
unfolding is_too_early watch_of
late-IsDue none c e = tt
late-IsDue (some s) c e = elim (Bool-cases (nat_eq s.replica_count c.replica_count)) [
  | inr differ ↦ inl (λ same. ground (arith, differ, same))
  | inl same ↦ inr (ground (arith, e, same))
]

report-Says :
    (previous : Option ZoneCoverageState) (zones replicas now : ℕ)
    → Says zones replicas
        (watch_of previous).alert
        (report previous zones replicas now).1
        (alert_if (is_insufficient zones replicas) zones replicas)
unfolding report watch_of said
report-Says none zones replicas now = alert_if-Says false 0 0 zones replicas
report-Says (some s) zones replicas now =
    alert_if-Says s.warned s.zone_count s.replica_count zones replicas

report_nodes-Reports :
    (previous : Option ZoneCoverageState) (c : Call) (nodes : Option (List String))
    → c.node_zones ≡ nodes
    → IsDue (watch_of previous).last c
    → Reports
        (watch_of previous)
        c
        (report_nodes previous c nodes).1
        (watch_of (report_nodes previous c nodes).0)
unfolding report_nodes report watch_of
report_nodes-Reports previous c none k due = fails k
report_nodes-Reports previous c (some labels) k due =
    let zones = length (zones_of labels) in
    checks labels zones _ _ due k (zones_of-CountsZones labels)
      (report-Says previous zones c.replica_count c.now)

report_call-Reports :
    (previous : Option ZoneCoverageState) (c : Call)
    → Reports (watch_of previous) c (report_call previous c).1 (watch_of (report_call previous c).0)
unfolding report_call
report_call-Reports previous c = elim (Bool-cases (is_too_early previous c.replica_count c.now)) [
  | inl e ↦ rw e (skips (early-not-IsDue previous c e))
  | inr e ↦ rw e (report_nodes-Reports previous c c.node_zones refl (late-IsDue previous c e))
]

-- The reporter refines a watch over an alert: whatever calls it gets, at whatever times and with whatever
-- nodes, what it logs is what the watch tells for these calls, and its last state stands for the last
-- watch. A call checks the zones if it is the first to do so, has other replicas than the last check or
-- comes thirty minutes after it or later, and the nodes can be listed. A check counts the different zones that
-- the nodes name. It warns when there are several zones and fewer replicas than zones, unless the alert is
-- raised for these counts, and reports a raised alert as resolved otherwise.
pub report_calls-Tells :
    (previous : Option ZoneCoverageState) (calls : List Call)
    → Tells
        (watch_of previous)
        calls
        (report_calls previous calls).1
        (watch_of (report_calls previous calls).0)
unfolding report_calls
report_calls-Tells previous [] = ends
report_calls-Tells previous (c ∷ calls) =
    goes_on (report_call-Reports previous c) (report_calls-Tells (report_call previous c).0 calls)
