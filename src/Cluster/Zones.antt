-- ===== src/Cluster/Zones.antt =====
-- internal/util/cluster/zone_coverage.go: the reporter that warns when a workload has fewer replicas than
-- the cluster has availability zones. Times count nanoseconds; what the API server lists is an input.
-- The number of zones stays below 31 bits.
pub mod Alert
use dash0_operator.Base.{
  ℕ, ◌+◌, ◌*◌, String, Bool, true, false, not, ◌&&◌, Option, none, some, List, [], ◌∷◌, ◌++◌,
  length, contains, ◌==◌, if◌then◌else◌, ltb, nat_eq,
}

-- ZoneCoverageCheckInterval, 30 minutes
abbrev pub check_interval : ℕ
check_interval = 1800000000000

pub record ZoneCoverageState : Type 0 where
  pub checked_at : ℕ
  pub zone_count : ℕ
  pub replica_count : ℕ
  pub warned : Bool

pub data ZoneMessage : Type 0 where
  warn resolved : ℕ → ℕ → ZoneMessage

abbrev pub was_warned : Option ZoneCoverageState → Bool
was_warned none = false
was_warned (some s) = s.warned

abbrev pub is_insufficient : ℕ → ℕ → Bool
is_insufficient zone_count replica_count = ltb 1 zone_count && ltb replica_count zone_count

abbrev has_counts : Option ZoneCoverageState → ℕ → ℕ → Bool
has_counts none zone_count replica_count = false
has_counts (some s) zone_count replica_count =
    nat_eq s.zone_count zone_count && nat_eq s.replica_count replica_count

-- The new state and what is logged.
unfoldable pub report : Option ZoneCoverageState → ℕ → ℕ → ℕ → ZoneCoverageState × List ZoneMessage
report previous zone_count replica_count checked_at = (
  record {
    checked_at = checked_at;
    zone_count = zone_count;
    replica_count = replica_count;
    warned = is_insufficient zone_count replica_count;
  },
  if is_insufficient zone_count replica_count
      then (if was_warned previous && has_counts previous zone_count replica_count
          then []
          else warn zone_count replica_count ∷ [])
      else if was_warned previous
      then resolved zone_count replica_count ∷ []
      else [],
)

-- The zones that the labels of the nodes name, each once.
unfoldable pub zones_of : List String → List String
zones_of [] = []
zones_of (zone ∷ nodes) =
    let rest = zones_of nodes in
    if zone == "" then rest else if contains rest zone then rest else zone ∷ rest

is_too_early : Option ZoneCoverageState → ℕ → ℕ → Bool
is_too_early none replica_count now = false
is_too_early (some s) replica_count now =
    nat_eq s.replica_count replica_count && ltb now (s.checked_at + check_interval)

-- A call of Report: the number of replicas, the time, and the zone labels of the nodes, or none where
-- they could not be listed.
pub record Call : Type 0 where
  pub replica_count : ℕ
  pub now : ℕ
  pub node_zones : Option (List String)

report_nodes :
    Option ZoneCoverageState
    → Call
    → Option (List String)
    → Option ZoneCoverageState × List ZoneMessage
report_nodes previous c none = (previous, [])
report_nodes previous c (some zones) =
    let (state, messages) = report previous (length (zones_of zones)) c.replica_count c.now in
    (some state, messages)

unfoldable pub report_call :
    Option ZoneCoverageState → Call → Option ZoneCoverageState × List ZoneMessage
unfolding is_too_early report_nodes
report_call previous c =
    if is_too_early previous c.replica_count c.now
    then (previous, [])
    else report_nodes previous c c.node_zones

-- Calls one after the other.
unfoldable pub report_calls :
    Option ZoneCoverageState → List Call → Option ZoneCoverageState × List ZoneMessage
report_calls previous [] = (previous, [])
report_calls previous (c ∷ calls) =
    let (state, messages) = report_call previous c in
    let (final, more) = report_calls state calls in (final, messages ++ more)
