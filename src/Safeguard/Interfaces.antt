-- ===== src/Safeguard/Interfaces.antt =====
-- internal/safeguard/alerts.go and metrics.go: the interfaces of the two backends.
use entropyk.Base.{String, List}
use entropyk.Base.Text.{Dict}
use entropyk.Go.{Time, Duration}
use entropyk.Runtime.{Action}

pub record Alert : Type 0 where
  pub name : String
  pub labels : Dict

pub record AlertChecker (S : Type 0) : Type 0 where
  pub check_alerts : Dict → Action S (List Alert)

pub record DataPoint (F : Type 0) : Type 0 where
  pub time : Time
  pub value : F

pub record MetricsQuerier (S F : Type 0) : Type 0 where
  pub instant_query : String → Action S F
  pub range_query : String → Time → Time → Duration → Action S (List (DataPoint F))
