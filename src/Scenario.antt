-- ===== src/Scenario.antt =====
-- internal/scenario: the contract of a fault injection (scenario.go), and the pod-kill scenario
-- (podkill.go).
pub mod PodKill
use entropyk.Base.{String, Option}
use entropyk.Base.Text.{Dict}
use entropyk.Runtime.{Action}

pub record Target : Type 0 where
  pub name : String
  pub namespace : String
  pub kind : String
  pub labels : Dict

pub record ConditionProbe : Type 0 where
  pub kind : String
  pub status : String

pub record QueryProbe : Type 0 where
  pub query : String

pub record RecoveryProbe : Type 0 where
  pub condition : Option ConditionProbe
  pub query : Option QueryProbe

-- The interface `Scenario`, over the state of the surroundings.
pub record Scenario (S : Type 0) : Type 0 where
  pub inject : Target → Action S (Unit {0})
  pub revert : Target → Action S (Unit {0})
  pub recovery_probe : RecoveryProbe
