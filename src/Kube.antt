-- ===== src/Kube.antt =====
-- The fields of the Kubernetes API types (packages meta/v1, core/v1, apps/v1) that the program
-- reads or fills in, and the constants of those packages that it compares with.
use entropyk.Base.{ℤ, String, Option, List}
use entropyk.Base.Text.{Dict}
use entropyk.Go.{Time}

pub record ObjectMeta : Type 0 where
  pub namespace : String
  pub name : String
  pub resource_version : String
  pub labels : Dict
  pub annotations : Dict
  pub finalizers : List String
  pub owner_references : List String
  pub creation_timestamp : Time
  pub deletion_timestamp : Option Time

pub record ObjectKey : Type 0 where
  pub namespace : String
  pub name : String

pub record Condition : Type 0 where
  pub kind : String
  pub status : String
  pub reason : String
  pub message : String

pub record LabelSelectorRequirement : Type 0 where
  pub key : String
  pub operator : String
  pub values : List String

pub record LabelSelector : Type 0 where
  pub match_labels : Dict
  pub match_expressions : List LabelSelectorRequirement

-- The replica counts are `int32`.
pub record Deployment : Type 0 where
  pub metadata : ObjectMeta
  pub selector : Option LabelSelector
  pub conditions : List Condition
  pub available_replicas : ℤ
  pub unavailable_replicas : ℤ

pub record Pod : Type 0 where
  pub metadata : ObjectMeta
  pub phase : String

abbrev pub pod_running : String
pod_running = "Running"

abbrev pub deployment_available : String
deployment_available = "Available"

abbrev pub condition_true : String
condition_true = "True"
