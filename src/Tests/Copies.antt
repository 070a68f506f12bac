-- ===== src/Tests/Copies.antt =====
-- The generated copies at a concrete package meta/v1.
use entropyk.Base.{pos, String, none, some, [], ◌∷◌, ◌≡◌, refl, arith}
use entropyk.Go.{Time}
use entropyk.Kube.{ObjectMeta, LabelSelector, Condition}
use entropyk.Api.Experiment as Api
use entropyk.Memory.{deep_copy, plain, run-IsDeep}
use entropyk.Memory.Deep.{plain-IsDeep, ptr-IsDeep}
use entropyk.Memory.Fresh.{IsBelow}
use entropyk.Copy.Meta.{Meta, IsMeta}
use entropyk.Copy.Experiment.{Scenario}
use entropyk.Copy.Objects.{ChaosExperiment}
use entropyk.Copy.Interface.{Object, experiment, cells_object, deep_copy_object}
use entropyk.Copy.Deep.Interface.{IsCopyOf, deep_copy_object-IsCopyOf}
use entropyk.Copy.Deep.Types.{AreCopies, deep_copy-AreCopies}
use entropyk.Tests.Fixtures.{meta}

abbrev v1 : Meta
v1 = record {
  TypeMeta = String;
  ListMeta = String;
  Metadata = ObjectMeta;
  Selector = LabelSelector;
  Status = Condition;
  list_meta = plain String;
  object_meta = plain ObjectMeta;
  label_selector = plain LabelSelector;
  condition = plain Condition;
  time_deep_copy = λ p. deep_copy (plain Time) (some p);
}

v1-IsMeta : IsMeta v1
v1-IsMeta = record {
  list_meta-IsDeep = plain-IsDeep;
  object_meta-IsDeep = plain-IsDeep;
  label_selector-IsDeep = plain-IsDeep;
  condition-IsDeep = plain-IsDeep;
  time-IsDeepAt = λ p n. run-IsDeep (ptr-IsDeep plain-IsDeep) (some p) n;
}

-- An experiment in memory: at 3, with pointers at 0, 1, 2, 4 and 5.
abbrev kill : Scenario
kill = record {
  kind = Api.pod_kill;
  duration = pos 60;
  pod_kill = some (1, record { count = pos 2; interval = some (2, pos 5) });
}

abbrev stored : ChaosExperiment v1
stored = record {
  type_meta = "ChaosExperiment";
  metadata = meta "blast";
  spec = record {
    target = record { kind = "Deployment"; name = some (0, "cart"); selector = none };
    scenarios = some (4, kill ∷ []);
    execution = none;
  };
  status = record {
    conditions = none;
    phase = Api.running;
    metrics = none;
    current_scenario_index = pos 0;
    injected_at = some (5, pos 100);
    recovered_at = none;
    halt_reason = none;
  };
}

abbrev object : Object v1
object = experiment (3, stored)

object-IsBelow : IsBelow 6 (cells_object v1 object)
object-IsBelow a s = ground (arith, s)

copy_addresses :
    cells_object v1 object
    ≡ some 3
      ∷ some 0
      ∷ none
      ∷ some 4
      ∷ some 1
      ∷ some 2
      ∷ none
      ∷ none
      ∷ none
      ∷ some 5
      ∷ none
      ∷ none
      ∷ []
copy_addresses = refl

deep_copy_object-IsCopyOf_example : IsCopyOf object (deep_copy_object v1 object 6)
deep_copy_object-IsCopyOf_example = deep_copy_object-IsCopyOf v1-IsMeta object 6 object-IsBelow

deep_copy-AreCopies_example : AreCopies v1
deep_copy-AreCopies_example = deep_copy-AreCopies v1-IsMeta
