-- ===== src/Schedule/Policy.antt =====
-- What the calls of a reconcile of a schedule are asked to keep of the world. The properties are that of the
-- log (Schedule/Writes) and that of a lawful server (Schedule/System).
use entropyk.Base.{◌∷◌}
use entropyk.Go.{Std}
use entropyk.Kube.{ObjectKey}
use entropyk.Api.Experiment.{ChaosExperiment}
use entropyk.Api.Schedule.{ChaosSchedule}
use entropyk.Runtime.{World, Effect}
use entropyk.Calls
use entropyk.Cluster.{Cluster}
use entropyk.Schedule.Gate.{ScheduleReconciler}
use entropyk.Schedule.Looking.{Looks}
use entropyk.Schedule.Steps.{Step, IsRun, IsAllowed}

pub record Policy (c : Cluster) (std : Std) (r : ScheduleReconciler c std) (sched : ChaosSchedule)
    (I : World c.State → Type 0) : Type 0 where
  pub looks : Looks c std r I ⊥
  pub emitted :
      (e : Effect) (w : World c.State)
      → IsAllowed c std r sched e
      → I w
      → I (record w { log = e ∷ w.log })
  pub experiment :
      (key : ObjectKey) (w : World c.State)
      → I w
      → I (record w { state = (c.get_experiment key w.state).1 })
  pub time : (w : World c.State) → I w → I (record w { state = (c.now w.state).1 })
  pub created :
      (exp : ChaosExperiment) (w : World c.State)
      → IsRun c std r sched exp
      → I w
      → I (Calls.create_experiment c exp w).1
  pub written :
      (next : ChaosSchedule) (w : World c.State)
      → Step c sched next
      → I w
      → I (Calls.update_schedule_status c next w).1
