-- ===== src/Safeguard/Agreement.antt =====
-- The check before a run and the watcher judge by the same rules.
use entropyk.Base.{Bool, true, false, not, ◌≡◌, arith}
use entropyk.Kube.{Deployment}
use entropyk.Api.Experiment.{no_code, is_code}
use entropyk.Api.Schedule.{Safeguards}
use entropyk.Safeguard.Watcher.{Verdict, judge_replicas}
use entropyk.Schedule.Gate.{Gate, safe, unsafe, replica_gate}

abbrev pub is_safe : Gate → Bool
is_safe safe = true
is_safe (unsafe _) = false

-- The replica counts of a deployment let a run start exactly when the watcher, which has found
-- nothing before, would not halt the run for them.
pub replica_gate-judge_replicas :
    (sg : Safeguards) (dep : Deployment) (v : Verdict)
    → v.code ≡ no_code
    → is_safe (replica_gate sg dep) ≡ not (is_code (judge_replicas sg dep v).code)
unfolding replica_gate judge_replicas
replica_gate-judge_replicas sg dep v clear = ground arith
