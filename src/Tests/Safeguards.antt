-- ===== src/Tests/Safeguards.antt =====
-- The theorems on the safeguards at concrete data.
use entropyk.Base.{
  ℕ, pos, String, not, true, none, some, List, [], ◌∷◌, All, map, select, ◌≡◌, ◌≢◌, ◌↔◌, ◌⊎◌, refl,
  arith, ◌+ℤ◌, ◌*ℤ◌,
}
use entropyk.Base.Text.{Dict, lookup, lookup_or_empty}
use entropyk.Go.{ok, err, errorf, Error, from_unix}
use entropyk.Kube.{Deployment}
use entropyk.Api.Experiment.{
  code_text, annotation_halt_code, annotation_halt_reason, no_code, replica_min, is_code,
}
use entropyk.Runtime.{World, Fine, returned, ◌>>=◌}
use entropyk.Experiment.Reconcile.{clear_annotations}
use entropyk.Safeguard.Interfaces.{DataPoint}
use entropyk.Safeguard.Http.{Url, Web, parse_base_url}
use entropyk.Safeguard.Alertmanager.{AmAlert, is_match, to_alert, filter_alerts}
use entropyk.Safeguard.Prometheus.{Decoder, data_points, data_point, sample_value}
use entropyk.Safeguard.Watcher.{
  Failures, Verdict, Watcher, failures_of, annotated, judge_replicas, settle, check_all,
}
use entropyk.Safeguard.Patience.{
  IsTolerable, IsCounted, settle_all, asked, settle_all-patient, settle_all-exhausted,
}
use entropyk.Safeguard.Agreement.{is_safe, replica_gate-judge_replicas}
use entropyk.Safeguard.Halting.{clear_annotations-annotated}
use entropyk.Safeguard.Writes.{IsAllowed, backends_of, check_all-IsAllowed}
use entropyk.Safeguard.Backends.{
  AreSamples, parse_base_url-ok, filter_alerts-IsMatch, data_points-AreSamples,
}
use entropyk.Schedule.Gate.{replica_gate}
use entropyk.Schedule.Quiet.{IsQuiet}
use entropyk.Tests.Fixtures.{Server, cluster, std, safeguards, web, server}
use entropyk.Tests.Controllers.{hit, busy, launched}

-- A watcher with no backends.
abbrev pub watcher : Watcher cluster std
watcher = record {
  failure_threshold = 3;
  new_alert_checker = λ url. err (errorf "no backend");
  new_metrics_querier = λ url. err (errorf "no backend");
}

watcher-IsQuiet : IsQuiet cluster std (backends_of watcher)
watcher-IsQuiet = record {
  alerts_quiet = λ P Q url checker labels built. cc;
  metrics_quiet = λ P Q url query querier built. cc;
}

abbrev pub thin : Deployment
thin = record web { available_replicas = pos 1 }

-- The target has one replica left, of at least two.
abbrev pub watched : World Server
watched = record { state = record (server hit launched) { deployment = thin }; log = [] }

check_all-IsAllowed_example :
    Fine (IsAllowed cluster std watcher) ⊥ (check_all cluster std watcher [] watched)
check_all-IsAllowed_example =
    check_all-IsAllowed cluster std watcher watcher-IsQuiet [] watched refl

abbrev timeout : Error
timeout = errorf "timeout"

abbrev failing : Verdict
failing = record { code = no_code; detail = ""; error = some timeout }

abbrev pub clear : Verdict
clear = record { code = no_code; detail = ""; error = none }

-- Two failures, a success and two failures.
abbrev ticks : List Verdict
ticks = failing ∷ failing ∷ clear ∷ failing ∷ failing ∷ []

ticks-IsTolerable : IsTolerable 3 ticks 0
ticks-IsTolerable = (
  refl,
  λ _. omega arith,
  (refl, λ _. omega arith, (refl, λ e. cc, (refl, λ _. omega arith, (refl, λ _. omega arith, tt)))),
)

settle_all-patient_example :
    (after : Failures) × (settle_all cluster std watcher "shop/nightly" hit ticks [] busy
      ≡ (returned after, busy))
    × IsCounted cluster std watcher "shop/nightly" hit 2 [] after
unfolding failures_of lookup
settle_all-patient_example =
    settle_all-patient cluster std watcher "shop/nightly" hit ticks [] 0 busy refl ticks-IsTolerable

settle_all-exhausted_example :
    ((settle_all cluster std watcher "shop/nightly" hit ticks []
        >>= settle cluster std watcher "shop/nightly" hit failing)
      busy).1.log
    ≡ asked cluster std watcher "shop/nightly" hit timeout busy
unfolding failures_of lookup
settle_all-exhausted_example =
    settle_all-exhausted cluster std watcher "shop/nightly" hit ticks failing {e = timeout} [] 0
      busy refl ticks-IsTolerable refl refl (omega arith)

clear_annotations-annotated_example :
    (lookup annotation_halt_reason (annotated hit replica_min "too few").metadata.annotations
      ≡ some "too few")
    × (lookup annotation_halt_code (annotated hit replica_min "too few").metadata.annotations
        ≡ some "replica-min")
    × (lookup "team" (clear_annotations (annotated hit replica_min "too few")).metadata.annotations
        ≡ none)
    × (record (clear_annotations (annotated hit replica_min "too few")) {
      metadata = record (clear_annotations (annotated hit replica_min "too few")).metadata {
        annotations = hit.metadata.annotations;
      };
    }
        ≡ hit)
unfolding code_text lookup
clear_annotations-annotated_example = clear_annotations-annotated "team" hit replica_min "too few"

replica_gate-judge_replicas_example :
    is_safe (replica_gate safeguards thin)
    ≡ not (is_code (judge_replicas safeguards thin clear).code)
replica_gate-judge_replicas_example = replica_gate-judge_replicas safeguards thin clear refl

-- A web whose URLs all have the host `prom` and whose bodies are three bytes.
abbrev pub internet : Web Server
internet = record {
  Request = Unit {0};
  Body = Unit {0};
  parse = λ raw. ok (record { scheme = "http"; host = "prom"; path = raw; raw_query = "" });
  join_path = λ u parts. u;
  encode = λ pairs. "";
  new_request = λ u. ok tt;
  set_header = λ name value r. r;
  send = λ r s. (ok (200, tt), s);
  read_limited = λ body n s. (ok (1 ∷ 2 ∷ 3 ∷ []), s);
  close = λ body s. s;
}

abbrev pub url : Url
url = record { scheme = "http"; host = "prom"; path = "/x"; raw_query = "" }

parse_base_url-ok_example : (parse_base_url internet std.quote "/x" ≡ ok url) ↔ (
    (internet.parse "/x" ≡ ok url)
    × ((url.scheme ≡ "http") ⊎ (url.scheme ≡ "https"))
    × (url.host ≢ ""))
parse_base_url-ok_example = parse_base_url-ok internet std.quote "/x" url

abbrev alerts : List AmAlert
alerts =
    record {
      labels = ("alertname", "HighLatency") ∷ ("severity", "critical") ∷ [];
      status = record { state = "active" };
    }
    ∷ record {
      labels = ("alertname", "HighLatency") ∷ ("severity", "critical") ∷ [];
      status = record { state = "suppressed" };
    }
    ∷ []

abbrev severe : Dict
severe = ("severity", "critical") ∷ []

filter_alerts-IsMatch_example :
    (filter_alerts severe alerts ≡ map to_alert (select (is_match severe) alerts))
    × ((a : AmAlert)
        → (is_match severe a ≡ true)
          ↔ ((a.status.state ≡ "active") × All (λ m. lookup_or_empty m.0 a.labels ≡ m.1) severe))
filter_alerts-IsMatch_example = filter_alerts-IsMatch severe alerts

-- Texts as raw values, of which "5" and "9" are numbers too.
abbrev pub json : Decoder ℕ
json = record {
  Raw = String;
  response = λ body. err (errorf "no response");
  string = λ raw. ok raw;
  number = std.parse_float;
}

abbrev samples : List (List String)
samples = ("5" ∷ "9" ∷ []) ∷ ("9" ∷ "5" ∷ []) ∷ []

abbrev points : List (DataPoint ℕ)
points =
    record { time = pos 62_135_596_805_000_000_000; value = 9 }
    ∷ record { time = pos 62_135_596_809_000_000_000; value = 5 }
    ∷ []

samples-points : data_points std json samples ≡ ok points
unfolding data_points data_point sample_value from_unix ◌+ℤ◌ ◌*ℤ◌
samples-points = refl

data_points-AreSamples_example : AreSamples std json samples points
data_points-AreSamples_example = data_points-AreSamples std json samples points samples-points
