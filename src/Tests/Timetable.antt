-- ===== src/Tests/Timetable.antt =====
-- An API server that keeps its promises of a schedule, and two reconciles at it.
use entropyk.Base.{
  ℕ, suc, pos, String, ◌<>◌, str_eq, eq_iff, Bool-cases, List, [], ◌∷◌, ◌≡◌, ◌≢◌, ◌⊎◌, inl, inr,
  refl, ap, arith, if◌then◌else◌,
}
use entropyk.Go.{Result, ok, err, errorf}
use entropyk.Kube.{ObjectKey}
use entropyk.Api.Schedule.{ChaosSchedule}
use entropyk.Runtime.{panicked, monad}
use entropyk.Cluster.{Cluster}
use entropyk.Safeguard.Interfaces.{AlertChecker, MetricsQuerier}
use entropyk.Schedule.Gate.{
  ScheduleReconciler, check_safeguards, check_replicas, check_alerts, check_slo, replica_gate,
}
use entropyk.Safeguard.Watcher.{needs_replica_check}
use entropyk.Schedule.Firing.{
  reconcile_idle, fire_or_wait, last_run, create_experiment, by_gate, start_run, note_run, new_run,
  run_started,
}
use entropyk.Calls.{perform, now}
use entropyk.Schedule.Reconcile.{by_phase, reconcile_found, reconcile}
use entropyk.Schedule.Invariant.{Inv}
use entropyk.Schedule.Server.{Store, Drifts, Accepts, LawfulServer}
use entropyk.Schedule.System.{Reaches, begun, reconciled, Reaches-IsSound_schedule}
use entropyk.Tests.Versions.{IsNew, Distinct, Among, Among-unique, new?, beside}
use entropyk.Tests.Fixtures.{cluster, std, nightly, web, fresh}

abbrev version : ChaosSchedule → String
version e = e.metadata.resource_version

-- The versions, newest first, and how many of them came of a write of the status.
pub record Table : Type 0 where
  pub current : ChaosSchedule
  pub past : List ChaosSchedule
  pub distinct : Distinct version (current ∷ past)
  pub count : ℕ

abbrev next_version : Table → String
next_version s = version s.current <> "'"

-- A write of the status of `e`, if there is a version left for it.
unfoldable put :
    (e : ChaosSchedule) (s : Table)
    → IsNew version (next_version s) (s.current ∷ s.past) ⊎ Unit {0}
    → Result ChaosSchedule × Table
put e s (inr full) = (err (errorf "no version left"), s)
put e s (inl free) =
    let e' : ChaosSchedule = record s.current {
      metadata = record s.current.metadata { resource_version = next_version s };
      status = e.status;
    } in
    (
      ok e',
      record {
        current = e';
        past = s.current ∷ s.past;
        distinct = (free, s.distinct);
        count = suc s.count;
      },
    )

unfoldable put_at : ChaosSchedule → Table → Result ChaosSchedule × Table
unfolding new? put
put_at e s =
    if str_eq (version e) (version s.current)
    then put e s (new? version (next_version s) (s.current ∷ s.past))
    else (err (errorf "conflict"), s)

abbrev table_cluster : Cluster
table_cluster = record {
  State = Table;
  Selector = Unit {0};
  Location = Unit {0};
  Cron = ℕ;
  get_experiment = λ k s. (ok fresh, s);
  get_schedule = λ k s. (ok s.current, s);
  get_deployment = λ k s. (ok web, s);
  list_pods = λ ns selector s. (ok [], s);
  list_schedules = λ s. (ok (s.current ∷ []), s);
  update_experiment = λ e s. (ok e, s);
  update_experiment_status = λ e s. (ok e, s);
  update_schedule_status = put_at;
  create_experiment = λ e s. (ok e, s);
  delete_pod = λ p s. (ok tt, s);
  now = λ s. (pos 9_000_000_000, s);
  shuffle = λ n s. ([], s);
  label_selector_as_selector = cluster.label_selector_as_selector;
  set_controller_reference = cluster.set_controller_reference;
  load_location = cluster.load_location;
  parse_cron = cluster.parse_cron;
  cron_next = cluster.cron_next;
  sprintf = cluster.sprintf;
}

abbrev no_backends : ScheduleReconciler table_cluster std
no_backends = record {
  new_alert_checker = λ url. err (errorf "no backend");
  new_metrics_querier = λ url. err (errorf "no backend");
}

abbrev tables : Store Table
tables = record {
  stored = λ s. s.current;
  Seen = λ s e. Among e (s.current ∷ s.past);
  writes = λ s. s.count;
}

still : (s : Table) → Drifts tables s s
still s = record {
  same_status = refl;
  count = refl;
  news = λ e seen. inl seen;
  kept = λ e seen. seen;
}

put-Accepts :
    (next : ChaosSchedule) (s : Table)
    (free : IsNew version (next_version s) (s.current ∷ s.past) ⊎ Unit {0})
    → version next ≡ version s.current
    → Drifts tables s (put next s free).1 ⊎ Accepts tables next s (put next s free).1
unfolding put
put-Accepts next s (inr full) match = inl (still s)
put-Accepts next s (inl free) match = inr (record {
  current = match;
  new_status = refl;
  count = refl;
  news = λ x seen. elim seen [ inl new ↦ inr (ap (λ o. o.status) new) | inr old ↦ inl old ];
  kept = λ x seen. inr seen;
})

written :
    (next : ChaosSchedule) (s : Table)
    → Drifts tables s (put_at next s).1 ⊎ Accepts tables next s (put_at next s).1
unfolding put_at
written next s = elim (Bool-cases (str_eq (version next) (version s.current))) [
  | inl match ↦
      rw match (put-Accepts next s _ ((eq_iff (version next) (version s.current)).0 match))
  | inr other ↦ rw other (inl (still s))
]

abbrev nightly_key : ObjectKey
nightly_key = record { namespace = "shop"; name = "nightly" }

read :
    (s : Table) (e : ChaosSchedule)
    → (table_cluster.get_schedule nightly_key s).0 ≡ ok e
    → e ≡ s.current
read s e found = ground arith

no_checker : (checker : AlertChecker Table) → err (errorf "no backend") ≡ ok checker → ⊥
no_checker checker built = cc

no_querier : (querier : MetricsQuerier Table std.Float) → err (errorf "no backend") ≡ ok querier → ⊥
no_querier querier built = cc

abbrev table_server : LawfulServer table_cluster std no_backends nightly_key
table_server = record {
  store = tables;
  latest = λ s. inl refl;
  unique = λ s e e' seen seen' match.
      Among-unique version e e' (s.current ∷ s.past) s.distinct seen seen' match;
  read = λ s e found. inl (read s e found);
  reading = λ s. still s;
  experiment = λ k s. still s;
  deployment = λ k s. still s;
  time = λ s. still s;
  created_run = λ e s. still s;
  alerts = λ url checker labels w built. absurd (no_checker checker built);
  metrics = λ url query querier w built. absurd (no_querier querier built);
  written = written;
}

abbrev empty_table : Table
empty_table = record { current = nightly; past = []; distinct = (tt, tt); count = 0 }

abbrev after : Table → Table
after s =
    (reconcile table_cluster std no_backends nightly_key (record { state = s; log = [] })).1.state

once : Reaches table_cluster std no_backends nightly_key table_server nightly (after empty_table)
once =
    reconciled empty_table (
      begun empty_table refl refl
        λ e seen. elim seen [ inl same ↦ same | inr other ↦ absurd other ])

-- The run that is due is started.
once-written : (after empty_table).count ≡ 1
unfolding reconcile reconcile_found by_phase reconcile_idle fire_or_wait last_run create_experiment
    check_safeguards check_replicas check_alerts check_slo replica_gate needs_replica_check by_gate
    start_run note_run new_run run_started perform now monad put_at put new? beside
once-written = refl

Reaches-IsSound_schedule_example :
    Inv (after empty_table).count (after empty_table).current
    × ((reconcile table_cluster std no_backends nightly_key
          (record { state = after empty_table; log = [] })).0
        ≢ panicked)
Reaches-IsSound_schedule_example =
    Reaches-IsSound_schedule table_cluster std no_backends nightly_key table_server
      {first = nightly} refl once (omega (arith, once-written))
