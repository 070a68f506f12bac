-- ===== src/Copy/Schedule.antt =====
-- api/v1alpha1/chaosschedule_types.go and zz_generated.deepcopy.go: the types of a schedule with their
-- pointers, slices and maps, and the copies of them.
use entropyk.Base.{ℤ, String, Bool, none, some, [], ◌∷◌, ◌++◌}
use entropyk.Base.Text.{Dict}
use entropyk.Api.Schedule as Api
use entropyk.Memory.{
  Ptr, Slice, Alloc, pure, ◌>>=◌, new, Copying, plain, read_ptr, cells_ptr, read_slice, cells_slice,
  deep_copy, copy_slice,
}

unfoldable pub alert_source_deep_copy_into : Api.AlertSource → Alloc Api.AlertSource
alert_source_deep_copy_into s = pure s

abbrev pub alert_source : Copying Api.AlertSource Api.AlertSource
alert_source = record { read = λ s. s; cells = λ s. []; into = alert_source_deep_copy_into }

unfoldable pub alert_source_deep_copy : Ptr Api.AlertSource → Alloc (Ptr Api.AlertSource)
alert_source_deep_copy = deep_copy alert_source

unfoldable pub metrics_source_deep_copy_into : Api.MetricsSource → Alloc Api.MetricsSource
metrics_source_deep_copy_into s = pure s

abbrev pub metrics_source : Copying Api.MetricsSource Api.MetricsSource
metrics_source = record { read = λ s. s; cells = λ s. []; into = metrics_source_deep_copy_into }

unfoldable pub metrics_source_deep_copy : Ptr Api.MetricsSource → Alloc (Ptr Api.MetricsSource)
metrics_source_deep_copy = deep_copy metrics_source

unfoldable pub slo_query_deep_copy_into : Api.SloQuery → Alloc Api.SloQuery
slo_query_deep_copy_into q = pure q

abbrev pub slo_query : Copying Api.SloQuery Api.SloQuery
slo_query = record { read = λ q. q; cells = λ q. []; into = slo_query_deep_copy_into }

unfoldable pub slo_query_deep_copy : Ptr Api.SloQuery → Alloc (Ptr Api.SloQuery)
slo_query_deep_copy = deep_copy slo_query

pub record SloProtection : Type 0 where
  pub mode : Api.SloMode
  pub threshold : Ptr String
  pub queries : Slice Api.SloQuery

-- `copy(*out, *in)` assigns each query.
unfoldable pub slo_protection_deep_copy_into : SloProtection → Alloc SloProtection
slo_protection_deep_copy_into p = do
  threshold ← deep_copy (plain String) p.threshold
  queries ← copy_slice (plain Api.SloQuery) p.queries
  pure (record p { threshold = threshold; queries = queries })

abbrev pub slo_protection : Copying SloProtection Api.SloProtection
slo_protection = record {
  read = λ p. record {
    mode = p.mode;
    threshold = read_ptr (plain String) p.threshold;
    queries = read_slice (plain Api.SloQuery) p.queries;
  };
  cells = λ p. cells_ptr (plain String) p.threshold ++ cells_slice (plain Api.SloQuery) p.queries;
  into = slo_protection_deep_copy_into;
}

unfoldable pub slo_protection_deep_copy : Ptr SloProtection → Alloc (Ptr SloProtection)
slo_protection_deep_copy = deep_copy slo_protection

-- `for key, val := range *in { (*out)[key] = val }`: a key of a map comes once, so its assignment adds
-- an entry to `out`.
unfoldable pub fill : Dict → Dict → Dict
fill [] out = out
fill (entry ∷ dict) out = fill dict (out ++ entry ∷ [])

-- A map is nil, or an address with its entries.
unfoldable pub copy_map : Ptr Dict → Alloc (Ptr Dict)
copy_map none = pure none
copy_map (some (a, dict)) = do a' ← new; pure (some (a', fill dict []))

abbrev pub read_map : Ptr Dict → Dict
read_map none = []
read_map (some (a, dict)) = dict

abbrev pub labels : Copying (Ptr Dict) Dict
labels = record { read = read_map; cells = cells_ptr (plain Dict); into = copy_map }

pub record Safeguards : Type 0 where
  pub max_unavailable : Ptr ℤ
  pub min_replicas_available : Ptr ℤ
  pub alert_source : Ptr Api.AlertSource
  pub halt_on_alert_labels : Ptr Dict
  pub metrics_source : Ptr Api.MetricsSource
  pub slo_protection : Ptr SloProtection

unfoldable pub safeguards_deep_copy_into : Safeguards → Alloc Safeguards
safeguards_deep_copy_into s = do
  max_unavailable ← deep_copy (plain ℤ) s.max_unavailable
  min_available ← deep_copy (plain ℤ) s.min_replicas_available
  alerts ← deep_copy (plain Api.AlertSource) s.alert_source
  halt_on ← copy_map s.halt_on_alert_labels
  metrics ← deep_copy (plain Api.MetricsSource) s.metrics_source
  slo ← deep_copy slo_protection s.slo_protection
  pure (record s {
    max_unavailable = max_unavailable;
    min_replicas_available = min_available;
    alert_source = alerts;
    halt_on_alert_labels = halt_on;
    metrics_source = metrics;
    slo_protection = slo;
  })

abbrev pub safeguards : Copying Safeguards Api.Safeguards
safeguards = record {
  read = λ s. record {
    max_unavailable = read_ptr (plain ℤ) s.max_unavailable;
    min_replicas_available = read_ptr (plain ℤ) s.min_replicas_available;
    alert_source = read_ptr (plain Api.AlertSource) s.alert_source;
    halt_on_alert_labels = read_map s.halt_on_alert_labels;
    metrics_source = read_ptr (plain Api.MetricsSource) s.metrics_source;
    slo_protection = read_ptr slo_protection s.slo_protection;
  };
  cells = λ s.
      cells_ptr (plain ℤ) s.max_unavailable
      ++ cells_ptr (plain ℤ) s.min_replicas_available
      ++ cells_ptr (plain Api.AlertSource) s.alert_source
      ++ cells_ptr (plain Dict) s.halt_on_alert_labels
      ++ cells_ptr (plain Api.MetricsSource) s.metrics_source
      ++ cells_ptr slo_protection s.slo_protection;
  into = safeguards_deep_copy_into;
}

unfoldable pub safeguards_deep_copy : Ptr Safeguards → Alloc (Ptr Safeguards)
safeguards_deep_copy = deep_copy safeguards

pub record ChaosScheduleSpec : Type 0 where
  pub experiment_ref : String
  pub schedule : String
  pub timezone : String
  pub concurrency_policy : Api.ConcurrencyPolicy
  pub suspend : Bool
  pub safeguards : Ptr Safeguards

unfoldable pub chaos_schedule_spec_deep_copy_into : ChaosScheduleSpec → Alloc ChaosScheduleSpec
chaos_schedule_spec_deep_copy_into s = do
  g ← deep_copy safeguards s.safeguards
  pure (record s { safeguards = g })

abbrev pub chaos_schedule_spec : Copying ChaosScheduleSpec Api.ChaosScheduleSpec
chaos_schedule_spec = record {
  read = λ s. record {
    experiment_ref = s.experiment_ref;
    schedule = s.schedule;
    timezone = s.timezone;
    concurrency_policy = s.concurrency_policy;
    suspend = s.suspend;
    safeguards = read_ptr safeguards s.safeguards;
  };
  cells = λ s. cells_ptr safeguards s.safeguards;
  into = chaos_schedule_spec_deep_copy_into;
}

unfoldable pub chaos_schedule_spec_deep_copy : Ptr ChaosScheduleSpec → Alloc (Ptr ChaosScheduleSpec)
chaos_schedule_spec_deep_copy = deep_copy chaos_schedule_spec
