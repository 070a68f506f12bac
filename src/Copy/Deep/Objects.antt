-- ===== src/Copy/Deep/Objects.antt =====
-- The copies of the objects.
use entropyk.Base.{refl}
use entropyk.Memory.{IsDeep, deep, run-IsDeep}
use entropyk.Memory.Deep.{Renews-++, slice-IsDeep}
use entropyk.Copy.Meta.{Meta, IsMeta}
use entropyk.Copy.Objects.{
  chaos_experiment, chaos_experiment_deep_copy_into, chaos_experiment_list,
  chaos_experiment_list_deep_copy_into, chaos_schedule, chaos_schedule_deep_copy_into,
  chaos_schedule_list, chaos_schedule_list_deep_copy_into,
}
use entropyk.Copy.Deep.Experiment.{chaos_experiment_spec-IsDeep, chaos_experiment_status-IsDeep}
use entropyk.Copy.Deep.Schedule.{chaos_schedule_spec-IsDeep, chaos_schedule_status-IsDeep}

module _ {M : Meta} (m : IsMeta M) where
  pub chaos_experiment-IsDeep : IsDeep (chaos_experiment M)
  unfolding chaos_experiment_deep_copy_into
  chaos_experiment-IsDeep = deep λ e n.
      let (metadata, d0) = run-IsDeep m.object_meta-IsDeep e.metadata n in
      let (spec, d1) = run-IsDeep (chaos_experiment_spec-IsDeep m) e.spec _ in
      let (status, d2) = run-IsDeep (chaos_experiment_status-IsDeep m) e.status _ in
      (rw (metadata, spec, status) refl, Renews-++ (Renews-++ d0 d1) d2)

  pub chaos_experiment_list-IsDeep : IsDeep (chaos_experiment_list M)
  unfolding chaos_experiment_list_deep_copy_into
  chaos_experiment_list-IsDeep = deep λ l n.
      let (metadata, d0) = run-IsDeep m.list_meta-IsDeep l.metadata n in
      let (items, d1) = run-IsDeep (slice-IsDeep chaos_experiment-IsDeep) l.items _ in
      (rw (metadata, items) refl, Renews-++ d0 d1)

  pub chaos_schedule-IsDeep : IsDeep (chaos_schedule M)
  unfolding chaos_schedule_deep_copy_into
  chaos_schedule-IsDeep = deep λ s n.
      let (metadata, d0) = run-IsDeep m.object_meta-IsDeep s.metadata n in
      let (spec, d1) = run-IsDeep chaos_schedule_spec-IsDeep s.spec _ in
      let (status, d2) = run-IsDeep (chaos_schedule_status-IsDeep m) s.status _ in
      (rw (metadata, spec, status) refl, Renews-++ (Renews-++ d0 d1) d2)

  pub chaos_schedule_list-IsDeep : IsDeep (chaos_schedule_list M)
  unfolding chaos_schedule_list_deep_copy_into
  chaos_schedule_list-IsDeep = deep λ l n.
      let (metadata, d0) = run-IsDeep m.list_meta-IsDeep l.metadata n in
      let (items, d1) = run-IsDeep (slice-IsDeep chaos_schedule-IsDeep) l.items _ in
      (rw (metadata, items) refl, Renews-++ d0 d1)
