-- ===== src/Copy/Deep/Interface.antt =====
-- `DeepCopyObject` of the four objects.
use entropyk.Base.{ℕ, suc, Option, some, ◌≡◌, ap}
use entropyk.Memory.{run-IsDeep, deep_copy}
use entropyk.Memory.Deep.{Renews-some}
use entropyk.Memory.Fresh.{IsBelow, IsApart, Renews-IsApart}
use entropyk.Copy.Meta.{Meta, IsMeta}
use entropyk.Copy.Objects.{
  chaos_experiment_deep_copy, chaos_experiment_list_deep_copy, chaos_schedule_deep_copy,
  chaos_schedule_list_deep_copy,
}
use entropyk.Copy.Interface.{
  Object, experiment, experiment_list, schedule, schedule_list, read_object, cells_object,
  deep_copy_object, chaos_experiment_deep_copy_object, chaos_experiment_list_deep_copy_object,
  chaos_schedule_deep_copy_object, chaos_schedule_list_deep_copy_object,
}
use entropyk.Copy.Deep.Objects.{
  chaos_experiment-IsDeep, chaos_experiment_list-IsDeep, chaos_schedule-IsDeep,
  chaos_schedule_list-IsDeep,
}

-- What is returned, with the next free address: an object that reads as `o` does, apart from it.
pub data IsCopyOf {M : Meta} (o : Object M) : Option (Object M) × ℕ → Type 0 where
  copy_of :
      {c : Object M} {n' : ℕ}
      → read_object M c ≡ read_object M o
      → IsApart (cells_object M o) (cells_object M c) n'
      → IsCopyOf o (some c, n')

-- Provided that package meta/v1 copies its own types deeply: `DeepCopyObject` of an experiment, a
-- schedule or a list of them, with all its pointers, slices and maps below the next free address,
-- returns an object that stands for the same value. Nothing in it is stored where something of the
-- original is, nothing is stored twice, and a pointer, slice or map is nil where the original's is.
pub deep_copy_object-IsCopyOf :
    {M : Meta}
    → IsMeta M
    → (o : Object M) (n : ℕ) → IsBelow n (cells_object M o)
    → IsCopyOf o (deep_copy_object M o n)
unfolding deep_copy_object chaos_experiment_deep_copy_object chaos_experiment_list_deep_copy_object
    chaos_schedule_deep_copy_object chaos_schedule_list_deep_copy_object chaos_experiment_deep_copy
    chaos_experiment_list_deep_copy chaos_schedule_deep_copy chaos_schedule_list_deep_copy deep_copy
deep_copy_object-IsCopyOf m (experiment (a, e)) n below =
    let (same, renewed) = run-IsDeep (chaos_experiment-IsDeep m) e (suc n) in
    copy_of (ap experiment same) (Renews-IsApart (Renews-some renewed) below)
deep_copy_object-IsCopyOf m (experiment_list (a, l)) n below =
    let (same, renewed) = run-IsDeep (chaos_experiment_list-IsDeep m) l (suc n) in
    copy_of (ap experiment_list same) (Renews-IsApart (Renews-some renewed) below)
deep_copy_object-IsCopyOf m (schedule (a, s)) n below =
    let (same, renewed) = run-IsDeep (chaos_schedule-IsDeep m) s (suc n) in
    copy_of (ap schedule same) (Renews-IsApart (Renews-some renewed) below)
deep_copy_object-IsCopyOf m (schedule_list (a, l)) n below =
    let (same, renewed) = run-IsDeep (chaos_schedule_list-IsDeep m) l (suc n) in
    copy_of (ap schedule_list same) (Renews-IsApart (Renews-some renewed) below)
