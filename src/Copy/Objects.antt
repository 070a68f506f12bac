-- ===== src/Copy/Objects.antt =====
-- zz_generated.deepcopy.go: the copies of the API objects and of their lists.
use entropyk.Base.{List, ◌++◌}
use entropyk.Api.Experiment as Experiment
use entropyk.Api.Schedule as Schedule
use entropyk.Memory.{
  Ptr, Slice, Alloc, pure, ◌>>=◌, Copying, deep_copy, copy_slice, read_slice, cells_slice,
}
use entropyk.Copy.Meta.{Meta}
use entropyk.Copy.Experiment.{
  ChaosExperimentSpec, chaos_experiment_spec, chaos_experiment_spec_deep_copy_into,
  ChaosExperimentStatus, chaos_experiment_status, chaos_experiment_status_deep_copy_into,
}
use entropyk.Copy.Schedule.{
  ChaosScheduleSpec, chaos_schedule_spec, chaos_schedule_spec_deep_copy_into,
}
use entropyk.Copy.ScheduleStatus.{
  ChaosScheduleStatus, chaos_schedule_status, chaos_schedule_status_deep_copy_into,
}

module _ (M : Meta) where
  -- What a list of objects stands for.
  pub record Listing (A : Type 0) : Type 0 where
    pub type_meta : M.TypeMeta
    pub metadata : M.ListMeta
    pub items : List (M.TypeMeta × A)

  pub record ChaosExperiment : Type 0 where
    pub type_meta : M.TypeMeta
    pub metadata : M.Metadata
    pub spec : ChaosExperimentSpec M
    pub status : ChaosExperimentStatus M

  unfoldable pub chaos_experiment_deep_copy_into : ChaosExperiment → Alloc ChaosExperiment
  chaos_experiment_deep_copy_into e = do
    metadata ← M.object_meta.into e.metadata
    spec ← chaos_experiment_spec_deep_copy_into M e.spec
    status ← chaos_experiment_status_deep_copy_into M e.status
    pure (record e { type_meta = e.type_meta; metadata = metadata; spec = spec; status = status })

  abbrev pub chaos_experiment : Copying ChaosExperiment (M.TypeMeta × Experiment.ChaosExperiment)
  chaos_experiment = record {
    read = λ e. (
      e.type_meta,
      record {
        metadata = M.object_meta.read e.metadata;
        spec = (chaos_experiment_spec M).read e.spec;
        status = (chaos_experiment_status M).read e.status;
      },
    );
    cells = λ e.
        M.object_meta.cells e.metadata
        ++ (chaos_experiment_spec M).cells e.spec
        ++ (chaos_experiment_status M).cells e.status;
    into = chaos_experiment_deep_copy_into;
  }

  unfoldable pub chaos_experiment_deep_copy : Ptr ChaosExperiment → Alloc (Ptr ChaosExperiment)
  chaos_experiment_deep_copy = deep_copy chaos_experiment

  pub record ChaosExperimentList : Type 0 where
    pub type_meta : M.TypeMeta
    pub metadata : M.ListMeta
    pub items : Slice ChaosExperiment

  unfoldable pub chaos_experiment_list_deep_copy_into :
      ChaosExperimentList → Alloc ChaosExperimentList
  chaos_experiment_list_deep_copy_into l = do
    metadata ← M.list_meta.into l.metadata
    items ← copy_slice chaos_experiment l.items
    pure (record l { type_meta = l.type_meta; metadata = metadata; items = items })

  abbrev pub chaos_experiment_list :
      Copying ChaosExperimentList (Listing Experiment.ChaosExperiment)
  chaos_experiment_list = record {
    read = λ l. record {
      type_meta = l.type_meta;
      metadata = M.list_meta.read l.metadata;
      items = read_slice chaos_experiment l.items;
    };
    cells = λ l. M.list_meta.cells l.metadata ++ cells_slice chaos_experiment l.items;
    into = chaos_experiment_list_deep_copy_into;
  }

  unfoldable pub chaos_experiment_list_deep_copy :
      Ptr ChaosExperimentList → Alloc (Ptr ChaosExperimentList)
  chaos_experiment_list_deep_copy = deep_copy chaos_experiment_list

  pub record ChaosSchedule : Type 0 where
    pub type_meta : M.TypeMeta
    pub metadata : M.Metadata
    pub spec : ChaosScheduleSpec
    pub status : ChaosScheduleStatus M

  unfoldable pub chaos_schedule_deep_copy_into : ChaosSchedule → Alloc ChaosSchedule
  chaos_schedule_deep_copy_into s = do
    metadata ← M.object_meta.into s.metadata
    spec ← chaos_schedule_spec_deep_copy_into s.spec
    status ← chaos_schedule_status_deep_copy_into M s.status
    pure (record s { type_meta = s.type_meta; metadata = metadata; spec = spec; status = status })

  abbrev pub chaos_schedule : Copying ChaosSchedule (M.TypeMeta × Schedule.ChaosSchedule)
  chaos_schedule = record {
    read = λ s. (
      s.type_meta,
      record {
        metadata = M.object_meta.read s.metadata;
        spec = chaos_schedule_spec.read s.spec;
        status = (chaos_schedule_status M).read s.status;
      },
    );
    cells = λ s.
        M.object_meta.cells s.metadata
        ++ chaos_schedule_spec.cells s.spec
        ++ (chaos_schedule_status M).cells s.status;
    into = chaos_schedule_deep_copy_into;
  }

  unfoldable pub chaos_schedule_deep_copy : Ptr ChaosSchedule → Alloc (Ptr ChaosSchedule)
  chaos_schedule_deep_copy = deep_copy chaos_schedule

  pub record ChaosScheduleList : Type 0 where
    pub type_meta : M.TypeMeta
    pub metadata : M.ListMeta
    pub items : Slice ChaosSchedule

  unfoldable pub chaos_schedule_list_deep_copy_into : ChaosScheduleList → Alloc ChaosScheduleList
  chaos_schedule_list_deep_copy_into l = do
    metadata ← M.list_meta.into l.metadata
    items ← copy_slice chaos_schedule l.items
    pure (record l { type_meta = l.type_meta; metadata = metadata; items = items })

  abbrev pub chaos_schedule_list : Copying ChaosScheduleList (Listing Schedule.ChaosSchedule)
  chaos_schedule_list = record {
    read = λ l. record {
      type_meta = l.type_meta;
      metadata = M.list_meta.read l.metadata;
      items = read_slice chaos_schedule l.items;
    };
    cells = λ l. M.list_meta.cells l.metadata ++ cells_slice chaos_schedule l.items;
    into = chaos_schedule_list_deep_copy_into;
  }

  unfoldable pub chaos_schedule_list_deep_copy :
      Ptr ChaosScheduleList → Alloc (Ptr ChaosScheduleList)
  chaos_schedule_list_deep_copy = deep_copy chaos_schedule_list
