-- ===== src/Safeguard/Halting.antt =====
-- The annotations of a halt, which the watcher puts on and the reconciler takes off.
use entropyk.Base.{String, ◌||◌, false, some, none, if◌then◌else◌, ◌≡◌, arith, str_eq, refl}
use entropyk.Base.Text.{lookup, insert, lookup_or_empty, lookup-insert}
use entropyk.Api.Experiment.{
  HaltCode, code_text, annotation_halt_reason, annotation_halt_code, ChaosExperiment,
}
use entropyk.Safeguard.Watcher.{annotated}
use entropyk.Experiment.Reconcile.{clear_annotations}
use entropyk.Experiment.Ending.{lookup-clear_annotations}

pub annotated-reason :
    (exp : ChaosExperiment) (code : HaltCode) (detail : String)
    → lookup annotation_halt_reason (annotated exp code detail).metadata.annotations ≡ some detail
unfolding annotated
annotated-reason exp code detail = simp lookup-insert refl

pub annotated-code :
    (exp : ChaosExperiment) (code : HaltCode) (detail : String)
    → lookup_or_empty annotation_halt_code (annotated exp code detail).metadata.annotations
      ≡ code_text code
unfolding annotated lookup_or_empty
annotated-code exp code detail = ground (
  arith,
  lookup-insert annotation_halt_code annotation_halt_code (code_text code)
      (insert annotation_halt_reason detail exp.metadata.annotations),
)

annotated-code_text :
    (exp : ChaosExperiment) (code : HaltCode) (detail : String)
    → lookup annotation_halt_code (annotated exp code detail).metadata.annotations
      ≡ some (code_text code)
unfolding annotated
annotated-code_text exp code detail = simp lookup-insert refl

annotated-other :
    (key : String) (exp : ChaosExperiment) (code : HaltCode) (detail : String)
    → (str_eq annotation_halt_code key || str_eq annotation_halt_reason key) ≡ false
    → lookup key (annotated exp code detail).metadata.annotations
      ≡ lookup key exp.metadata.annotations
unfolding annotated
annotated-other key exp code detail other = simp lookup-insert (ground arith)

-- What the watcher puts on can be read and taken off: an experiment that it annotated carries the detail
-- and the code under the two keys; once the reconciler has cleared it, every other key has what it had
-- and the two keys are gone, and nothing but the annotations has changed.
pub clear_annotations-annotated :
    (key : String) (exp : ChaosExperiment) (code : HaltCode) (detail : String)
    → (lookup annotation_halt_reason (annotated exp code detail).metadata.annotations ≡ some detail)
      × (lookup annotation_halt_code (annotated exp code detail).metadata.annotations
          ≡ some (code_text code))
      × (lookup key (clear_annotations (annotated exp code detail)).metadata.annotations ≡ (
          if str_eq annotation_halt_code key || str_eq annotation_halt_reason key
          then none
          else lookup key exp.metadata.annotations))
      × (record (clear_annotations (annotated exp code detail)) {
        metadata = record (clear_annotations (annotated exp code detail)).metadata {
          annotations = exp.metadata.annotations;
        };
      }
          ≡ exp)
clear_annotations-annotated key exp code detail = (
  annotated-reason exp code detail,
  annotated-code_text exp code detail,
  simp lookup-clear_annotations (ground (arith, annotated-other key exp code detail)),
  unfold annotated in unfold clear_annotations in refl,
)
