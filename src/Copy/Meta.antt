-- ===== src/Copy/Meta.antt =====
-- Package meta/v1 as the generated copies use it: its types, what their values stand for, and its own
-- copies of them.
use entropyk.Base.{ℕ, Option, none, some, refl}
use entropyk.Go.{Time}
use entropyk.Kube.{ObjectMeta, LabelSelector, Condition}
use entropyk.Memory.Deep.{Renews-none}
use entropyk.Memory.{Ptr, Alloc, pure, Copying, IsDeepAt, IsDeep, deep, plain, read_ptr, cells_ptr}

-- The types of the package, most with their `DeepCopyInto`.
pub record Meta : Type 1 where
  pub TypeMeta : Type 0
  pub ListMeta : Type 0
  pub Metadata : Type 0
  pub Selector : Type 0
  pub Status : Type 0
  pub list_meta : Copying ListMeta ListMeta
  pub object_meta : Copying Metadata ObjectMeta
  pub label_selector : Copying Selector LabelSelector
  pub condition : Copying Status Condition
  -- `(*Time).DeepCopy`
  pub time_deep_copy : ℕ × Time → Alloc (Ptr Time)

module _ (M : Meta) where
  -- `if in.F != nil { *out = (*in).DeepCopy() }`
  unfoldable pub copy_time : Ptr Time → Alloc (Ptr Time)
  copy_time none = pure none
  copy_time (some p) = M.time_deep_copy p

  abbrev pub time : Copying (Ptr Time) (Option Time)
  time = record { read = read_ptr (plain Time); cells = cells_ptr (plain Time); into = copy_time }

-- The copies of the package are deep.
pub record IsMeta (M : Meta) : Type 0 where
  pub list_meta-IsDeep : IsDeep M.list_meta
  pub object_meta-IsDeep : IsDeep M.object_meta
  pub label_selector-IsDeep : IsDeep M.label_selector
  pub condition-IsDeep : IsDeep M.condition
  pub time-IsDeepAt : (p : ℕ × Time) (n : ℕ) → IsDeepAt (time M) (some p) n (M.time_deep_copy p n)

pub time-IsDeep : {M : Meta} → IsMeta M → IsDeep (time M)
unfolding copy_time
time-IsDeep {M} m = deep at
  where
    at : (p : Ptr Time) (n : ℕ) → IsDeepAt (time M) p n (copy_time M p n)
    at none n = (refl, Renews-none)
    at (some p) n = m.time-IsDeepAt p n
