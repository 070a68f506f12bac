-- ===== src/Memory.antt =====
-- Values of Go as trees: a pointer, a slice and a map is nil, or an address with what is stored there.
-- Allocation hands out the next address.
pub mod Deep
pub mod Fresh
use entropyk.Base.{ℕ, suc, ◌+◌, Option, none, some, List, [], ◌∷◌, ◌++◌, ◌≡◌}

abbrev pub Ptr : Type 0 → Type 0
Ptr A = Option (ℕ × A)

-- The length and the capacity of a slice are those of its list.
abbrev pub Slice : Type 0 → Type 0
Slice A = Option (ℕ × List A)

-- What is computed with the next free address.
abbrev pub Alloc : Type 0 → Type 0
Alloc A = ℕ → A × ℕ

abbrev pub pure : {A : Type 0} → A → Alloc A
pure x n = (x, n)

infixl 5 ◌>>=◌
abbrev pub ◌>>=◌ : {A B : Type 0} → Alloc A → (A → Alloc B) → Alloc B
◌>>=◌ m f n = let (x, n') = m n in f x n'

-- `new(T)` and `make`, as far as the address goes
abbrev pub new : Alloc ℕ
new n = (n, suc n)

-- The pointers, slices and maps of a value, in an order of its type's own: nil, or an address.
abbrev pub Cells : Type 0
Cells = List (Option ℕ)

-- How many of them are not nil.
abbrev pub count : Cells → ℕ
count [] = 0
count (none ∷ cs) = count cs
count (some _ ∷ cs) = suc (count cs)

-- The same with new addresses, from `n` on.
abbrev pub fresh : ℕ → Cells → Cells
fresh n [] = []
fresh n (none ∷ cs) = none ∷ fresh n cs
fresh n (some _ ∷ cs) = some n ∷ fresh (suc n) cs

-- A type of Go: what its values stand for, their memory, and how a value is copied. `into x` is what
-- `x.DeepCopyInto(out)` leaves at `out`.
pub record Copying (A B : Type 0) : Type 0 where
  pub read : A → B
  pub cells : A → Cells
  pub into : A → Alloc A

-- A copy that allocates from `n` on: the new cells, and the next free address.
pub record Renews (old : Cells) (n : ℕ) (cs : Cells) (n' : ℕ) : Type 0 where
  pub addresses : cs ≡ fresh n old
  pub next : n' ≡ n + count old

abbrev pub IsDeepAt : {A B : Type 0} → Copying A B → A → ℕ → A × ℕ → Type 0
IsDeepAt k x n (y, n') = (k.read y ≡ k.read x) × Renews (k.cells x) n (k.cells y) n'

-- Every copy reads as the original does, has nil where it has nil, and has a new address of its own for
-- everything else.
pub data IsDeep {A B : Type 0} (k : Copying A B) : Type 0 where
  deep : ((x : A) (n : ℕ) → IsDeepAt k x n (k.into x n)) → IsDeep k

pub run-IsDeep :
    {A B : Type 0} {k : Copying A B} → IsDeep k → (x : A) (n : ℕ) → IsDeepAt k x n (k.into x n)
run-IsDeep (deep d) = d

-- Values with no pointer in them: an assignment copies them.
abbrev pub plain : (A : Type 0) → Copying A A
plain A = record { read = λ x. x; cells = λ x. []; into = pure }

module _ {A B : Type 0} (k : Copying A B) where
  abbrev pub read_ptr : Ptr A → Option B
  read_ptr none = none
  read_ptr (some (a, x)) = some (k.read x)

  abbrev pub cells_ptr : Ptr A → Cells
  cells_ptr none = none ∷ []
  cells_ptr (some (a, x)) = some a ∷ k.cells x

  -- `if p == nil { return nil }; out := new(T); p.DeepCopyInto(out); return out`, which is also what a
  -- copy does with a field that is a pointer.
  unfoldable pub deep_copy : Ptr A → Alloc (Ptr A)
  deep_copy none = pure none
  deep_copy (some (a, x)) = do a' ← new; x' ← k.into x; pure (some (a', x'))

  abbrev pub ptr : Copying (Ptr A) (Option B)
  ptr = record { read = read_ptr; cells = cells_ptr; into = deep_copy }

  abbrev pub read_each : List A → List B
  read_each [] = []
  read_each (x ∷ xs) = k.read x ∷ read_each xs

  abbrev pub cells_each : List A → Cells
  cells_each [] = []
  cells_each (x ∷ xs) = k.cells x ++ cells_each xs

  -- `for i := range *in { (*in)[i].DeepCopyInto(&(*out)[i]) }`
  unfoldable pub copy_each : List A → Alloc (List A)
  copy_each [] = pure []
  copy_each (x ∷ xs) = do x' ← k.into x; xs' ← copy_each xs; pure (x' ∷ xs')

  abbrev pub read_slice : Slice A → List B
  read_slice none = []
  read_slice (some (a, xs)) = read_each xs

  abbrev pub cells_slice : Slice A → Cells
  cells_slice none = none ∷ []
  cells_slice (some (a, xs)) = some a ∷ cells_each xs

  -- `if in.F != nil { *out = make([]T, len(*in)); … }`
  unfoldable pub copy_slice : Slice A → Alloc (Slice A)
  copy_slice none = pure none
  copy_slice (some (a, xs)) = do a' ← new; xs' ← copy_each xs; pure (some (a', xs'))

  abbrev pub slice : Copying (Slice A) (List B)
  slice = record { read = read_slice; cells = cells_slice; into = copy_slice }
