-- ===== src/Memory/Deep.antt =====
-- A copy is deep as soon as the copies of its parts are.
use entropyk.Base.{ℕ, suc, ◌+◌, none, some, List, [], ◌∷◌, ◌++◌, ◌≡◌, refl, ap, arith}
use entropyk.Memory.{
  Ptr, Slice, Cells, count, fresh, Copying, Renews, IsDeepAt, IsDeep, deep, run-IsDeep, plain, ptr,
  deep_copy, slice, read_each, cells_each, copy_each, copy_slice,
}

fresh-++ : (n : ℕ) (cs ds : Cells) → fresh n (cs ++ ds) ≡ fresh n cs ++ fresh (n + count cs) ds
fresh-++ n [] ds = ground arith
fresh-++ n (none ∷ cs) ds = ap (λ l. none ∷ l) (fresh-++ n cs ds)
fresh-++ n (some a ∷ cs) ds = ground (arith, fresh-++ (suc n) cs ds)

count-++ : (cs ds : Cells) → count (cs ++ ds) ≡ count cs + count ds
count-++ [] ds = ground arith
count-++ (none ∷ cs) ds = count-++ cs ds
count-++ (some a ∷ cs) ds = ground (arith, count-++ cs ds)

-- One part of a value is copied after the other.
pub Renews-++ :
    {cs ds cs' ds' : Cells} {n m k : ℕ}
    → Renews cs n cs' m
    → Renews ds m ds' k
    → Renews (cs ++ ds) n (cs' ++ ds') k
Renews-++ {cs} {ds} {n = n} c d = record {
  addresses = ground (arith, c.addresses, c.next, d.addresses, fresh-++ n cs ds);
  next = omega (arith, c.next, d.next, count-++ cs ds);
}

pub Renews-nil : {n : ℕ} → Renews [] n [] n
Renews-nil = record { addresses = refl; next = omega arith }

pub Renews-none : {n : ℕ} → Renews (none ∷ []) n (none ∷ []) n
Renews-none = record { addresses = refl; next = omega arith }

-- An address in front, for what follows it.
pub Renews-some :
    {a : ℕ} {cs cs' : Cells} {n m : ℕ}
    → Renews cs (suc n) cs' m
    → Renews (some a ∷ cs) n (some n ∷ cs') m
Renews-some {n = n} c = record {
  addresses = ap (λ l. some n ∷ l) c.addresses;
  next = omega (arith, c.next);
}

pub plain-IsDeep : {A : Type 0} → IsDeep (plain A)
plain-IsDeep = deep λ x n. (refl, Renews-nil)

module _ {A B : Type 0} {k : Copying A B} (d : IsDeep k) where
  pub ptr-IsDeep : IsDeep (ptr k)
  unfolding deep_copy
  ptr-IsDeep = deep at
    where
      at : (p : Ptr A) (n : ℕ) → IsDeepAt (ptr k) p n (deep_copy k p n)
      at none n = (refl, Renews-none)
      at (some (a, x)) n =
          let (same, renewed) = run-IsDeep d x (suc n) in (ap some same, Renews-some renewed)

  copy_each-Renews :
      (xs : List A) (n : ℕ)
      → (read_each k (copy_each k xs n).0 ≡ read_each k xs)
        × Renews (cells_each k xs) n (cells_each k (copy_each k xs n).0) (copy_each k xs n).1
  unfolding copy_each
  copy_each-Renews [] n = (refl, Renews-nil)
  copy_each-Renews (x ∷ xs) n =
      let (same, renewed) = run-IsDeep d x n in
      let (same', renewed') = copy_each-Renews xs (k.into x n).1 in
      (ground (arith, same, same'), Renews-++ renewed renewed')

  pub slice-IsDeep : IsDeep (slice k)
  unfolding copy_slice
  slice-IsDeep = deep at
    where
      at : (xs : Slice A) (n : ℕ) → IsDeepAt (slice k) xs n (copy_slice k xs n)
      at none n = (refl, Renews-none)
      at (some (a, xs)) n =
          let (same, renewed) = copy_each-Renews xs (suc n) in (same, Renews-some renewed)
