-- ===== src/Scenario/PodKill/Victims.antt =====
-- The pods that a kill deletes: the shuffle only permutes the running ones.
use Prim.Native.Nat.{min}
use entropyk.Base.{
  ℕ, zero, suc, ◌+◌, ◌≤◌, pos_part, ℤ, Bool, true, false, Option, none, some, List, [], ◌∷◌, ◌≡◌,
  refl, arith, length, get_elem?, set, take, select, count_if, All, All-take, All-select,
}
use entropyk.Kube.{Pod}
use entropyk.Scenario.PodKill.{is_pod_running, put_both, swap, swap_all, clamp}

bit : Bool → ℕ
bit true = 1
bit false = 0

module _ {A : Type 0} where
  All-get_elem? :
      (P : A → Type 0) (xs : List A) (i : ℕ) {x : A} → All P xs → get_elem? xs i ≡ some x → P x
  All-get_elem? P [] i h e = cc
  All-get_elem? P (y ∷ xs) zero h e = ground (arith, h.0)
  All-get_elem? P (y ∷ xs) (suc i) h e = All-get_elem? P xs i h.1 e

  All-set : (P : A → Type 0) (xs : List A) (i : ℕ) (v : A) → All P xs → P v → All P (set xs i v)
  All-set P [] i v h p = h
  All-set P (x ∷ xs) zero v h p = (p, h.1)
  All-set P (x ∷ xs) (suc i) v h p = (h.0, All-set P xs i v h.1 p)

  count_if-set :
      (p : A → Bool) (xs : List A) (i : ℕ) (v : A) {x : A}
      → get_elem? xs i ≡ some x
      → count_if p (set xs i v) + bit (p x) ≡ count_if p xs + bit (p v)
  unfolding bit
  count_if-set p [] i v e = cc
  count_if-set p (y ∷ xs) zero v e = ground arith
  count_if-set p (y ∷ xs) (suc i) v e = ground (arith, count_if-set p xs i v e)

  length-set : (xs : List A) (i : ℕ) (v : A) → length (set xs i v) ≡ length xs
  length-set [] i v = refl
  length-set (_ ∷ xs) zero v = refl
  length-set (_ ∷ xs) (suc i) v = omega (arith, length-set xs i v)

  get_elem?-set_same :
      (xs : List A) (i j : ℕ) {y : A} → get_elem? xs j ≡ some y → get_elem? (set xs i y) j ≡ some y
  get_elem?-set_same [] i j e = e
  get_elem?-set_same (x ∷ xs) zero zero e = refl
  get_elem?-set_same (x ∷ xs) zero (suc j) e = e
  get_elem?-set_same (x ∷ xs) (suc i) zero e = e
  get_elem?-set_same (x ∷ xs) (suc i) (suc j) e = get_elem?-set_same xs i j e

  -- What an exchange keeps, whatever the two reads give.
  put_both-All :
      (P : A → Type 0) (xs : List A) (i j : ℕ) (ox oy : Option A)
      → get_elem? xs i ≡ ox
      → get_elem? xs j ≡ oy
      → All P xs
      → All P (put_both xs i j ox oy)
  put_both-All P xs i j (some x) (some y) ex ey h =
      All-set P (set xs i y) j x (All-set P xs i y h (All-get_elem? P xs j h ey))
        (All-get_elem? P xs i h ex)
  put_both-All P xs i j (some x) none ex ey h = h
  put_both-All P xs i j none oy ex ey h = h

  put_both-count :
      (p : A → Bool) (xs : List A) (i j : ℕ) (ox oy : Option A)
      → get_elem? xs i ≡ ox
      → get_elem? xs j ≡ oy
      → count_if p (put_both xs i j ox oy) ≡ count_if p xs
  put_both-count p xs i j (some x) (some y) ex ey = omega (
    arith,
    count_if-set p xs i y ex,
    count_if-set p (set xs i y) j x (get_elem?-set_same xs i j ey),
  )
  put_both-count p xs i j (some x) none ex ey = refl
  put_both-count p xs i j none oy ex ey = refl

  put_both-length :
      (xs : List A) (i j : ℕ) (ox oy : Option A) → length (put_both xs i j ox oy) ≡ length xs
  put_both-length xs i j (some x) (some y) =
      omega (arith, length-set xs i y, length-set (set xs i y) j x)
  put_both-length xs i j (some x) none = refl
  put_both-length xs i j none oy = refl

  pub swap_all-All :
      (P : A → Type 0) (swaps : List (ℕ × ℕ)) (xs : List A) → All P xs → All P (swap_all swaps xs)
  unfolding swap_all swap
  swap_all-All P [] xs h = h
  swap_all-All P ((i, j) ∷ swaps) xs h =
      swap_all-All P swaps _ (put_both-All P xs i j _ _ refl refl h)

  pub swap_all-count :
      (p : A → Bool) (swaps : List (ℕ × ℕ)) (xs : List A)
      → count_if p (swap_all swaps xs) ≡ count_if p xs
  unfolding swap_all swap
  swap_all-count p [] xs = refl
  swap_all-count p ((i, j) ∷ swaps) xs =
      omega (arith, swap_all-count p swaps (swap xs (i, j)), put_both-count p xs i j _ _ refl refl)

  pub swap_all-length :
      (swaps : List (ℕ × ℕ)) (xs : List A) → length (swap_all swaps xs) ≡ length xs
  unfolding swap_all swap
  swap_all-length [] xs = refl
  swap_all-length ((i, j) ∷ swaps) xs = omega (
    arith,
    swap_all-length swaps (swap xs (i, j)),
    put_both-length xs i j (get_elem? xs i) (get_elem? xs j),
  )

  pub count_if-take : (p : A → Bool) (n : ℕ) (xs : List A) → count_if p (take n xs) ≤ count_if p xs
  count_if-take p zero xs = omega arith
  count_if-take p (suc n) [] = omega arith
  count_if-take p (suc n) (x ∷ xs) = ground (arith, count_if-take p n xs)

  pub count_if-select : (p q : A → Bool) (xs : List A) → count_if p (select q xs) ≤ count_if p xs
  count_if-select p q [] = omega arith
  count_if-select p q (x ∷ xs) = ground (arith, count_if-select p q xs)

  pub length-take : (n : ℕ) (xs : List A) → n ≤ length xs → length (take n xs) ≡ n
  length-take zero xs h = refl
  length-take (suc n) [] h = absurd (omega arith)
  length-take (suc n) (x ∷ xs) h = omega (arith, length-take n xs (omega arith))

pub clamp-le : (count : ℤ) (n : ℕ) → clamp count n ≤ n
unfolding clamp
clamp-le count n = ground arith

pub clamp-eq-min : (count : ℤ) (n : ℕ) → clamp count n ≡ min (pos_part count) n
unfolding clamp
clamp-eq-min count n = ground arith

-- The pods that a kill picks by the given exchanges.
abbrev pub victims : ℤ → List (ℕ × ℕ) → List Pod → List Pod
victims count swaps pods =
    let running = select is_pod_running pods in
    take (clamp count (length running)) (swap_all swaps running)

pub victims-running :
    (count : ℤ) (swaps : List (ℕ × ℕ)) (pods : List Pod)
    → All (λ p. is_pod_running p ≡ true) (victims count swaps pods)
victims-running count swaps pods =
    All-take _ _ _ (swap_all-All _ swaps _ (All-select is_pod_running pods))

pub victims-count :
    (count : ℤ) (swaps : List (ℕ × ℕ)) (pods : List Pod) (p : Pod → Bool)
    → count_if p (victims count swaps pods) ≤ count_if p pods
victims-count count swaps pods p =
    let running = select is_pod_running pods in
    omega (
      arith,
      count_if-take p (clamp count (length running)) (swap_all swaps running),
      swap_all-count p swaps running,
      count_if-select p is_pod_running pods,
    )

pub victims-length :
    (count : ℤ) (swaps : List (ℕ × ℕ)) (pods : List Pod)
    → length (victims count swaps pods) ≡ min (pos_part count) (length (select is_pod_running pods))
victims-length count swaps pods =
    let running = select is_pod_running pods in
    omega (
      arith,
      clamp-eq-min count (length running),
      swap_all-length swaps running,
      length-take (clamp count (length running)) (swap_all swaps running)
          (rw (swap_all-length swaps running) (clamp-le count (length running))),
    )
