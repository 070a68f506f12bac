-- ===== src/Memory/Fresh.antt =====
-- What follows for a copy that is deep: it shares no address with the original.
use entropyk.Base.{
  ℕ, suc, ◌+◌, ◌≤◌, ◌<◌, none, some, List, [], ◌∷◌, Bool, true, false, ◌≡◌, ◌⊎◌, inl, inr, arith,
  refl, ap,
}
use entropyk.Memory.{Cells, count, fresh, Renews}

abbrev pub Stores : ℕ → Cells → Type 0
Stores a [] = ⊥
Stores a (none ∷ cs) = Stores a cs
Stores a (some b ∷ cs) = (a ≡ b) ⊎ Stores a cs

-- No two pointers to the same address.
abbrev pub IsDistinct : Cells → Type 0
IsDistinct [] = Unit
IsDistinct (none ∷ cs) = IsDistinct cs
IsDistinct (some a ∷ cs) = (¬ Stores a cs) × IsDistinct cs

-- All addresses are below the next free one.
abbrev pub IsBelow : ℕ → Cells → Type 0
IsBelow n cs = (a : ℕ) → Stores a cs → a < n

fresh-Stores : (n : ℕ) (cs : Cells) (a : ℕ) → Stores a (fresh n cs) → (n ≤ a) × (a < n + count cs)
fresh-Stores n [] a s = elim s [ ]
fresh-Stores n (none ∷ cs) a s = fresh-Stores n cs a s
fresh-Stores n (some b ∷ cs) a (inl same) = (omega (arith, same), omega (arith, same))
fresh-Stores n (some b ∷ cs) a (inr s) =
    let (least, most) = fresh-Stores (suc n) cs a s in (omega (arith, least), omega (arith, most))

fresh-IsDistinct : (n : ℕ) (cs : Cells) → IsDistinct (fresh n cs)
fresh-IsDistinct n [] = tt
fresh-IsDistinct n (none ∷ cs) = fresh-IsDistinct n cs
fresh-IsDistinct n (some b ∷ cs) =
    ((λ s. omega (arith, (fresh-Stores (suc n) cs n s).0)), fresh-IsDistinct (suc n) cs)

-- Which of the pointers are nil.
abbrev pub nils : Cells → List Bool
nils [] = []
nils (none ∷ cs) = true ∷ nils cs
nils (some _ ∷ cs) = false ∷ nils cs

fresh-nils : (n : ℕ) (cs : Cells) → nils (fresh n cs) ≡ nils cs
fresh-nils n [] = refl
fresh-nils n (none ∷ cs) = ap (λ l. true ∷ l) (fresh-nils n cs)
fresh-nils n (some a ∷ cs) = ap (λ l. false ∷ l) (fresh-nils (suc n) cs)

-- The pointers of a value and those of its copy: none is shared, no two of the copy are the same, nil
-- is where it was, and all are below the next free address.
pub record IsApart (old cs : Cells) (n' : ℕ) : Type 0 where
  pub disjoint : (a : ℕ) → Stores a old → ¬ Stores a cs
  pub distinct : IsDistinct cs
  pub same_nils : nils cs ≡ nils old
  pub old-IsBelow : IsBelow n' old
  pub new-IsBelow : IsBelow n' cs

fresh-IsApart : (old : Cells) (n : ℕ) → IsBelow n old → IsApart old (fresh n old) (n + count old)
fresh-IsApart old n below = record {
  disjoint = λ a s s'. omega (arith, below a s, (fresh-Stores n old a s').0);
  distinct = fresh-IsDistinct n old;
  same_nils = fresh-nils n old;
  old-IsBelow = λ a s. omega (arith, below a s);
  new-IsBelow = λ a s. (fresh-Stores n old a s).1;
}

pub Renews-IsApart :
    {old cs : Cells} {n n' : ℕ} → Renews old n cs n' → IsBelow n old → IsApart old cs n'
Renews-IsApart {old} {n = n} r below = rw (r.addresses, r.next) (fresh-IsApart old n below)
