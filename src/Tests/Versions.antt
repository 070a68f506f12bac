-- ===== src/Tests/Versions.antt =====
-- Objects with versions, no two of which have the same.
use entropyk.Base.{
  String, Bool, str_eq, eq_iff, false, List, [], ◌∷◌, ◌≡◌, ◌⊎◌, inl, inr, refl, sym, ap, ◌∙◌, arith,
  All,
}

module _ {A : Type 0} where
  abbrev pub Among : A → List A → Type 0
  Among e [] = ⊥
  Among e (x ∷ xs) = (e ≡ x) ⊎ Among e xs

module _ {A : Type 0} (version : A → String) where
  abbrev pub IsNew : String → List A → Type 0
  IsNew v es = All (λ e. str_eq v (version e) ≡ false) es

  abbrev pub Distinct : List A → Type 0
  Distinct [] = Unit
  Distinct (e ∷ es) = IsNew (version e) es × Distinct es

  Among-IsNew : (v : String) (e : A) (es : List A) → IsNew v es → Among e es → v ≡ version e → ⊥
  Among-IsNew v e [] none_new seen match = absurd seen
  Among-IsNew v e (x ∷ es) (other, rest) (inl same) match =
      ground (arith, (eq_iff v (version x)).1 (match ∙ ap version same), other)
  Among-IsNew v e (x ∷ es) (other, rest) (inr in_rest) match = Among-IsNew v e es rest in_rest match

  pub Among-unique :
      (e e' : A) (es : List A)
      → Distinct es
      → Among e es
      → Among e' es
      → version e ≡ version e'
      → e ≡ e'
  Among-unique e e' [] d p q match = absurd p
  Among-unique e e' (x ∷ es) (new, rest) (inl p) (inl q) match = p ∙ sym q
  Among-unique e e' (x ∷ es) (new, rest) (inl p) (inr q) match =
      absurd (Among-IsNew (version x) e' es new q (sym (ap version p) ∙ match))
  Among-unique e e' (x ∷ es) (new, rest) (inr p) (inl q) match =
      absurd (Among-IsNew (version x) e es new p (sym (ap version q) ∙ sym match))
  Among-unique e e' (x ∷ es) (new, rest) (inr p) (inr q) match = Among-unique e e' es rest p q match

  -- A version is new if it is none of those before it.
  unfoldable pub beside :
      (v : String) (e : A) (es : List A) (b : Bool)
      → str_eq v (version e) ≡ b
      → IsNew v es ⊎ Unit {0}
      → IsNew v (e ∷ es) ⊎ Unit {0}
  beside v e es false other (inl rest) = inl (other, rest)
  beside v e es _ _ _ = inr tt

  unfoldable pub new? : (v : String) (es : List A) → IsNew v es ⊎ Unit {0}
  unfolding beside
  new? v [] = inl tt
  new? v (e ∷ es) = beside v e es (str_eq v (version e)) refl (new? v es)
