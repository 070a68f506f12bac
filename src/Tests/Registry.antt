-- ===== src/Tests/Registry.antt =====
-- A scheme as the list of the types that it knows.
use entropyk.Base.{List, [], ◌∷◌, ◌++◌, ◌≡◌, ◌⊎◌, inl, inr, refl}
use mathlib.Core.Path.{subst}
use entropyk.Go.{ok}
use entropyk.Manager.Scheme.{
  GroupVersion, GoType, deployment, pod, pod_list, Schemes, Among, IsRegistry, Starts, main_scheme,
  main_scheme-Starts,
}

abbrev Entry : Type 0
Entry = GroupVersion × GoType

abbrev In : GroupVersion → GoType → List Entry → Type 0
In v t [] = ⊥
In v t ((v', t') ∷ xs) = ((v ≡ v') × (t ≡ t')) ⊎ In v t xs

abbrev tagged : GroupVersion → List GoType → List Entry → List Entry
tagged v [] s = s
tagged v (t ∷ ts) s = (v, t) ∷ tagged v ts s

abbrev lists : Schemes
lists = record {
  Scheme = List Entry;
  Builder = GroupVersion × List GoType;
  new_scheme = [];
  builder = λ v. (v, []);
  register = λ b ts. (b.0, ts ++ b.1);
  add_to_scheme = λ b s. ok (tagged b.0 b.1 s);
  client_go_add_to_scheme = λ s. ok (
      (record { group = "apps"; version = "v1" }, deployment)
      ∷ (record { group = ""; version = "v1" }, pod)
      ∷ (record { group = ""; version = "v1" }, pod_list)
      ∷ s);
}

Among-left : (t : GoType) (ts us : List GoType) → Among t ts → Among t (ts ++ us)
Among-left t [] us among = absurd among
Among-left t (x ∷ ts) us (inl same) = inl same
Among-left t (x ∷ ts) us (inr among) = inr (Among-left t ts us among)

Among-right : (t : GoType) (ts us : List GoType) → Among t us → Among t (ts ++ us)
Among-right t [] us among = among
Among-right t (x ∷ ts) us among = inr (Among-right t ts us among)

tagged-new :
    (v : GroupVersion) (t : GoType) (ts : List GoType) (s : List Entry)
    → Among t ts
    → In v t (tagged v ts s)
tagged-new v t [] s among = absurd among
tagged-new v t (x ∷ ts) s (inl same) = inl (refl, same)
tagged-new v t (x ∷ ts) s (inr among) = inr (tagged-new v t ts s among)

tagged-old :
    (u v : GroupVersion) (t : GoType) (ts : List GoType) (s : List Entry)
    → In v t s
    → In v t (tagged u ts s)
tagged-old u v t [] s known = known
tagged-old u v t (x ∷ ts) s known = inr (tagged-old u v t ts s known)

ok-inj : {a b : List Entry} → ok a ≡ ok b → a ≡ b
ok-inj e = cc

lists-IsRegistry : IsRegistry lists
lists-IsRegistry = record {
  Knows = λ s v t. In v t s;
  Registers = λ b v t. (v ≡ b.0) × Among t b.1;
  IsOf = λ b v. v ≡ b.0;
  built-IsOf = λ v. refl;
  register-IsOf = λ b ts v same. same;
  registered = λ b ts v t same among. (same, Among-left t ts b.1 among);
  still_registered = λ b ts v t old. (old.0, Among-right t ts b.1 old.1);
  added = λ b s s' v t got known.
      subst (λ x. In v t x) (ok-inj got)
        (elim known [
          | inl new ↦ rw new.0 (tagged-new b.0 t b.1 s new.1)
          | inr old ↦ tagged-old b.0 v t b.1 s old
        ]);
  built_in = λ s s' got.
      subst
        (λ x.
          In (record { group = "apps"; version = "v1" }) deployment x
          × In (record { group = ""; version = "v1" }) pod x
          × In (record { group = ""; version = "v1" }) pod_list x)
        (ok-inj got) (inl (refl, refl), inr (inl (refl, refl)), inr (inr (inl (refl, refl))));
}

main_scheme-Starts_example : Starts lists-IsRegistry (main_scheme lists)
main_scheme-Starts_example = main_scheme-Starts lists-IsRegistry
