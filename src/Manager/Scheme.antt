-- ===== src/Manager/Scheme.antt =====
-- api/v1alpha1/groupversion_info.go, the `init` of the two files of types and that of cmd/main.go: the
-- scheme, by which the client and the manager find the kind of a Go type.
use entropyk.Base.{String, Option, none, some, List, [], ◌∷◌, ◌≡◌, ◌⊎◌, inl, inr, refl}
use entropyk.Go.{Error, Result, ok, err}

pub record GroupVersion : Type 0 where
  pub group : String
  pub version : String

unfoldable pub group_version : GroupVersion
group_version = record { group = "temper.io"; version = "v1alpha1" }

-- The Go types of the objects that the program reads, writes or watches.
pub data GoType : Type 0 where
  chaos_experiment chaos_experiment_list chaos_schedule chaos_schedule_list : GoType
  deployment pod pod_list : GoType

-- Packages runtime of apimachinery, scheme of controller-runtime and scheme of client-go.
pub record Schemes : Type 1 where
  pub Scheme : Type 0
  pub Builder : Type 0
  pub new_scheme : Scheme
  -- `&scheme.Builder{GroupVersion: …}`
  pub builder : GroupVersion → Builder
  pub register : Builder → List GoType → Builder
  pub add_to_scheme : Builder → Scheme → Result Scheme
  pub client_go_add_to_scheme : Scheme → Result Scheme

module _ (S : Schemes) where
  -- The `init` of chaosexperiment_types.go and of chaosschedule_types.go
  unfoldable pub register_experiments : S.Builder → S.Builder
  register_experiments b = S.register b (chaos_experiment ∷ chaos_experiment_list ∷ [])

  unfoldable pub register_schedules : S.Builder → S.Builder
  register_schedules b = S.register b (chaos_schedule ∷ chaos_schedule_list ∷ [])

  -- `SchemeBuilder` once the package is initialised: the files' `init` run in the order of their names.
  unfoldable pub scheme_builder : S.Builder
  unfolding group_version register_experiments register_schedules
  scheme_builder = register_schedules (register_experiments (S.builder group_version))

  unfoldable pub add_to_scheme : S.Scheme → Result S.Scheme
  unfolding scheme_builder
  add_to_scheme = S.add_to_scheme scheme_builder

  -- `utilruntime.Must(…)` panics on an error, which ends the program before `main`.
  unfoldable pub main_scheme : Option S.Scheme
  unfolding add_to_scheme
  main_scheme = elim (S.client_go_add_to_scheme S.new_scheme) [
    | err e ↦ none
    | ok s ↦ elim (add_to_scheme s) [ err e ↦ none | ok s' ↦ some s' ]
  ]

abbrev pub Among : GoType → List GoType → Type 0
Among t [] = ⊥
Among t (x ∷ xs) = (t ≡ x) ⊎ Among t xs

-- What the packages promise: a builder adds what was registered with it under its version, client-go
-- the built-in types, and neither takes anything away.
pub record IsRegistry (S : Schemes) : Type 1 where
  pub Knows : S.Scheme → GroupVersion → GoType → Type 0
  pub Registers : S.Builder → GroupVersion → GoType → Type 0
  pub IsOf : S.Builder → GroupVersion → Type 0
  pub built-IsOf : (v : GroupVersion) → IsOf (S.builder v) v
  pub register-IsOf :
      (b : S.Builder) (ts : List GoType) (v : GroupVersion) → IsOf b v → IsOf (S.register b ts) v
  pub registered :
      (b : S.Builder) (ts : List GoType) (v : GroupVersion) (t : GoType)
      → IsOf b v
      → Among t ts
      → Registers (S.register b ts) v t
  pub still_registered :
      (b : S.Builder) (ts : List GoType) (v : GroupVersion) (t : GoType)
      → Registers b v t
      → Registers (S.register b ts) v t
  pub added :
      (b : S.Builder) (s s' : S.Scheme) (v : GroupVersion) (t : GoType)
      → S.add_to_scheme b s ≡ ok s'
      → Registers b v t ⊎ Knows s v t
      → Knows s' v t
  pub built_in :
      (s s' : S.Scheme)
      → S.client_go_add_to_scheme s ≡ ok s'
      → Knows s' (record { group = "apps"; version = "v1" }) deployment
        × Knows s' (record { group = ""; version = "v1" }) pod
        × Knows s' (record { group = ""; version = "v1" }) pod_list

-- The group and version of each type.
abbrev pub version_of : GoType → GroupVersion
version_of deployment = record { group = "apps"; version = "v1" }
version_of pod = record { group = ""; version = "v1" }
version_of pod_list = record { group = ""; version = "v1" }
version_of _ = record { group = "temper.io"; version = "v1alpha1" }

module _ {S : Schemes} (reg : IsRegistry S) where
  -- What the two `init` register.
  Own : GoType → Type 0
  Own t = reg.Registers (scheme_builder S) (version_of chaos_experiment) t

  experiments-Own : (t : GoType) → Among t (chaos_experiment ∷ chaos_experiment_list ∷ []) → Own t
  unfolding Own scheme_builder group_version register_experiments register_schedules
  experiments-Own t among =
      reg.still_registered _ _ _ t (reg.registered _ _ _ t (reg.built-IsOf _) among)

  schedules-Own : (t : GoType) → Among t (chaos_schedule ∷ chaos_schedule_list ∷ []) → Own t
  unfolding Own scheme_builder group_version register_experiments register_schedules
  schedules-Own t among = reg.registered _ _ _ t (reg.register-IsOf _ _ _ (reg.built-IsOf _)) among

  module _ (s s' : S.Scheme) (base : S.client_go_add_to_scheme S.new_scheme ≡ ok s)
      (top : S.add_to_scheme (scheme_builder S) s ≡ ok s') where
    Knows-own : (t : GoType) → Own t → reg.Knows s' (version_of chaos_experiment) t
    unfolding Own
    Knows-own t own = reg.added _ s s' _ t top (inl own)

    Knows-all : (t : GoType) → reg.Knows s' (version_of t) t
    Knows-all chaos_experiment = Knows-own _ (experiments-Own _ (inl refl))
    Knows-all chaos_experiment_list = Knows-own _ (experiments-Own _ (inr (inl refl)))
    Knows-all chaos_schedule = Knows-own _ (schedules-Own _ (inl refl))
    Knows-all chaos_schedule_list = Knows-own _ (schedules-Own _ (inr (inl refl)))
    Knows-all deployment = reg.added _ s s' _ _ top (inr (reg.built_in _ s base).0)
    Knows-all pod = reg.added _ s s' _ _ top (inr (reg.built_in _ s base).1)
    Knows-all pod_list = reg.added _ s s' _ _ top (inr (reg.built_in _ s base).2)

-- How the program's `init` ends: by a panic where one of the two calls fails, or with a scheme.
pub data Starts {S : Schemes} (reg : IsRegistry S) : Option S.Scheme → Type 0 where
  panics :
      (e : Error)
      → (S.client_go_add_to_scheme S.new_scheme ≡ err e)
        ⊎ ((s : S.Scheme) × (S.client_go_add_to_scheme S.new_scheme ≡ ok s)
            × (add_to_scheme S s ≡ err e))
      → Starts reg none
  complete : (s : S.Scheme) → ((t : GoType) → reg.Knows s (version_of t) t) → Starts reg (some s)

-- Provided that the packages of the scheme keep their promises: the program panics before `main` only if
-- one of its two registrations fails, and otherwise its scheme knows each type of object that the
-- program uses, its own under temper.io/v1alpha1, deployments under apps/v1 and pods under v1.
pub main_scheme-Starts : {S : Schemes} (reg : IsRegistry S) → Starts reg (main_scheme S)
unfolding main_scheme
main_scheme-Starts {S} reg = go (S.client_go_add_to_scheme S.new_scheme) refl
  where
    then :
        (s : S.Scheme) (r : Result S.Scheme)
        → S.client_go_add_to_scheme S.new_scheme ≡ ok s
        → add_to_scheme S s ≡ r
        → Starts reg (elim r [ err e ↦ none | ok s' ↦ some s' ])
    then s (err e) base top = panics e (inr (s, base, top))
    then s (ok s') base top = complete s' (Knows-all reg s s' base (unfold add_to_scheme in top))

    go :
        (r : Result S.Scheme)
        → S.client_go_add_to_scheme S.new_scheme ≡ r
        → Starts reg (elim r [
          | err e ↦ none
          | ok s ↦ elim (add_to_scheme S s) [ err e ↦ none | ok s' ↦ some s' ]
        ])
    go (err e) base = panics e (inl base)
    go (ok s) base = then s (add_to_scheme S s) base refl
