-- ===== src/Safeguard/Heeding.antt =====
-- What it means that a check by a backend finds nothing: it was answered, and well.
use entropyk.Base.{
  String, ◌<>◌, true, false, some, List, [], ◌∷◌, All, str_eq, ◌≡◌, refl, arith, eq_iff,
}
use text.Mathlib.TextLemmas.{append-eq-nil_iff}
use entropyk.Base.Text.{Dict}
use entropyk.Go.{Result, ok, err, Std}
use entropyk.Api.Schedule.{SloQuery, SloProtection}
use entropyk.Runtime.{
  World, returned, Yields, yields, run-Yields, Yields-run, Yields-pure, Yields-bind,
  Yields-unless_nil, Yields-branch,
}
use entropyk.Safeguard.Interfaces.{Alert, AlertChecker, MetricsQuerier}
use entropyk.Safeguard.Checks.{
  Finding, is_empty, firing, check_alerts_firing, breach_text, query_loop, with_threshold,
  check_slo_breach,
}

module _ {S : Type 0} where
  -- The alerts that match the labels were asked for, and there were none.
  abbrev pub NoAlert : Dict → AlertChecker S → Type 0
  NoAlert labels checker =
      is_empty labels ≡ false → (w : World S) × ((checker.check_alerts labels w).0 ≡ returned [])

  module _ (std : Std) where
    -- Each query was answered by a value below a threshold.
    abbrev pub AllBelow : MetricsQuerier S std.Float → std.Float → List SloQuery → Type 0
    AllBelow querier threshold queries =
        All
          (λ q.
            (w : World S) × (val : std.Float) × ((querier.instant_query q.query w).0 ≡ returned val)
            × (std.float_ge val threshold ≡ false))
          queries

    abbrev pub NoBreach : SloProtection → MetricsQuerier S std.Float → Type 0
    NoBreach slo querier =
        (text : String) × (threshold : std.Float) × (slo.threshold ≡ some text)
        × (std.parse_float text ≡ ok threshold)
        × AllBelow querier threshold slo.queries

nonempty : (s t : String) → str_eq s "" ≡ false → str_eq (s <> t) "" ≡ true → ⊥
nonempty s t h e =
    ground (arith, eq_iff s "", eq_iff (s <> t) "", append-eq-nil_iff {p = s} {q = t})

-- Each check that finds something says so by a text that is not empty.
firing_quiet : (alerts : List Alert) → str_eq (firing alerts).1 "" ≡ true → alerts ≡ []
unfolding firing
firing_quiet [] e = refl
firing_quiet (a ∷ alerts) e = absurd (nonempty "Critical alert: " a.name refl e)

-- What an empty reason of a check stands for.
abbrev pub Unless : Type 0 → Finding → Type 0
Unless E f = str_eq f.1 "" ≡ true → E

module _ {S : Type 0} where
  pub check_alerts_firing-Yields :
      (labels : Dict) (checker : AlertChecker S)
      → Yields (Unless (NoAlert labels checker)) (check_alerts_firing labels checker)
  unfolding check_alerts_firing
  check_alerts_firing-Yields labels checker =
      Yields-branch _ _ _ (λ empty. Yields-pure _ λ _ full. absurd (ground arith))
        λ _. Yields-bind _ _ (Yields-run (checker.check_alerts labels)) λ alerts seen.
          Yields-pure _ λ silent full. (seen.0, rw (← firing_quiet alerts silent) seen.1)

  module _ (std : Std) (querier : MetricsQuerier S std.Float) where
    query_loop-Yields :
        (threshold : std.Float) (queries : List SloQuery)
        → Yields
            (Unless (AllBelow std querier threshold queries))
            (query_loop std querier threshold queries)
    unfolding query_loop breach_text
    query_loop-Yields threshold [] = Yields-pure _ λ _. tt
    query_loop-Yields threshold (q ∷ queries) =
        Yields-bind _ _ (Yields-run (querier.instant_query q.query)) λ val seen.
          Yields-branch _ _ _
            (λ _. Yields-pure _ λ silent. absurd (nonempty "SLO breached: " _ refl silent))
            λ below. yields λ w f e silent. (
              (seen.0, val, seen.1, below),
              run-Yields (query_loop-Yields threshold queries) w f e silent,
            )

    with_threshold-Yields :
        (slo : SloProtection) (text : String) (t : Result std.Float)
        → slo.threshold ≡ some text
        → std.parse_float text ≡ t
        → Yields (Unless (NoBreach std slo querier)) (with_threshold std slo querier text t)
    with_threshold-Yields slo text (err e) given parsed =
        Yields-pure _ λ silent. absurd (nonempty "Invalid SLO threshold " _ refl silent)
    with_threshold-Yields slo text (ok t) given parsed = yields λ w f e silent.
        (text, t, given, parsed, run-Yields (query_loop-Yields t slo.queries) w f e silent)

    pub check_slo_breach-Yields :
        (slo : SloProtection)
        → Yields (Unless (NoBreach std slo querier)) (check_slo_breach std slo querier)
    unfolding check_slo_breach
    check_slo_breach-Yields slo =
        Yields-unless_nil _ _ _
          (λ _. Yields-pure _ λ silent.
            absurd (ground (arith, eq_iff "SLO protection configured without threshold" "")))
          λ text given. with_threshold-Yields slo text _ given refl
