-- ===== src/Safeguard/Checks.antt =====
-- internal/safeguard/checks.go
use entropyk.Base.{String, ◌<>◌, Bool, true, false, List, [], ◌∷◌}
use entropyk.Base.Text.{Dict}
use entropyk.Go.{Result, ok, err, Std}
use entropyk.Api.Experiment.{HaltCode, no_code, alert_match, slo_breach, config_error}
use entropyk.Api.Schedule.{SloQuery, SloProtection}
use entropyk.Runtime.{Action, pure, branch, unless_nil, ◌>>=◌}
use entropyk.Safeguard.Interfaces.{Alert, AlertChecker, MetricsQuerier}

-- A code and its detail; no code means that nothing was found.
abbrev pub Finding : Type 0
Finding = HaltCode × String

abbrev pub nothing : Finding
nothing = (no_code, "")

-- `len(m) == 0`
abbrev pub is_empty {ℓ} : {A : Type ℓ} → List A → Bool
is_empty [] = true
is_empty (_ ∷ _) = false

unfoldable pub firing : List Alert → Finding
firing [] = nothing
firing (a ∷ _) = (alert_match, "Critical alert: " <> a.name)

module _ {S : Type 0} where
  unfoldable pub check_alerts_firing : Dict → AlertChecker S → Action S Finding
  check_alerts_firing labels checker =
      branch (is_empty labels) (pure nothing)
        (do alerts ← checker.check_alerts labels; pure (firing alerts))

module _ (std : Std) where
  unfoldable pub breach_text : SloQuery → std.Float → std.Float → String
  breach_text query val threshold =
      "SLO breached: "
      <> (query.name
          <> (" = "
              <> (std.format_float val <> (" (threshold " <> (std.format_float threshold <> ")")))))

module _ (std : Std) {S : Type 0} where
  -- The loop over the queries.
  unfoldable pub query_loop :
      MetricsQuerier S std.Float → std.Float → List SloQuery → Action S Finding
  query_loop querier threshold [] = pure nothing
  query_loop querier threshold (q ∷ queries) = querier.instant_query q.query >>= λ val.
      branch (std.float_ge val threshold) (pure (slo_breach, breach_text std q val threshold))
        (query_loop querier threshold queries)

  abbrev pub with_threshold :
      SloProtection → MetricsQuerier S std.Float → String → Result std.Float → Action S Finding
  with_threshold slo querier text (err e) =
      pure (config_error, "Invalid SLO threshold " <> (std.quote text <> (": " <> e.text)))
  with_threshold slo querier text (ok threshold) = query_loop querier threshold slo.queries

  unfoldable pub check_slo_breach : SloProtection → MetricsQuerier S std.Float → Action S Finding
  check_slo_breach slo querier =
      unless_nil slo.threshold (pure (config_error, "SLO protection configured without threshold"))
        λ text. with_threshold slo querier text (std.parse_float text)
