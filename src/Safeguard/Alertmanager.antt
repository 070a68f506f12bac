-- ===== src/Safeguard/Alertmanager.antt =====
-- internal/safeguard/alertmanager.go
use entropyk.Base.{String, str_eq, Bool, true, ◌&&◌, List, [], ◌∷◌, if◌then◌else◌}
use entropyk.Base.Text.{Dict, lookup_or_empty}
use entropyk.Go
use entropyk.Go.{Result, ok, err}
use entropyk.Runtime.{Action, pure, lift, wrapping, ◌>>=◌}
use entropyk.Safeguard.Interfaces.{Alert, AlertChecker}
use entropyk.Safeguard.Http.{Url, Bytes, Web, parse_base_url, get_json}

pub record AmAlertStatus : Type 0 where
  pub state : String

pub record AmAlert : Type 0 where
  pub labels : Dict
  pub status : AmAlertStatus

-- The loop over the matchers, which stops at the first that differs.
unfoldable pub matches : Dict → Dict → Bool
matches [] labels = true
matches ((k, v) ∷ matchers) labels = str_eq (lookup_or_empty k labels) v && matches matchers labels

unfoldable pub is_match : Dict → AmAlert → Bool
unfolding matches
is_match matchers a = str_eq a.status.state "active" && matches matchers a.labels

unfoldable pub to_alert : AmAlert → Alert
to_alert a = record { name = lookup_or_empty "alertname" a.labels; labels = a.labels }

-- The loop over the alerts.
unfoldable pub filter_alerts : Dict → List AmAlert → List Alert
filter_alerts matchers [] = []
filter_alerts matchers (a ∷ alerts) =
    let rest = filter_alerts matchers alerts in
    if is_match matchers a then to_alert a ∷ rest else rest

-- `decode` is `json.Unmarshal` into a `[]amAlert`.
module _ {S : Type 0} (web : Web S) (decode : Bytes → Result (List AmAlert)) where
  unfoldable pub check_alerts : Url → Dict → Action S (List Alert)
  check_alerts base matchers = do
    let u : Url = web.join_path base ("api" ∷ "v2" ∷ "alerts" ∷ [])
    body ← get_json web (record u { raw_query = web.encode (("active", "true") ∷ []) })
    alerts ← wrapping "decode response" (lift (decode body))
    pure (filter_alerts matchers alerts)

  -- `NewAlertmanagerChecker`
  unfoldable pub new_alertmanager_checker : (String → String) → String → Result (AlertChecker S)
  new_alertmanager_checker quote base_url =
      Go.◌>>=◌ (parse_base_url web quote base_url)
        λ u. ok (record { check_alerts = check_alerts u })
