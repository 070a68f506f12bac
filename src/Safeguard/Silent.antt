-- ===== src/Safeguard/Silent.antt =====
-- The two backends write nothing to the cluster and do not panic.
use entropyk.Base.{ℕ, String, List, ◌≡◌}
use entropyk.Base.Text.{Dict}
use entropyk.Go.{Result, ok, Std}
use entropyk.Runtime.{
  Effect, Action, Keeps, keeps, run-Holds, Holds-pure, Holds-raise, Holds-lift, Keeps-ask,
  Holds-bind, Holds-wrapping, Holds-branch,
}
use entropyk.Safeguard.Interfaces.{AlertChecker, MetricsQuerier}
use entropyk.Safeguard.Http.{Url, Bytes, Web, parse_base_url, closing, read_response, get_json}
use entropyk.Safeguard.Alertmanager
use entropyk.Safeguard.Backends.{bind_ok}
use mathlib.Core.Path.{subst}
use entropyk.Safeguard.Alertmanager.{AmAlert, new_alertmanager_checker}
use entropyk.Safeguard.Prometheus.{Decoder, instant_query, range_query, new_prometheus_querier}

module _ {S : Type 0} (web : Web S) {P : Effect → Type 0} {Q : Type 0} where
  Keeps-closing :
      {A : Type 0} (body : web.Body) (m : Action S A) → Keeps P Q m → Keeps P Q (closing web body m)
  unfolding closing
  Keeps-closing body m k = keeps λ w h. run-Holds k w h

  Keeps-read_response : (code : ℕ) (body : web.Body) → Keeps P Q (read_response web code body)
  unfolding read_response
  Keeps-read_response code body = Keeps-closing body _ (
      Holds-branch _ _ _ (λ _. Holds-raise _)
        λ _.
          Holds-bind _ _ (Holds-wrapping _ _ (Keeps-ask _))
            λ bytes. Holds-branch _ _ _ (λ _. Holds-raise _) (λ _. Holds-pure _))

  pub Keeps-get_json : (u : Url) → Keeps P Q (get_json web u)
  unfolding get_json
  Keeps-get_json u = Holds-bind _ _ (Holds-wrapping _ _ (Holds-lift _)) λ req.
      Holds-bind _ _ (Holds-wrapping _ _ (Keeps-ask _))
        λ answer. Keeps-read_response answer.0 answer.1

  pub Keeps-checker :
      (decode : Bytes → Result (List AmAlert)) (quote : String → String) (url : String)
      (checker : AlertChecker S) (labels : Dict)
      → new_alertmanager_checker web decode quote url ≡ ok checker
      → Keeps P Q (checker.check_alerts labels)
  unfolding new_alertmanager_checker Alertmanager.check_alerts
  Keeps-checker decode quote url checker labels built =
      let (u, parsed, made) = bind_ok (parse_base_url web quote url) _ built in
      let same : record { check_alerts = Alertmanager.check_alerts web decode u } ≡ checker = cc in
      subst (λ (k : AlertChecker S). Keeps P Q (k.check_alerts labels)) same
        (Holds-bind _ _ (Keeps-get_json _)
          λ body. Holds-bind _ _ (Holds-wrapping _ _ (Holds-lift _)) λ alerts. Holds-pure _)

  pub Keeps-querier :
      (std : Std) (json : Decoder std.Float) (url query : String)
      (querier : MetricsQuerier S std.Float)
      → new_prometheus_querier std json web url ≡ ok querier
      → Keeps P Q (querier.instant_query query)
  unfolding new_prometheus_querier instant_query
  Keeps-querier std json url query querier built =
      let (u, parsed, made) = bind_ok (parse_base_url web std.quote url) _ built in
      let same : record {
        instant_query = instant_query std json web u;
        range_query = range_query std json web u;
      }
          ≡ querier =
        cc in
      subst (λ (k : MetricsQuerier S std.Float). Keeps P Q (k.instant_query query)) same
        (Holds-bind _ _ (Keeps-get_json _) λ body. Holds-lift _)
