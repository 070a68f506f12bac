-- ===== src/Safeguard/Backends.antt =====
-- What the two backends accept: base URLs, responses, alerts and samples.
use entropyk.Base.{
  ℕ, suc, ◌≤◌, String, true, List, [], ◌∷◌, All, select, map, length, ◌≡◌, ◌≢◌, ◌↔◌, ◌⊎◌, refl,
  arith, eq_iff, ℤ, ◌+ℤ◌, ◌-ℤ◌, ◌*ℤ◌,
}
use entropyk.Base.Text.{Dict, lookup_or_empty}
use entropyk.Go.{Result, ok, err, context, ◌>>=◌, Std, unix, from_unix, floor_div}
use entropyk.Runtime.{World, returned, monad}
use entropyk.Safeguard.Interfaces.{DataPoint}
use entropyk.Safeguard.Http.{
  Url, Bytes, Web, parse_base_url, closing, read_response, status_ok, max_response_bytes,
}
use entropyk.Safeguard.Alertmanager.{AmAlert, matches, is_match, to_alert, filter_alerts}
use entropyk.Safeguard.Prometheus.{Decoder, sample_value, data_point, data_points}

module _ {S : Type 0} (web : Web S) where
  -- A base URL is accepted, as it was parsed, exactly when its scheme is http or https and it has a
  -- host.
  pub parse_base_url-ok :
      (quote : String → String) (raw : String) (u : Url)
      → (parse_base_url web quote raw ≡ ok u)
        ↔ ((web.parse raw ≡ ok u) × ((u.scheme ≡ "http") ⊎ (u.scheme ≡ "https")) × (u.host ≢ ""))
  unfolding parse_base_url
  parse_base_url-ok quote raw u =
      ground (arith, eq_iff u.scheme "http", eq_iff u.scheme "https", eq_iff u.host "")

  -- A response is used exactly if its status is 200 and no more than `max_response_bytes` bytes are
  -- read of its body (up to one more is asked for), and then as they were read.
  pub read_response-returned :
      (code : ℕ) (body : web.Body) (w : World S) (bytes : Bytes)
      → ((read_response web code body w).0 ≡ returned bytes) ↔ (
          (code ≡ status_ok)
          × ((web.read_limited body (suc max_response_bytes) w.state).0 ≡ ok bytes)
          × (length bytes ≤ max_response_bytes))
  unfolding read_response closing monad
  read_response-returned code body w bytes = ground arith

matches_iff :
    (matchers labels : Dict)
    → (matches matchers labels ≡ true) ↔ All (λ m. lookup_or_empty m.0 labels ≡ m.1) matchers
unfolding matches
matches_iff [] labels = (λ _. tt, λ _. refl)
matches_iff ((k, v) ∷ matchers) labels =
    ground (arith, eq_iff (lookup_or_empty k labels) v, matches_iff matchers labels)

filter_alerts-select :
    (matchers : Dict) (alerts : List AmAlert)
    → filter_alerts matchers alerts ≡ map to_alert (select (is_match matchers) alerts)
unfolding filter_alerts
filter_alerts-select matchers [] = refl
filter_alerts-select matchers (a ∷ alerts) = ground (arith, filter_alerts-select matchers alerts)

-- The alerts that are returned are, in their order, those that are active and have for each matcher
-- the value that it asks for (a label that is missing has the empty value).
pub filter_alerts-IsMatch :
    (matchers : Dict) (alerts : List AmAlert)
    → (filter_alerts matchers alerts ≡ map to_alert (select (is_match matchers) alerts))
      × ((a : AmAlert)
          → (is_match matchers a ≡ true) ↔ (
              (a.status.state ≡ "active") × All (λ m. lookup_or_empty m.0 a.labels ≡ m.1) matchers))
unfolding is_match
filter_alerts-IsMatch matchers alerts = (
  filter_alerts-select matchers alerts,
  λ a. ground (arith, eq_iff a.status.state "active", matches_iff matchers a.labels),
)

unix-from_unix : (s : ℤ) → unix (from_unix s) ≡ s
unfolding unix from_unix floor_div ◌+ℤ◌ ◌-ℤ◌ ◌*ℤ◌
unix-from_unix s = ground arith

pub bind_ok :
    {A B : Type 0} (r : Result A) (f : A → Result B) {b : B}
    → (r >>= f) ≡ ok b
    → (a : A) × (r ≡ ok a) × (f a ≡ ok b)
bind_ok (ok a) f e = (a, refl, e)
bind_ok (err x) f e = cc

pub context_ok : {A : Type 0} (s : String) (r : Result A) {a : A} → context s r ≡ ok a → r ≡ ok a
context_ok s (ok a) e = e
context_ok s (err x) e = cc

module _ (std : Std) (json : Decoder std.Float) where
  -- What a sample of a series says of a data point.
  abbrev pub IsSample : List json.Raw → DataPoint std.Float → Type 0
  IsSample (ts ∷ raw ∷ _) p =
      (t : std.Float) × (text : String) × (json.number ts ≡ ok t)
      × (json.string raw ≡ ok text)
      × (unix p.time ≡ std.to_int64 t)
      × (std.parse_float text ≡ ok p.value)
  IsSample _ p = ⊥

  abbrev pub AreSamples : List (List json.Raw) → List (DataPoint std.Float) → Type 0
  AreSamples [] [] = Unit
  AreSamples (val ∷ vals) (p ∷ ps) = IsSample val p × AreSamples vals ps
  AreSamples _ _ = ⊥

  data_point-IsSample :
      (val : List json.Raw) (p : DataPoint std.Float)
      → data_point std json val ≡ ok p
      → IsSample val p
  unfolding data_point sample_value
  data_point-IsSample [] p e = cc
  data_point-IsSample (_ ∷ []) p e = cc
  data_point-IsSample (ts ∷ raw ∷ _) p e =
      let (t, got_t, e1) = bind_ok (context "unmarshal timestamp" (json.number ts)) _ e in
      let (v, got_v, e2) = bind_ok (sample_value std json raw) _ e1 in
      let (text, got_s, e3) = bind_ok (context "unmarshal value" (json.string raw)) _ got_v in
      (
        t,
        text,
        context_ok "unmarshal timestamp" _ got_t,
        context_ok "unmarshal value" _ got_s,
        ground (arith, e2, unix-from_unix (std.to_int64 t)),
        ground (arith, e2, context_ok "parse float" (std.parse_float text) e3),
      )

  -- The data points of a series that is read in full are those of its samples, one for each and in
  -- their order: the time is the sample's timestamp in whole seconds and the value its text, parsed.
  pub data_points-AreSamples :
      (vals : List (List json.Raw)) (ps : List (DataPoint std.Float))
      → data_points std json vals ≡ ok ps
      → AreSamples vals ps
  unfolding data_points
  data_points-AreSamples [] [] e = tt
  data_points-AreSamples [] (p ∷ ps) e = cc
  data_points-AreSamples (val ∷ vals) [] e =
      let (p', got_p, e1) = bind_ok (data_point std json val) _ e in
      let (ps', got_ps, e2) = bind_ok (data_points std json vals) _ e1 in cc
  data_points-AreSamples (val ∷ vals) (p ∷ ps) e =
      let (p', got_p, e1) = bind_ok (data_point std json val) _ e in
      let (ps', got_ps, e2) = bind_ok (data_points std json vals) _ e1 in
      (data_point-IsSample val p cc, data_points-AreSamples vals ps cc)
