-- ===== src/Safeguard/Prometheus.antt =====
-- internal/safeguard/prometheus.go
use entropyk.Base.{pos, String, ◌<>◌, str_eq, not, List, [], ◌∷◌, length, if◌then◌else◌}
use entropyk.Base.Text.{decimal}
use entropyk.Go.{
  Result, ok, err, errorf, context, ◌>>=◌, ◌>>◌, Time, Duration, Std, unix, from_unix,
}
use entropyk.Runtime
use entropyk.Runtime.{Action, lift, wrapping}
use entropyk.Safeguard.Interfaces.{DataPoint, MetricsQuerier}
use entropyk.Safeguard.Http.{Url, Bytes, Web, parse_base_url, get_json}

-- `Raw` is `json.RawMessage`.
pub record PromResult (Raw : Type 0) : Type 0 where
  pub value : List Raw
  pub values : List (List Raw)

pub record PromData (Raw : Type 0) : Type 0 where
  pub result_type : String
  pub result : List (PromResult Raw)

pub record PromResponse (Raw : Type 0) : Type 0 where
  pub status : String
  pub payload : PromData Raw
  pub error_type : String
  pub error : String

-- `json.Unmarshal` into a response, a string and a number.
pub record Decoder (F : Type 0) : Type 1 where
  pub Raw : Type 0
  pub response : Bytes → Result (PromResponse Raw)
  pub string : Raw → Result String
  pub number : Raw → Result F

module _ (std : Std) (json : Decoder std.Float) where
  open std use {Float}
  open json use {Raw}

  -- A sample's value, a float in a JSON string.
  unfoldable pub sample_value : Raw → Result Float
  sample_value raw = do
    val ← context "unmarshal value" (json.string raw)
    context "parse float" (std.parse_float val)

  -- `Value`, a pair of a timestamp and a value
  unfoldable pub instant_value : List Raw → Result Float
  instant_value (_ ∷ raw ∷ _) = sample_value raw
  instant_value _ = err (errorf "malformed value tuple")

  unfoldable pub single_instant : List (PromResult Raw) → Result Float
  single_instant [] = err (errorf "empty result")
  single_instant (r ∷ []) = instant_value r.value
  single_instant rs = err (errorf ("expected single series, got " <> decimal (pos (length rs))))

  -- The status of a decoded response.
  abbrev accepted : PromResponse Raw → Result (Unit {0})
  accepted pr =
      if not (str_eq pr.status "success") then err (errorf ("prometheus: " <> pr.error)) else ok tt

  -- What `InstantQuery` makes of a body.
  unfoldable pub read_instant : Bytes → Result Float
  read_instant body = do
    pr ← context "decode response" (json.response body)
    accepted pr
    single_instant pr.payload.result

  unfoldable pub data_point : List Raw → Result (DataPoint Float)
  data_point (ts ∷ raw ∷ _) = do
    t ← context "unmarshal timestamp" (json.number ts)
    f ← sample_value raw
    ok (record { time = from_unix (std.to_int64 t); value = f })
  data_point _ = err (errorf "malformed value tuple")

  -- The loop over the samples.
  unfoldable pub data_points : List (List Raw) → Result (List (DataPoint Float))
  data_points [] = ok []
  data_points (val ∷ vals) = data_point val >>= λ p. data_points vals >>= λ ps. ok (p ∷ ps)

  unfoldable pub single_range : List (PromResult Raw) → Result (List (DataPoint Float))
  single_range [] = ok []
  single_range (r ∷ []) = data_points r.values
  single_range rs = err (errorf ("expected single series, got " <> decimal (pos (length rs))))

  -- What `RangeQuery` makes of a body.
  unfoldable pub read_range : Bytes → Result (List (DataPoint Float))
  read_range body = do
    pr ← context "decode response" (json.response body)
    accepted pr
    single_range pr.payload.result

  module _ {S : Type 0} (web : Web S) where
    unfoldable pub instant_query : Url → String → Action S Float
    instant_query base query =
        let u : Url = web.join_path base ("api" ∷ "v1" ∷ "query" ∷ []) in
        Runtime.◌>>=◌ (get_json web (record u { raw_query = web.encode (("query", query) ∷ []) }))
          λ body. lift (read_instant body)

    unfoldable pub range_query :
        Url → String → Time → Time → Duration → Action S (List (DataPoint Float))
    range_query base query start end step =
        let u : Url = web.join_path base ("api" ∷ "v1" ∷ "query_range" ∷ []) in
        Runtime.◌>>=◌
          (get_json web (record u {
            raw_query = web.encode (
                ("query", query)
                ∷ ("start", decimal (unix start))
                ∷ ("end", decimal (unix end))
                ∷ ("step", std.format_seconds step <> "s")
                ∷ []);
          }))
          λ body. lift (read_range body)

    -- `NewPrometheusQuerier`
    unfoldable pub new_prometheus_querier : String → Result (MetricsQuerier S Float)
    new_prometheus_querier base_url = parse_base_url web std.quote base_url >>= λ u.
        ok (record { instant_query = instant_query u; range_query = range_query u })
