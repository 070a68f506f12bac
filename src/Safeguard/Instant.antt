-- ===== src/Safeguard/Instant.antt =====
-- internal/safeguard/prometheus.go: what an instant query accepts.
use entropyk.Base.{String, str_eq, not, List, [], ◌∷◌, ◌≡◌, ◌↔◌, refl, arith, eq_iff, if◌then◌else◌}
use entropyk.Go.{Error, ok, err, context, Std}
use entropyk.Safeguard.Backends.{bind_ok, context_ok}
use entropyk.Safeguard.Http.{Bytes}
use entropyk.Safeguard.Prometheus.{
  PromResult, PromResponse, Decoder, sample_value, instant_value, single_instant, read_instant,
}

module _ (std : Std) (json : Decoder std.Float) where
  -- A successful response with one series, whose value is a pair of a timestamp and the text of `val`.
  pub record IsInstant (body : Bytes) (val : std.Float) : Type 0 where
    pub response : PromResponse json.Raw
    pub decoded : json.response body ≡ ok response
    pub success : response.status ≡ "success"
    pub series : PromResult json.Raw
    pub only : response.payload.result ≡ series ∷ []
    pub stamp : json.Raw
    pub raw : json.Raw
    pub more : List json.Raw
    pub pair : series.value ≡ stamp ∷ raw ∷ more
    pub text : String
    pub unquoted : json.string raw ≡ ok text
    pub parsed : std.parse_float text ≡ ok val

  backward :
      (body : Bytes) (val : std.Float) → IsInstant body val → read_instant std json body ≡ ok val
  unfolding read_instant single_instant instant_value sample_value
  backward body val i = ground (
    arith,
    i.decoded,
    i.success,
    eq_iff i.response.status "success",
    i.only,
    i.pair,
    i.unquoted,
    i.parsed,
  )

  single-inv :
      (rs : List (PromResult json.Raw)) {val : std.Float}
      → single_instant std json rs ≡ ok val
      → (r : PromResult json.Raw) × (rs ≡ r ∷ []) × (instant_value std json r.value ≡ ok val)
  unfolding single_instant
  single-inv [] e = cc
  single-inv (r ∷ []) e = (r, refl, e)
  single-inv (r ∷ x ∷ rs) e = cc

  pair-inv :
      (vs : List json.Raw) {val : std.Float}
      → instant_value std json vs ≡ ok val
      → (stamp raw : json.Raw) × (more : List json.Raw) × (vs ≡ stamp ∷ raw ∷ more)
        × (sample_value std json raw ≡ ok val)
  unfolding instant_value
  pair-inv [] e = cc
  pair-inv (t ∷ []) e = cc
  pair-inv (t ∷ raw ∷ more) e = (t, raw, more, refl, e)

  sample-inv :
      (raw : json.Raw) {val : std.Float}
      → sample_value std json raw ≡ ok val
      → (text : String) × (json.string raw ≡ ok text) × (std.parse_float text ≡ ok val)
  unfolding sample_value
  sample-inv raw e =
      let (text, got, e1) = bind_ok (context "unmarshal value" (json.string raw)) _ e in
      (text, context_ok "unmarshal value" _ got, context_ok "parse float" _ e1)

  accepted-inv :
      (status : String) (m : Error)
      → (if not (str_eq status "success") then err m else ok tt) ≡ ok (tt {0})
      → status ≡ "success"
  accepted-inv status m e = ground (arith, e, eq_iff status "success")

  forward :
      (body : Bytes) (val : std.Float) → read_instant std json body ≡ ok val → IsInstant body val
  unfolding read_instant
  forward body val e =
      let (pr, got, e1) = bind_ok (context "decode response" (json.response body)) _ e in
      let (_, fine, e2) = bind_ok _ _ e1 in
      let (r, only, e3) = single-inv pr.payload.result e2 in
      let (stamp, raw, more, pair, e4) = pair-inv r.value e3 in
      let (text, unquoted, parsed) = sample-inv raw e4 in
      record {
        response = pr;
        decoded = context_ok "decode response" _ got;
        success = accepted-inv pr.status _ fine;
        series = r;
        only = only;
        stamp = stamp;
        raw = raw;
        more = more;
        pair = pair;
        text = text;
        unquoted = unquoted;
        parsed = parsed;
      }

  -- The body of an instant query gives a value exactly if it decodes to a response with the status
  -- "success" and one series only, whose value has at least two parts, the second of which is a string
  -- that parses as that value.
  pub read_instant-IsInstant :
      (body : Bytes) (val : std.Float) → (read_instant std json body ≡ ok val) ↔ IsInstant body val
  read_instant-IsInstant body val = (forward body val, backward body val)
