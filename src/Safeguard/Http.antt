-- ===== src/Safeguard/Http.antt =====
-- internal/safeguard/http.go, over packages net/url, net/http, io and encoding/json.
use entropyk.Base.{ℕ, ◌+◌, ◌*◌, ◌^◌, pos, String, ◌<>◌, str_eq, not, ◌&&◌, List, length, ltb, ◌==◌}
use entropyk.Base.Text.{decimal}
use entropyk.Go.{Result, ok, errorf, context, fail_if, ◌>>=◌, ◌>>◌}
use entropyk.Runtime
use entropyk.Runtime.{Action, World, ask, pure, raise, lift, wrapping, branch}

-- The parts of a `url.URL` that the program reads or writes.
pub record Url : Type 0 where
  pub scheme : String
  pub host : String
  pub path : String
  pub raw_query : String

abbrev pub Bytes : Type 0
Bytes = List ℕ

-- What is used of the packages: a response has a status code and a body that is read up to a limit
-- (`io.ReadAll` of an `io.LimitReader`), and is drained and closed in the end.
pub record Web (S : Type 0) : Type 1 where
  pub Request : Type 0
  pub Body : Type 0
  pub parse : String → Result Url
  pub join_path : Url → List String → Url
  pub encode : List (String × String) → String
  pub new_request : Url → Result Request
  pub set_header : String → String → Request → Request
  pub send : Request → S → Result (ℕ × Body) × S
  pub read_limited : Body → ℕ → S → Result Bytes × S
  pub close : Body → S → S

abbrev pub max_response_bytes : ℕ
max_response_bytes = 10 * 2 ^ 20

abbrev pub status_ok : ℕ
status_ok = 200

module _ {S : Type 0} (web : Web S) where
  unfoldable pub parse_base_url : (String → String) → String → Result Url
  parse_base_url quote raw = do
    u ← context "parse base URL" (web.parse raw)
    fail_if (not (str_eq u.scheme "http") && not (str_eq u.scheme "https"))
        ("unsupported scheme " <> (quote u.scheme <> " (want http or https)"))
    fail_if (str_eq u.host "") ("missing host in URL " <> quote raw)
    ok u

  -- The deferred function, which runs however `m` ends.
  unfoldable pub closing : {A : Type 0} → web.Body → Action S A → Action S A
  closing body m w = let (r, w') = m w in (r, record w' { state = web.close body w'.state })

  -- What is done with a response.
  unfoldable pub read_response : ℕ → web.Body → Action S Bytes
  read_response code body = closing body (
      branch (not (code == status_ok)) (raise (errorf ("unexpected status " <> decimal (pos code))))
        (Runtime.◌>>=◌ (wrapping "read body" (ask (web.read_limited body (max_response_bytes + 1))))
          λ bytes.
            branch (ltb max_response_bytes (length bytes))
              (raise (
                errorf
                  ("response body exceeds " <> (decimal (pos max_response_bytes) <> " bytes"))))
              (pure bytes)))

  unfoldable pub get_json : Url → Action S Bytes
  get_json u = Runtime.◌>>=◌ (wrapping "create request" (lift (web.new_request u))) λ req.
      Runtime.◌>>=◌
        (wrapping "send request" (ask (web.send (web.set_header "Accept" "application/json" req))))
        λ (code, body). read_response code body
