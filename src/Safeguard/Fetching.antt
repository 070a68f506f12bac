-- ===== src/Safeguard/Fetching.antt =====
-- internal/safeguard/http.go: how a request ends.
use entropyk.Base.{
  ℕ, ◌+◌, ◌<◌, ltb, ◌==◌, inl, inr, Bool-cases, ◌≤◌, pos, ◌<>◌, ◌≡◌, ◌≢◌, refl, arith, length,
}
use entropyk.Base.Text.{decimal}
use entropyk.Go.{Error, Result, ok, err, errorf, wrap}
use entropyk.Runtime.{World, Outcome, returned, failed, monad}
use entropyk.Safeguard.Http.{
  Url, Bytes, Web, closing, read_response, get_json, status_ok, max_response_bytes,
}

module _ {S : Type 0} (web : Web S) where
  -- The world, with what a body leaves once it is closed.
  abbrev pub closed : World S → web.Body → S → World S
  closed w body s = record w { state = web.close body s }

  -- How a response ends: read in full with the status 200 and no more bytes than the limit, or in an
  -- error. Its body is closed last.
  pub data Reads (code : ℕ) (body : web.Body) (w : World S) : Outcome Bytes × World S → Type 0 where
    unexpected :
        code ≢ status_ok
        → Reads code body w
            (failed (errorf ("unexpected status " <> decimal (pos code))), closed w body w.state)
    unread :
        (e : Error) (s : S)
        → code ≡ status_ok
        → web.read_limited body (max_response_bytes + 1) w.state ≡ (err e, s)
        → Reads code body w (failed (wrap "read body" e), closed w body s)
    too_long :
        (bytes : Bytes) (s : S)
        → code ≡ status_ok
        → web.read_limited body (max_response_bytes + 1) w.state ≡ (ok bytes, s)
        → max_response_bytes < length bytes
        → Reads code body w (
          failed
              (errorf ("response body exceeds " <> (decimal (pos max_response_bytes) <> " bytes"))),
          closed w body s,
        )
    read :
        (bytes : Bytes) (s : S)
        → code ≡ status_ok
        → web.read_limited body (max_response_bytes + 1) w.state ≡ (ok bytes, s)
        → length bytes ≤ max_response_bytes
        → Reads code body w (returned bytes, closed w body s)

  -- How a request ends: it cannot be made, it is not answered, or its response ends.
  pub data Fetches (u : Url) (w : World S) : Outcome Bytes × World S → Type 0 where
    no_request :
        (e : Error) → web.new_request u ≡ err e → Fetches u w (failed (wrap "create request" e), w)
    unanswered :
        (req : web.Request) (e : Error) (s : S)
        → web.new_request u ≡ ok req
        → web.send (web.set_header "Accept" "application/json" req) w.state ≡ (err e, s)
        → Fetches u w (failed (wrap "send request" e), record w { state = s })
    answered :
        (req : web.Request) (code : ℕ) (body : web.Body) (s : S) {x : Outcome Bytes × World S}
        → web.new_request u ≡ ok req
        → web.send (web.set_header "Accept" "application/json" req) w.state ≡ (ok (code, body), s)
        → Reads code body (record w { state = s }) x
        → Fetches u w x

  module _ (code : ℕ) (body : web.Body) (w : World S) where
    unexpected_lem :
        code ≢ status_ok
        → read_response web code body w
          ≡ (failed (errorf ("unexpected status " <> decimal (pos code))), closed w body w.state)
    unfolding read_response closing monad
    unexpected_lem other = ground arith

    module _ (fine : code ≡ status_ok) {s : S} where
      unread_lem :
          {e : Error}
          → web.read_limited body (max_response_bytes + 1) w.state ≡ (err e, s)
          → read_response web code body w ≡ (failed (wrap "read body" e), closed w body s)
      unfolding read_response closing monad
      unread_lem got = ground (arith, fine, got)

      module _ {bytes : Bytes}
          (got : web.read_limited body (max_response_bytes + 1) w.state ≡ (ok bytes, s)) where
        too_long_lem :
            max_response_bytes < length bytes
            → read_response web code body w ≡ (
              failed (
                  errorf
                    ("response body exceeds " <> (decimal (pos max_response_bytes) <> " bytes"))),
              closed w body s,
            )
        unfolding read_response closing monad
        too_long_lem long = ground (arith, fine, got)

        read_lem :
            length bytes ≤ max_response_bytes
            → read_response web code body w ≡ (returned bytes, closed w body s)
        unfolding read_response closing monad
        read_lem short = ground (arith, fine, got)

    read_response-Reads : Reads code body w (read_response web code body w)
    read_response-Reads = elim (Bool-cases (code == status_ok)) [
      | inl fine ↦ answer (ground (arith, fine)) _ _ refl
      | inr other ↦ rw (unexpected_lem (ground (arith, other))) (unexpected (ground (arith, other)))
    ]
      where
        answer :
            code ≡ status_ok
            → (r : Result Bytes) (s : S)
            → web.read_limited body (max_response_bytes + 1) w.state ≡ (r, s)
            → Reads code body w (read_response web code body w)
        answer fine (err e) s got = rw (unread_lem fine got) (unread e s fine got)
        answer fine (ok bytes) s got = elim (Bool-cases (ltb max_response_bytes (length bytes))) [
          | inl long ↦
              rw (too_long_lem fine got (ground (arith, long)))
                (too_long bytes s fine got (ground (arith, long)))
          | inr short ↦
              rw (read_lem fine got (ground (arith, short)))
                (read bytes s fine got (ground (arith, short)))
        ]

  module _ (u : Url) (w : World S) where
    no_request_lem :
        {e : Error}
        → web.new_request u ≡ err e
        → get_json web u w ≡ (failed (wrap "create request" e), w)
    unfolding get_json monad
    no_request_lem none_made = ground (arith, none_made)

    module _ {req : web.Request} (made : web.new_request u ≡ ok req) {s : S} where
      unanswered_lem :
          {e : Error}
          → web.send (web.set_header "Accept" "application/json" req) w.state ≡ (err e, s)
          → get_json web u w ≡ (failed (wrap "send request" e), record w { state = s })
      unfolding get_json monad
      unanswered_lem got = ground (arith, made, got)

      answered_lem :
          {code : ℕ} {body : web.Body}
          → web.send (web.set_header "Accept" "application/json" req) w.state ≡ (ok (code, body), s)
          → get_json web u w ≡ read_response web code body (record w { state = s })
      unfolding get_json monad
      answered_lem got = ground (arith, made, got)

    -- Each way in which a request ends. It returns a body exactly if the request could be made, the
    -- answer has the status 200 and its body is read with no more bytes than the limit; what goes wrong
    -- is told by an error that names the step. The body of an answer is closed in each case, after
    -- which nothing is called, and nothing is put into the log.
    pub get_json-Fetches : Fetches u w (get_json web u w)
    get_json-Fetches = made _ refl
      where
        sent :
            (req : web.Request)
            → web.new_request u ≡ ok req
            → (r : Result (ℕ × web.Body)) (s : S)
            → web.send (web.set_header "Accept" "application/json" req) w.state ≡ (r, s)
            → Fetches u w (get_json web u w)
        sent req good (err e) s got = rw (unanswered_lem good got) (unanswered req e s good got)
        sent req good (ok (code, body)) s got =
            rw (answered_lem good got)
              (answered req code body s good got (read_response-Reads code body _))

        made : (r : Result web.Request) → web.new_request u ≡ r → Fetches u w (get_json web u w)
        made (err e) bad = rw (no_request_lem bad) (no_request e bad)
        made (ok req) good = sent req good _ _ refl
