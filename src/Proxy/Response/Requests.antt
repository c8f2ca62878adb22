-- ===== src/Proxy/Response/Requests.antt =====
-- proxyRequest, Probe and Fetch (cmd/proxy/main.go, cmd/proxy/finder.go) behind the middleware.
use debuginfod_pwndbg_re.Prelude.{
  ℕ, true, false, String, str_eq, List, [], ◌∷◌, ◌++◌, append-nil, if_intro, Option, none, some,
  Bytes, codes, ◌==◌, ◌≡◌, refl, ap, ◌∙◌, arith, Bool-cases, inl, inr, ◌⊎◌, if◌then◌else◌,
}
use debuginfod_pwndbg_re.Proxy.Errors.{Error, Sentinel, is, Result, ok, err, error_status}
use debuginfod_pwndbg_re.Proxy.Finder.{Server}
use debuginfod_pwndbg_re.Proxy.Headers.{Headers, set, state_headers}
use debuginfod_pwndbg_re.Proxy.Response.{
  Call, Handled, send_header, send_body, call, calls, access_log_middleware, answer_error, Upstream,
  refused_status, fetch, early_answer, final_answer, probe, stream, through_cache,
  cacheable_endpoints, proxy_request,
}
use debuginfod_pwndbg_re.Proxy.Response.Outcome.{access_log_middleware_outcome}

-- What a client sees of a request that does not go through the cache: the error of the lookup, or
-- the error of the transport, or what the upstream answered, where 404 and 501 keep their meaning
-- and any other failure is the proxy's own.
abbrev pub answer_status : Result Server → Result Upstream → ℕ
answer_status (err e) answer = error_status e
answer_status (ok host) (err e) = error_status e
answer_status (ok host) (ok resp) =
    if resp.status == 200
    then 200
    else if resp.status == 404
    then 404
    else if resp.status == 501
    then 501
    else 500

error_response :
    (text : Error → Bytes) (start now : ℕ) (e : Error)
    → (h : Headers) × ((access_log_middleware text start now ([], some e)).writer.committed
        ≡ some (error_status e, h))
error_response text start now e =
    ((access_log_middleware_outcome text start now [] (some e)).1 e refl (unfold calls in refl)).0

refused_status_status :
    (n : ℕ)
    → n == 200 ≡ false
    → error_status (refused_status n)
      ≡ (if n == 200 then 200 else if n == 404 then 404 else if n == 501 then 501 else 500)
unfolding refused_status error_status is
refused_status_status n h = ground arith

-- What has happened to the headers before the upstream is asked, if anything has.
abbrev edits : Option (Headers → Headers) → List Call
edits none = []
edits (some g) = Call.edit g ∷ []

edited_error :
    (text : Error → Bytes) (start now : ℕ) (g : Option (Headers → Headers)) (e : Error)
    → (h : Headers) × ((access_log_middleware text start now (edits g, some e)).writer.committed
        ≡ some (error_status e, h))
edited_error text start now none e = error_response text start now e
edited_error text start now (some g) e =
    ((access_log_middleware_outcome text start now (Call.edit g ∷ []) (some e)).1 e refl
      (unfold calls call in refl)).0

edited_response :
    (text : Error → Bytes) (start now code : ℕ) (g : Option (Headers → Headers))
    (f : Headers → Headers) (body : Bytes)
    → (e : Option Error)
    → (h : Headers) × ((access_log_middleware text start now (
      edits g ++ (Call.edit f ∷ Call.write_header code ∷ Call.write now body ∷ []),
      e,
    )).writer.committed
        ≡ some (code, h))
unfolding access_log_middleware answer_error calls call send_header send_body
edited_response text start now code none f body none = (_, refl)
edited_response text start now code none f body (some e) = (_, refl)
edited_response text start now code (some g) f body none = (_, refl)
edited_response text start now code (some g) f body (some e) = (_, refl)

-- The response straight from the upstream, behind what has happened to the headers.
streamed_status :
    (text : Error → Bytes) (host : Server) (start now : ℕ) (g : Option (Headers → Headers))
    → (answer : Result Upstream)
    → let r = stream (codes host.name) now (fetch answer) in
      (h : Headers) × ((access_log_middleware text start now (edits g ++ r.0, r.1)).writer.committed
        ≡ some (answer_status (ok host) answer, h))
unfolding fetch stream
streamed_status text host start now g (err e) =
    rw (append-nil (edits g)) (edited_error text start now g e)
streamed_status text host start now g (ok resp) = elim (Bool-cases (resp.status == 200)) [
  | inl good ↦ simp good (
      let (h, e) = edited_response text start now resp.status g _ resp.body resp.body_error in
      (h, e ∙ ap (λ (n : ℕ). some (n, h)) (ground arith)))
  | inr bad ↦
      simp (bad, append-nil)
        (let (h, e) = edited_error text start now g (refused_status resp.status) in
          (h, e ∙ ap (λ (n : ℕ). some (n, h)) (refused_status_status resp.status bad) ∙ simp bad))
]

-- The request is answered past the cache: it is disabled; or the endpoint is neither of those whose
-- answers are cached; or it is full, which the cache says before it sends anything.
pub data Bypasses (endpoint : String) : Option Handled → Type 0 where
  disabled : Bypasses endpoint none
  uncached :
      (served : Handled)
      → str_eq endpoint "debuginfo" ≡ false
      → str_eq endpoint "executable" ≡ false
      → Bypasses endpoint (some served)
  full : (e : Error) → is Sentinel.cache_busy e ≡ true → Bypasses endpoint (some ([], some e))

-- The status of a request that is answered past the cache (with the cache disabled, for an endpoint
-- whose answers are not cached, or with the cache full), by what the lookup and the upstream answer,
-- for every endpoint: a client sees 200 only for an upstream's 200, and 404 only if the lookup or
-- the upstream says so.
pub proxy_request_status :
    (text : Error → Bytes) (endpoint : String) (start now : ℕ) (cache : Option Handled)
    → Bypasses endpoint cache
    → (found : Result Server) (answer : Result Upstream)
    → (h : Headers) × ((access_log_middleware text start now
          (proxy_request endpoint found cache now (fetch answer))).writer.committed
        ≡ some (answer_status found answer, h))
unfolding proxy_request through_cache
proxy_request_status text endpoint start now cache past (err e) answer =
    error_response text start now e
proxy_request_status text endpoint start now _ disabled (ok host) answer =
    streamed_status text host start now none answer
proxy_request_status text endpoint start now _ (uncached served a b) (ok host) answer =
    simp (a, b) (streamed_status text host start now none answer)
proxy_request_status text endpoint start now _ (full e busy) (ok host) answer =
    if_intro
      (λ (r : Handled).
        (h : Headers) × ((access_log_middleware text start now r).writer.committed
          ≡ some (answer_status (ok host) answer, h)))
      (cacheable_endpoints endpoint)
      (λ _.
        simp busy
          (streamed_status text host start now (some (set "x-cache" (codes "OVERLOADED"))) answer))
      (λ _. streamed_status text host start now none answer)

-- Without early hints a probe and a fetch agree on a server: both succeed or both fail alike, so
-- that what a probe promises is what a fetch finds, and the headers are those of the response.
probe-fetch :
    (early : List (ℕ × Headers)) (answer : Result Upstream)
    → early_answer early ≡ none
    → ((e : Error) × (probe early answer ≡ err e) × (fetch answer ≡ err e))
      ⊎ ((resp : Upstream) × (answer ≡ ok resp)
          × (probe early answer ≡ ok (state_headers resp.headers))
          × (fetch answer ≡ ok resp))
unfolding probe final_answer fetch
probe-fetch early (err e) h = inl (e, rw (h, probe), refl)
probe-fetch early (ok resp) h = elim (Bool-cases (resp.status == 200)) [
  | inl good ↦ inr (resp, refl, rw (h, probe) (simp good), simp good)
  | inr bad ↦ inl (refused_status resp.status, rw (h, probe) (simp bad), simp bad)
]

-- A request that finds the cache full is answered as if there were no cache: with the upstream's
-- status, body and errors.
proxy_request_busy :
    (endpoint : String) (host : Server) (now : ℕ) (e : Error) (answer : Result Upstream)
    → is Sentinel.cache_busy e ≡ true
    → cacheable_endpoints endpoint ≡ true
    → proxy_request endpoint (ok host) (some ([], some e)) now answer ≡ (
      Call.edit (set "x-cache" (codes "OVERLOADED"))
          ∷ (proxy_request endpoint (ok host) none now answer).0,
      (proxy_request endpoint (ok host) none now answer).1,
    )
unfolding proxy_request through_cache
proxy_request_busy endpoint host now e answer busy on = simp (on, busy)
