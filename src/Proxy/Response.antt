-- ===== src/Proxy/Response.antt =====
-- cmd/proxy: the answer to one request. loggingResponseWriter, AccessLogMiddleware (context.go),
-- proxyRequest (main.go), Probe and Fetch (finder.go) and writeBody (filecache.go). A handler is
-- what it does to its ResponseWriter, call by call, with the error that it returns; the texts of
-- errors are the argument `text`.
use debuginfod_pwndbg_re.Prelude.{
  ℕ, ◌+◌, ◌*◌, ◌%◌, ◌^◌, Bool, true, false, ◌&&◌, String, str_eq, List, [], ◌∷◌, ◌++◌, Option, none,
  some, Bytes, codes, bytes_eq, length, ltb, ◌==◌, if◌then◌else◌,
}
use debuginfod_pwndbg_re.Proxy.Errors.{
  Error, Sentinel, is, not_found, Result, ok, err, error_status,
}
use debuginfod_pwndbg_re.Proxy.Finder.{Server, StateHeaders, since}
use debuginfod_pwndbg_re.Proxy.Headers.{
  Headers, no_header, set, del, proxy_headers, copy_headers, state_headers,
}
use debuginfod_pwndbg_re.Proxy.Cache.{CacheMeta, write_cached_headers}
pub mod Outcome
pub mod Requests
mod Tests

-- The calls of a handler: a change of the headers, WriteHeader, and a Write at a time, with the
-- bytes that the connection took.
pub data Call : Type 0 where
  edit : (Headers → Headers) → Call
  write_header : ℕ → Call
  write : ℕ → Bytes → Call

-- The ResponseWriter behind loggingResponseWriter: `committed` is the status that went out with
-- the headers of that moment.
pub record LoggingWriter : Type 0 where
  pub headers : Headers
  pub committed : Option (ℕ × Headers)
  pub body : Bytes
  pub status_code : ℕ
  pub wrote_header : Bool
  pub bytes_sent : ℕ
  pub start_at : ℕ
  pub sample_duration : Option ℕ

abbrev pub new_writer : ℕ → LoggingWriter
new_writer start = record {
  headers = no_header;
  committed = none;
  body = [];
  status_code = 0;
  wrote_header = false;
  bytes_sent = 0;
  start_at = start;
  sample_duration = none;
}

abbrev pub throughput_sample_bytes : ℕ
throughput_sample_bytes = 100 * 1024

unfoldable pub send_header : ℕ → LoggingWriter → LoggingWriter
send_header code w =
    if w.wrote_header
    then w
    else record w { wrote_header = true; status_code = code; committed = some (code, w.headers) }

abbrev pub sampled : ℕ → Option ℕ → ℕ → ℕ → Option ℕ
sampled start (some d) now sent = some d
sampled start none now sent =
    if ltb throughput_sample_bytes sent then some (since now start) else none

unfoldable pub send_body : ℕ → Bytes → LoggingWriter → LoggingWriter
send_body now bytes w =
    let sent = (w.bytes_sent + length bytes) % 2 ^ 64 in
    record w {
      body = w.body ++ bytes;
      bytes_sent = sent;
      sample_duration = sampled w.start_at w.sample_duration now sent;
    }

unfoldable pub call : Call → LoggingWriter → LoggingWriter
call (edit f) w = record w { headers = f w.headers }
call (write_header code) w = send_header code w
call (write now bytes) w = send_body now bytes (send_header 200 w)

unfoldable pub calls : List Call → LoggingWriter → LoggingWriter
calls [] w = w
calls (c ∷ rest) w = calls rest (call c w)

-- http.Error: the length of another body is dropped.
unfoldable pub http_error : ℕ → ℕ → Bytes → List Call
http_error now code message =
    edit (λ h.
      set "x-content-type-options" (codes "nosniff")
        (set "content-type" (codes "text/plain; charset=utf-8") (del "content-length" h)))
    ∷ write_header code
    ∷ write now (message ++ 10 ∷ [])
    ∷ []

-- What the handler of an endpoint does.
abbrev pub Handled : Type 0
Handled = List Call × Option Error

pub record AccessLogEntry : Type 0 where
  pub status : ℕ
  pub cache_status : Bytes
  pub bytes_sent : ℕ
  pub error_msg : Option Error
  pub duration_100kb : ℕ
  pub response_headers : StateHeaders

abbrev pub or_zero : Option ℕ → ℕ
or_zero none = 0
or_zero (some d) = d

-- `aborted` is panic(http.ErrAbortHandler), which drops the connection.
pub record Served : Type 0 where
  pub writer : LoggingWriter
  pub entry : AccessLogEntry
  pub aborted : Bool

unfoldable pub log_entry : Option Error → LoggingWriter → AccessLogEntry
log_entry e w = record {
  status = w.status_code % 2 ^ 16;
  cache_status = w.headers "x-cache";
  bytes_sent = w.bytes_sent;
  error_msg = e;
  duration_100kb = or_zero w.sample_duration;
  response_headers = state_headers w.headers;
}

-- The `switch` with its messages.
unfoldable pub error_reply : (Error → Bytes) → ℕ → Error → List Call
error_reply text now e =
    let message =
      if is Sentinel.source_not_implemented e
      then codes "source not implemented"
      else if is Sentinel.debuginfo_not_found e
      then codes "not found"
      else if is Sentinel.temporary_down e
      then text e
      else codes "Internal Server Error" in
    http_error now (error_status e) message

unfoldable pub answer_error : (Error → Bytes) → ℕ → Option Error → LoggingWriter → LoggingWriter
answer_error text now none w = w
answer_error text now (some e) w = if w.wrote_header then w else calls (error_reply text now e) w

abbrev pub failed_late : Option Error → Bool → Bool
failed_late none committed_by_handler = false
failed_late (some _) committed_by_handler = committed_by_handler

-- AccessLogMiddleware around a handler that starts at `start` and returns at `now`.
unfoldable pub access_log_middleware : (Error → Bytes) → ℕ → ℕ → Handled → Served
access_log_middleware text start now (handler, resp_err) =
    let done = calls handler (new_writer start) in
    let answered = answer_error text now resp_err done in
    record {
      writer = answered;
      entry = log_entry resp_err answered;
      aborted = failed_late resp_err done.wrote_header;
    }

-- A response of an upstream; `body_error` is how the Read of its body fails, if it does.
pub record Upstream : Type 0 where
  pub status : ℕ
  pub headers : Headers
  pub body : Bytes
  pub body_error : Option Error

-- The statuses other than 200, for Probe and Fetch alike.
unfoldable pub refused_status : ℕ → Error
refused_status status =
    if status == 404
    then not_found
    else if status == 501
    then Error.sentinel Sentinel.source_not_implemented
    else Error.invalid_status status

-- Fetch, by what the client's Do returns.
unfoldable pub fetch : Result Upstream → Result Upstream
fetch (err e) = err e
fetch (ok resp) = if resp.status == 200 then ok resp else err (refused_status resp.status)

-- The informational responses before the final one, until one satisfies the probe.
unfoldable pub early_answer : List (ℕ × Headers) → Option StateHeaders
early_answer [] = none
early_answer ((code, h) ∷ rest) =
    let later = early_answer rest in
    if code == 103 && bytes_eq (h "x-status") (codes "200") then some (state_headers h) else later

unfoldable pub final_answer : Result Upstream → Result StateHeaders
final_answer (err e) = err e
final_answer (ok resp) =
    if resp.status == 200 then ok (state_headers resp.headers) else err (refused_status resp.status)

-- Probe
unfoldable pub probe : List (ℕ × Headers) → Result Upstream → Result StateHeaders
probe early final = elim (early_answer early) [ none ↦ final_answer final | some h ↦ ok h ]

-- writeBody, where `copy_error` is how io.Copy fails.
unfoldable pub write_body :
    CacheMeta → ℕ → Bytes → Bytes → Bool → ℕ → Bytes → Option Error → Handled
write_body meta status host_name cache_status streaming now body copy_error = (
  edit (write_cached_headers meta host_name cache_status streaming)
      ∷ write_header status
      ∷ write now body
      ∷ [],
  copy_error,
)

abbrev pub cacheable_endpoints : String → Bool
cacheable_endpoints name = if str_eq name "debuginfo" then true else str_eq name "executable"

unfoldable pub bypass : Headers → Headers
bypass h = if bytes_eq (h "x-cache") [] then set "x-cache" (codes "BYPASS") h else h

-- The response straight from the upstream.
unfoldable pub stream : Bytes → ℕ → Result Upstream → Handled
stream host_name now (err e) = ([], some e)
stream host_name now (ok resp) = (
  edit (λ h. bypass (set "x-server" host_name (copy_headers proxy_headers resp.headers h)))
      ∷ write_header resp.status
      ∷ write now resp.body
      ∷ [],
  resp.body_error,
)

abbrev pub is_busy : Option Error → Bool
is_busy none = false
is_busy (some e) = is Sentinel.cache_busy e

-- Through the cache, where `served` is what fileCache.Serve does; a full cache is bypassed.
unfoldable pub through_cache : Handled → Bytes → ℕ → Result Upstream → Handled
through_cache (served, e) host_name now fetched =
    let (rest, e') = stream host_name now fetched in
    if is_busy e
    then (served ++ edit (set "x-cache" (codes "OVERLOADED")) ∷ rest, e')
    else (served, e)

-- proxyRequest; `cache` is none when the file cache is disabled.
unfoldable pub proxy_request :
    String → Result Server → Option Handled → ℕ → Result Upstream → Handled
proxy_request endpoint (err e) cache now fetched = ([], some e)
proxy_request endpoint (ok host) none now fetched = stream (codes host.name) now fetched
proxy_request endpoint (ok host) (some served) now fetched =
    if cacheable_endpoints endpoint
    then through_cache served (codes host.name) now fetched
    else stream (codes host.name) now fetched
