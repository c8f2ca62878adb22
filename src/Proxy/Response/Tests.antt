-- ===== src/Proxy/Response/Tests.antt =====
-- Requests that succeed, fail before a byte, and break off.
use debuginfod_pwndbg_re.Prelude.{
  ℕ, ◌%◌, ◌^◌, true, false, List, [], ◌∷◌, Option, none, some, Bytes, codes, bytes_eq, length, ◌≡◌,
  ◌≢◌, refl, arith, ◌⊎◌,
}
use debuginfod_pwndbg_re.Proxy.Errors.{Error, Sentinel, is, ok, err, error_status, not_found}
use debuginfod_pwndbg_re.Proxy.Finder.{Server}
use debuginfod_pwndbg_re.Proxy.Headers.{Headers, no_header, set, del, copy_headers, state_headers}
use debuginfod_pwndbg_re.Proxy.Response.{
  Call, new_writer, send_header, send_body, call, calls, http_error, Handled, log_entry,
  error_reply, answer_error, access_log_middleware, Upstream, refused_status, fetch, early_answer,
  final_answer, probe, stream, through_cache, proxy_request,
}
use debuginfod_pwndbg_re.Proxy.Response.Outcome.{
  log_entry_faithful, access_log_middleware_outcome, access_log_middleware-NoError,
}
use debuginfod_pwndbg_re.Proxy.Response.Requests.{answer_status, Bypasses, proxy_request_status}

program : Unit {0}
unfolding send_header send_body call calls http_error error_reply answer_error log_entry
    access_log_middleware refused_status fetch early_answer final_answer probe stream through_cache
    proxy_request set del copy_headers error_status is bytes_eq
program = tt

abbrev host : Server
host = record {
  name = "fedora";
  url = "https://debuginfod.fedoraproject.org";
  source_available = 1;
  down = false;
  source_via = "";
}

abbrev elf : Upstream
elf = record { status = 200; headers = no_header; body = codes "elf"; body_error = none }

abbrev cut_off : Upstream
cut_off = record elf { body_error = some (Error.other "unexpected EOF") }

abbrev missing : Upstream
missing = record elf { status = 404 }

abbrev text : Error → Bytes
text e = codes "error"

abbrev streamed : Handled
streamed = stream (codes "fedora") 9 (ok elf)

breaks_off :
    (access_log_middleware text 5 9 (stream (codes "fedora") 9 (ok cut_off))).aborted ≡ true
unfolding program
breaks_off = refl

whole : (access_log_middleware text 5 9 (stream (codes "fedora") 9 (ok elf))).aborted ≡ false
unfolding program
whole = refl

hinted :
    probe ((103, set "x-status" (codes "200") no_header) ∷ []) (err Error.ctx_done)
    ≡ ok (state_headers (set "x-status" (codes "200") no_header))
unfolding program
hinted = refl

log_entry_faithful_example :
    let s = access_log_middleware text 5 9 streamed in
    (((s.writer.committed ≡ none) × (s.writer.body ≡ []) × (s.entry.status ≡ 0))
      ⊎ ((code : ℕ) × (h : Headers) × (s.writer.committed ≡ some (code, h))
          × (s.entry.status ≡ code % 2 ^ 16)))
    × (s.entry.bytes_sent ≡ length s.writer.body % 2 ^ 64)
log_entry_faithful_example = log_entry_faithful text 5 9 streamed

access_log_middleware_outcome_example :
    let done = calls [] (new_writer 5) in
    let s = access_log_middleware text 5 9 ([], some not_found) in
    (some not_found ≡ none → (s.writer ≡ done) × (s.aborted ≡ false))
    × ((x : Error)
        → some not_found ≡ some x
        → done.committed ≡ none
        → ((h : Headers) × (s.writer.committed ≡ some (error_status x, h))) × (s.aborted ≡ false))
    × ((x : Error)
        → some not_found ≡ some x
        → done.committed ≢ none
        → (s.writer ≡ done) × (s.aborted ≡ true))
access_log_middleware_outcome_example = access_log_middleware_outcome text 5 9 [] (some not_found)

abbrev small : List Call
small = Call.write_header 200 ∷ Call.write 7 (codes "elf") ∷ []

small_committed :
    (access_log_middleware text 5 9 (small, none)).writer.committed ≡ some (200, no_header)
unfolding program
small_committed = refl

small_whole : (access_log_middleware text 5 9 (small, none)).aborted ≡ false
unfolding program
small_whole = refl

access_log_middleware-NoError_example :
    (◌≡◌ {A = Option Error} none none)
    × ((access_log_middleware text 5 9 (small, none)).writer ≡ calls small (new_writer 5))
access_log_middleware-NoError_example =
    access_log_middleware-NoError text 5 9 small none 200 no_header small_whole small_committed
      (omega arith)

proxy_request_status_example :
    (h : Headers) × ((access_log_middleware text 5 9 (
        proxy_request "source"
          (ok host)
          (some (small, none))
          9
          (fetch (ok missing)))).writer.committed
      ≡ some (answer_status (ok host) (ok missing), h))
proxy_request_status_example =
    proxy_request_status text "source" 5 9 (some (small, none))
      (Bypasses.uncached (small, none) refl refl) (ok host) (ok missing)

no_hints : early_answer [] ≡ none
unfolding program
no_hints = refl

busy : is Sentinel.cache_busy (Error.sentinel Sentinel.cache_busy) ≡ true
unfolding program
busy = refl
