-- ===== src/Proxy/Response/Outcome.antt =====
-- AccessLogMiddleware (cmd/proxy/context.go): what a client can conclude from a response, and what
-- the access log says of it.
use debuginfod_pwndbg_re.Prelude.{
  ℕ, ◌%◌, ◌^◌, ◌<◌, ◌≤◌, true, false, List, [], ◌∷◌, Option, none, some, Bytes, length,
  length-append, ◌≡◌, ◌≢◌, refl, sym, arith, Option-cases, if_intro, inl, inr, ◌⊎◌,
}
use mathlib.Core.Option.{some-injective}
use debuginfod_pwndbg_re.Proxy.Errors.{Error, error_status}
use debuginfod_pwndbg_re.Proxy.Headers.{Headers}
use debuginfod_pwndbg_re.Proxy.Response.{
  Call, LoggingWriter, new_writer, send_header, send_body, call, calls, http_error, Handled,
  log_entry, error_reply, answer_error, failed_late, access_log_middleware,
}

-- The counters of loggingResponseWriter agree with what went out.
abbrev IsSync : LoggingWriter → Type 0
IsSync w =
    ((w.wrote_header ≡ false)
      × (w.committed ≡ none)
      × (w.body ≡ [])
      × (w.status_code ≡ 0)
      × (w.bytes_sent ≡ 0))
    ⊎ ((w.wrote_header ≡ true)
        × ((h : Headers) × (w.committed ≡ some (w.status_code, h)))
        × (w.bytes_sent ≡ length w.body % 2 ^ 64))

send_header-IsSync : (code : ℕ) (w : LoggingWriter) → IsSync w → IsSync (send_header code w)
unfolding send_header
send_header-IsSync code w (inl (q, c, b, s, n)) =
    simp q (inr (refl, (w.headers, refl), ground (arith, n, b)))
send_header-IsSync code w (inr (q, c, n)) = simp q (inr (refl, c, n))

send_header_sent : (code : ℕ) (w : LoggingWriter) → (send_header code w).wrote_header ≡ true
unfolding send_header
send_header_sent code w = ground arith

call-IsSync : (c : Call) (w : LoggingWriter) → IsSync w → IsSync (call c w)
unfolding call send_body
call-IsSync (Call.edit f) w s = s
call-IsSync (Call.write_header code) w s = send_header-IsSync code w s
call-IsSync (Call.write now bytes) w s = elim (send_header-IsSync 200 w s) [
  | inl (q, _, _, _, _) ↦ (cc (send_header_sent 200 w))
  | inr (q, c, n) ↦ inr (q, c, omega (arith, n, length-append (send_header 200 w).body bytes))
]

calls-IsSync : (cs : List Call) (w : LoggingWriter) → IsSync w → IsSync (calls cs w)
unfolding calls
calls-IsSync [] w s = s
calls-IsSync (c ∷ rest) w s = calls-IsSync rest (call c w) (call-IsSync c w s)

pub answer_error-IsSync :
    (text : Error → Bytes) (now : ℕ) (e : Option Error) (w : LoggingWriter)
    → IsSync w
    → IsSync (answer_error text now e w)
unfolding answer_error
answer_error-IsSync text now none w s = s
answer_error-IsSync text now (some e) w s =
    if_intro IsSync w.wrote_header (λ _. s) (λ _. calls-IsSync (error_reply text now e) w s)

new_writer-IsSync : (start : ℕ) → IsSync (new_writer start)
new_writer-IsSync start = inl (refl, refl, refl, refl, refl)

-- What the access log says is what the client got, for every handler: its status is the one that
-- went out, or 0 if the handler sent nothing and no error was answered, and its bytes are those of
-- the body, both at the width of their columns.
pub log_entry_faithful :
    (text : Error → Bytes) (start now : ℕ) (handled : Handled)
    → let s = access_log_middleware text start now handled in
      (((s.writer.committed ≡ none) × (s.writer.body ≡ []) × (s.entry.status ≡ 0))
        ⊎ ((code : ℕ) × (h : Headers) × (s.writer.committed ≡ some (code, h))
            × (s.entry.status ≡ code % 2 ^ 16)))
      × (s.entry.bytes_sent ≡ length s.writer.body % 2 ^ 64)
unfolding access_log_middleware log_entry
log_entry_faithful text start now (cs, e) =
    faithful (answer_error text now e (calls cs (new_writer start)))
      (answer_error-IsSync text now e _ (calls-IsSync cs _ (new_writer-IsSync start)))
  where
    faithful :
        (w : LoggingWriter)
        → IsSync w
        → (((w.committed ≡ none) × (w.body ≡ []) × (w.status_code % 2 ^ 16 ≡ 0))
            ⊎ ((code : ℕ) × (h : Headers) × (w.committed ≡ some (code, h))
                × (w.status_code % 2 ^ 16 ≡ code % 2 ^ 16)))
          × (w.bytes_sent ≡ length w.body % 2 ^ 64)
    faithful w (inl (q, c, b, s, n)) = (inl (c, b, omega arith), ground (arith, n, b))
    faithful w (inr (q, (h, c), n)) = (inr (w.status_code, h, c, refl), n)

error_status-ge : (e : Error) → 400 ≤ error_status e
unfolding error_status
error_status-ge e = ground arith

error_reply_status :
    (text : Error → Bytes) (now : ℕ) (e : Error) (w : LoggingWriter)
    → w.wrote_header ≡ false
    → (h : Headers) × ((calls (error_reply text now e) w).committed ≡ some (error_status e, h))
unfolding error_reply http_error calls call send_header send_body
error_reply_status text now e w q = simp q (_, refl)

answer_uncommitted :
    (text : Error → Bytes) (now : ℕ) (e x : Error) (w : LoggingWriter)
    → IsSync w
    → e ≡ x
    → w.committed ≡ none
    → ((h : Headers) × ((answer_error text now (some e) w).committed ≡ some (error_status x, h)))
      × (failed_late (some e) w.wrote_header ≡ false)
unfolding answer_error
answer_uncommitted text now e x w (inl (q, _, _, _, _)) n unsent =
    simp q (rw (sym n) (error_reply_status text now e w q), refl)
answer_uncommitted text now e x w (inr (q, (h, c), _)) n unsent = cc

answer_committed :
    (text : Error → Bytes) (now : ℕ) (e : Error) (w : LoggingWriter)
    → IsSync w
    → w.committed ≢ none
    → (answer_error text now (some e) w ≡ w) × (failed_late (some e) w.wrote_header ≡ true)
unfolding answer_error
answer_committed text now e w (inl (q, c, _, _, _)) sent = absurd (sent c)
answer_committed text now e w (inr (q, _, _)) sent = simp q (refl, refl)

-- What an error of a handler makes of its response. Nothing sent yet: the client gets the status
-- of the error, and the connection stays. Headers sent: they and the body stay as they are, and
-- the connection is dropped. No error: the response is what the handler sent.
pub access_log_middleware_outcome :
    (text : Error → Bytes) (start now : ℕ) (cs : List Call) (e : Option Error)
    → let done = calls cs (new_writer start) in
      let s = access_log_middleware text start now (cs, e) in
      (e ≡ none → (s.writer ≡ done) × (s.aborted ≡ false))
      × ((x : Error)
          → e ≡ some x
          → done.committed ≡ none
          → ((h : Headers) × (s.writer.committed ≡ some (error_status x, h))) × (s.aborted ≡ false))
      × ((x : Error) → e ≡ some x → done.committed ≢ none → (s.writer ≡ done) × (s.aborted ≡ true))
unfolding access_log_middleware answer_error
access_log_middleware_outcome text start now cs none = (λ _. (refl, refl), λ x q. cc, λ x q. cc)
access_log_middleware_outcome text start now cs (some e) = (
  λ n. cc,
  λ x n unsent.
      answer_uncommitted text now e x _ (calls-IsSync cs _ (new_writer-IsSync start))
        (some-injective _ _ n) unsent,
  λ x n sent. answer_committed text now e _ (calls-IsSync cs _ (new_writer-IsSync start)) sent,
)

-- No error passes for a success: a response that was not cut off and whose status is below 400
-- comes from a handler that returned no error, and is just what that handler sent.
pub access_log_middleware-NoError :
    (text : Error → Bytes) (start now : ℕ) (cs : List Call) (e : Option Error)
    → (code : ℕ) (h : Headers) → (access_log_middleware text start now (cs, e)).aborted ≡ false
    → (access_log_middleware text start now (cs, e)).writer.committed ≡ some (code, h)
    → code < 400
    → (e ≡ none)
      × ((access_log_middleware text start now (cs, e)).writer ≡ calls cs (new_writer start))
access_log_middleware-NoError text start now cs none code h whole sent good =
    (refl, ((access_log_middleware_outcome text start now cs none).0 refl).0)
access_log_middleware-NoError text start now cs (some e) code h whole sent good =
    elim (Option-cases (calls cs (new_writer start)).committed) [
      | inl c ↦
          let (h', c') =
            ((access_log_middleware_outcome text start now cs (some e)).1 e refl c).0 in
          absurd (ground (arith, c', sent, error_status-ge e))
      | inr (a, c) ↦
          let cut : _ =
            ((access_log_middleware_outcome text start now cs (some e)).2 e refl (λ n. cc)).1 in
          cc
    ]
