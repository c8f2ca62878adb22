-- ===== src/Proxy/Errors.antt =====
-- cmd/proxy: the errors that the finder, the cache and the handlers exchange, `errors.Is` on them,
-- and the status that AccessLogMiddleware (cmd/proxy/context.go) answers an error with.
use debuginfod_pwndbg_re.Prelude.{ℕ, Bool, true, false, ◌||◌, String, if◌then◌else◌}

-- The `var Err… = errors.New(…)` values, which `errors.Is` compares by identity.
pub data Sentinel : Type 0 where
  debuginfo_not_found source_not_implemented temporary_down db_no_row cache_busy : Sentinel

unfoldable pub same_sentinel : Sentinel → Sentinel → Bool
same_sentinel Sentinel.debuginfo_not_found Sentinel.debuginfo_not_found = true
same_sentinel Sentinel.source_not_implemented Sentinel.source_not_implemented = true
same_sentinel Sentinel.temporary_down Sentinel.temporary_down = true
same_sentinel Sentinel.db_no_row Sentinel.db_no_row = true
same_sentinel Sentinel.cache_busy Sentinel.cache_busy = true
same_sentinel _ _ = false

pub data Error : Type 0 where
  sentinel : Sentinel → Error
  build_id_too_long build_id_too_short : ℕ → Error
  host_is_down : String → Error
  invalid_status : ℕ → Error
  -- `ctx.Err()`
  ctx_done : Error
  -- an error of the network, the database or the file system
  other : String → Error
  -- `stderrors.Join(a, b)`
  join : Error → Error → Error

abbrev pub not_found : Error
not_found = Error.sentinel Sentinel.debuginfo_not_found

-- `errors.Is(err, target)`
unfoldable pub is : Sentinel → Error → Bool
unfolding same_sentinel
is target (Error.sentinel s) = same_sentinel target s
is target (Error.join a b) = is target a || is target b
is target _ = false

pub data Result {ℓ} (A : Type ℓ) : Type ℓ where
  ok : A → Result A
  err : Error → Result A

-- The `switch` of AccessLogMiddleware, for a handler that has sent nothing yet.
unfoldable pub error_status : Error → ℕ
unfolding is
error_status e =
    if is Sentinel.source_not_implemented e
    then 501
    else if is Sentinel.debuginfo_not_found e
    then 404
    else if is Sentinel.temporary_down e
    then 503
    else 500
