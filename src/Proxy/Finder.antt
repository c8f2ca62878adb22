-- ===== src/Proxy/Finder.antt =====
-- cmd/proxy/finder.go, the resolution of a build id: DebugInfoFinder with its servers, the state
-- cache over the database, tryAllServers, bgFindByBuildID, FindByBuildID and applySourceRules.
-- Times and durations are nanoseconds; a time counts from Go's zero time.
use Prim.Native.String.{len}
use debuginfod_pwndbg_re.Prelude.{
  ℕ, zero, suc, ◌+◌, ◌-◌, ◌*◌, ◌%◌, ◌^◌, min, Bool, true, false, String, str_eq, Option, none, some,
  List, [], ◌∷◌, Bytes, if◌then◌else◌, ltb, ◌==◌, not, lookup,
}
use debuginfod_pwndbg_re.Proxy.Errors.{Error, Sentinel, is, not_found, Result, ok, err}
pub mod Config
pub mod Select
pub mod Backoff
pub mod Attempts
pub mod Answers
pub mod Sources
pub mod Memory
mod Tests

pub record Server : Type 0 where
  pub name : String
  pub url : String
  pub source_available : ℕ
  pub down : Bool
  pub source_via : String

-- What the map fields of DebugInfoFinder hold.
pub record Upstreams : Type 0 where
  pub servers : List (String × Server)
  pub delegates : List (String × Server)

pub record StateHeaders : Type 0 where
  pub size : ℕ
  pub file : Bytes
  pub archive : Bytes
  pub ima_signature : Bytes

-- `last_error` keeps the error whose text the database holds; `none` is the empty text.
pub record BuildIdState : Type 0 where
  pub build_id : String
  pub last_host : String
  pub last_error : Option Error
  pub last_success : Bool
  pub counter : ℕ
  pub updated_at : ℕ
  pub response_headers : StateHeaders

pub record ResolveLogEntry : Type 0 where
  pub build_id : String
  pub resolved_host : String
  pub error_msg : Option Error

abbrev pub no_headers : StateHeaders
no_headers = record { size = 0; file = []; archive = []; ima_signature = [] }

-- `BuildIDState{BuildID: buildID}`
unfoldable pub fresh_state : String → BuildIdState
fresh_state build_id = record {
  build_id = build_id;
  last_host = "";
  last_error = none;
  last_success = false;
  counter = 0;
  updated_at = 0;
  response_headers = no_headers;
}

-- The expirable LRU of golang-lru and the `stateStore` over ClickHouse, with the state of each.
pub record Stores : Type 1 where
  pub Cache : Type 0
  pub Db : Type 0
  pub cache_get : String → Cache → Option BuildIdState × Cache
  pub cache_add : String → BuildIdState → Cache → Cache
  pub db_get : String → Db → Result BuildIdState
  pub db_update : BuildIdState → Db → Db
  pub db_resolve_log : List ResolveLogEntry → Db → Db

-- What the probes of one resolution do: the outcome of each, the order in which they reach the
-- channel, and how many have done so when the `select` sees the deadline, if it ever does.
pub record Race : Type 0 where
  pub probe : Server → Result StateHeaders
  pub order : List Server
  pub deadline : Option ℕ

pub record ResolveResult : Type 0 where
  pub server : Server
  pub headers : StateHeaders

abbrev pub second : ℕ
second = 1000000000

abbrev pub minute : ℕ
minute = 60 * second

abbrev pub hour : ℕ
hour = 60 * minute

-- `time.Since`: a duration is an int64 and saturates; a clock that went back gives no wait less
-- than any of the code's, as 0 does.
abbrev pub max_duration : ℕ
max_duration = 2 ^ 63 - 1

unfoldable pub since : ℕ → ℕ → ℕ
since now t = min (now - t) max_duration

abbrev pub previous : Option ℕ → Option ℕ
previous none = none
previous (some n) = some (n - 1)

-- Whether the deadline is what the `select` sees now.
abbrev pub expired : Option ℕ → Bool
expired none = false
expired (some n) = n == 0

-- The `range f.servers` with its `continue`: the servers that a resolution probes.
unfoldable pub probed : List (String × Server) → List Server
probed [] = []
probed ((_, s) ∷ rest) = if s.down then probed rest else s ∷ probed rest

-- The `select` of tryAllServers: the first answer in the channel, the channel closed after the
-- last probe, or the deadline.
unfoldable pub first_answer :
    (Server → Result StateHeaders) → Option ℕ → List Server → Result ResolveResult
first_answer probe deadline [] = if expired deadline then err Error.ctx_done else err not_found
first_answer probe deadline (s ∷ rest) =
    let later = first_answer probe (previous deadline) rest in
    let here : Result ResolveResult = elim (probe s) [
      | ok h ↦ ok (record { server = s; headers = h })
      | err _ ↦ later
    ] in
    if expired deadline then err Error.ctx_done else here

abbrev pub error_of : Result StateHeaders → Option Error
error_of (ok _) = none
error_of (err e) = some e

-- The `entries` that the goroutines append, one for each probe.
unfoldable pub log_entries :
    String → (Server → Result StateHeaders) → List Server → List ResolveLogEntry
log_entries build_id probe [] = []
log_entries build_id probe (s ∷ rest) =
    record { build_id = build_id; resolved_host = s.name; error_msg = error_of (probe s) }
    ∷ log_entries build_id probe rest

unfoldable pub try_all_servers : Race → Result ResolveResult
try_all_servers race = first_answer race.probe race.deadline race.order

-- `switch state.Counter`: how long a build id that failed so often is left alone.
unfoldable pub in_backoff : ℕ → ℕ → Bool
in_backoff counter elapsed =
    if counter == 1
    then ltb elapsed (30 * minute)
    else if counter == 2
    then ltb elapsed (1 * hour)
    else if counter == 3
    then ltb elapsed (2 * hour)
    else ltb elapsed (24 * hour)

-- What a handler sees: a server that may be nil, and an error that may be nil.
pub data Outcome : Type 0 where
  returned : Option Server → Option Error → Outcome
  -- the nil server is dereferenced
  panicked : Outcome

-- applySourceRules for the endpoint "source".
unfoldable pub source_rules : Upstreams → Option Server → Option Error → Outcome
source_rules u server (some e) =
    if is Sentinel.debuginfo_not_found e
    then Outcome.returned server
        (some (Error.join (Error.sentinel Sentinel.source_not_implemented) e))
    else Outcome.returned server (some e)
source_rules u none none = Outcome.panicked
source_rules u (some server) none =
    let missing =
      Outcome.returned (some server) (some (Error.sentinel Sentinel.source_not_implemented)) in
    let delegated : Outcome = elim (lookup server.source_via u.delegates) [
      | none ↦ missing
      | some via ↦ if via.down then missing else Outcome.returned (some via) none
    ] in
    if server.source_available == 0 then delegated else Outcome.returned (some server) none

unfoldable pub apply_source_rules : Upstreams → String → Option Server → Option Error → Outcome
apply_source_rules u endpoint server e =
    if str_eq endpoint "source" then source_rules u server e else Outcome.returned server e

abbrev pub server_of : Result Server → Option Server
server_of (ok s) = some s
server_of (err _) = none

abbrev pub failure_of : Result Server → Option Error
failure_of (ok _) = none
failure_of (err e) = some e

-- The host of a state with LastSuccess, as bgFindByBuildID and the fast path of FindByBuildID
-- both read it.
unfoldable pub known_host : Upstreams → String → Result Server
known_host u last_host = elim (lookup last_host u.servers) [
  | none ↦ err not_found
  | some host ↦
      if host.down
      then err (Error.join (Error.host_is_down host.name) (Error.sentinel Sentinel.temporary_down))
      else ok host
]

-- The fast path: a down host is reported as it is, all else goes through the source rules.
unfoldable pub fast_path : Upstreams → String → String → Outcome
fast_path u last_host endpoint = elim (lookup last_host u.servers) [
  | none ↦ apply_source_rules u endpoint none (some not_found)
  | some host ↦
      if host.down
      then Outcome.returned none (
          some (Error.join (Error.host_is_down host.name) (Error.sentinel Sentinel.temporary_down)))
      else apply_source_rules u endpoint (some host) none
]

module _ (s : Stores) where
  open s use {Cache, Db, cache_get, cache_add, db_get, db_update, db_resolve_log}

  pub record World : Type 0 where
    pub cache : Cache
    pub db : Db

  unfoldable pub load_state : String → World → Result BuildIdState × World
  load_state build_id w = elim (db_get build_id w.db) [
    | err e ↦
        if is Sentinel.db_no_row e
        then (
          ok (fresh_state build_id),
          record w { cache = cache_add build_id (fresh_state build_id) w.cache },
        )
        else (err e, w)
    | ok state ↦ (ok state, record w { cache = cache_add build_id state w.cache })
  ]

  unfoldable pub get_state : String → World → Result BuildIdState × World
  get_state build_id w =
      let (found, cache') = cache_get build_id w.cache in
      elim found [
        | some state ↦ (ok state, record w { cache = cache' })
        | none ↦ load_state build_id (record w { cache = cache' })
      ]

  -- A failed write to the database is only logged.
  unfoldable pub update_state : BuildIdState → World → World
  update_state state w = record {
    cache = cache_add state.build_id state w.cache;
    db = db_update state w.db;
  }

  -- The end of bgFindByBuildID, with its deferred UpdateState.
  unfoldable pub record_result :
      BuildIdState → ℕ → Result ResolveResult → World → Result Server × World
  record_result state now (err e) w = (
    err e,
    update_state
        (record state {
          updated_at = now;
          last_success = false;
          last_error = some e;
          counter = (state.counter + 1) % 2 ^ 32;
        })
        w,
  )
  record_result state now (ok r) w = (
    ok r.server,
    update_state
        (record state {
          updated_at = now;
          last_success = true;
          last_host = r.server.name;
          response_headers = r.headers;
        })
        w,
  )

  unfoldable pub resolve :
      Upstreams → Race → ℕ → String → BuildIdState → World → Result Server × World
  resolve u race now build_id state w =
      let logged = record w {
        db = db_resolve_log (log_entries build_id race.probe race.order) w.db;
      } in
      let probed_now = record_result state now (try_all_servers race) logged in
      if state.last_success
      then (known_host u state.last_host, w)
      else if ltb 30 state.counter
      then (err not_found, w)
      else if in_backoff state.counter (since now state.updated_at)
      then (err not_found, w)
      else probed_now

  unfoldable pub bg_find : Upstreams → Race → ℕ → String → World → Result Server × World
  bg_find u race now build_id w =
      let (state, w') = get_state build_id w in
      elim state [ err e ↦ (err e, w') | ok st ↦ resolve u race now build_id st w' ]

  -- The slow path: the resolution runs to its end even if the client is gone, which is then what
  -- the caller hears of.
  unfoldable pub slow_path : Upstreams → Race → ℕ → Bool → String → String → World → Outcome × World
  slow_path u race now client_gone build_id endpoint w =
      let (r, w') = bg_find u race now build_id w in
      (
        if client_gone
            then Outcome.returned none (some Error.ctx_done)
            else apply_source_rules u endpoint (server_of r) (failure_of r),
        w',
      )

  -- FindByBuildID behind its length checks.
  unfoldable pub looked_up : Upstreams → Race → ℕ → Bool → String → String → World → Outcome × World
  looked_up u race now client_gone build_id endpoint w =
      let (state, w') = get_state build_id w in
      elim state [
        | err e ↦ (Outcome.returned none (some e), w')
        | ok st ↦
            if st.last_success
            then (fast_path u st.last_host endpoint, w')
            else slow_path u race now client_gone build_id endpoint w'
      ]

  unfoldable pub find_by_build_id :
      Upstreams → Race → ℕ → Bool → String → String → World → Outcome × World
  find_by_build_id u race now client_gone build_id endpoint w =
      if ltb 64 (len build_id)
      then (Outcome.returned none (some (Error.build_id_too_long (len build_id))), w)
      else if ltb (len build_id) 32
      then (Outcome.returned none (some (Error.build_id_too_short (len build_id))), w)
      else looked_up u race now client_gone build_id endpoint w
