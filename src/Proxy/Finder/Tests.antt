-- ===== src/Proxy/Finder/Tests.antt =====
-- Runs of the finder on small inputs, and the theorems of its modules at concrete data.
use debuginfod_pwndbg_re.Prelude.{
  ℕ, ◌+◌, ◌*◌, ap, subst, ◌≤◌, true, false, String, none, some, List, [], ◌∷◌, codes, ◌≡◌, refl,
  inl, inr, arith, lookup, put, lookup-put, eq_iff, str_eq, if◌then◌else◌, Option-cases, ◌↔◌,
}
use debuginfod_pwndbg_re.Proxy.Errors.{Error, Sentinel, is, Result, ok, err, not_found}
use debuginfod_pwndbg_re.Proxy.Finder.{
  Server, StateHeaders, BuildIdState, Race, ResolveResult, Stores, World, fresh_state, probed,
  first_answer, try_all_servers, get_state, load_state, update_state, record_result, resolve,
  bg_find, looked_up, find_by_build_id, apply_source_rules, source_rules, minute, hour, since,
  in_backoff, log_entries,
}
use debuginfod_pwndbg_re.Proxy.Finder.Config.{default_upstreams, fedora, debian}
use debuginfod_pwndbg_re.Proxy.Finder.Select.{Wins, Named, OnlyProbed, try_all_servers_iff}
use debuginfod_pwndbg_re.Proxy.Finder.Backoff.{Silent, retry_wait, resolve_failure}
use debuginfod_pwndbg_re.Proxy.Finder.Attempts.{bg_finds, bg_finds-le}
use debuginfod_pwndbg_re.Proxy.Finder.Answers.{Sound, find_by_build_id-Sound}
use debuginfod_pwndbg_re.Proxy.Finder.Sources.{NoNotFound, find_by_build_id-NoNotFound}
use debuginfod_pwndbg_re.Proxy.Finder.Memory.{find_again, get_state_cached}

-- A cache and a database that keep everything: a list of states by build id, and the number of
-- batches in the log.
abbrev Table : Type 0
Table = List (String × BuildIdState)

db_get : String → Table × ℕ → Result BuildIdState
db_get build_id db = elim (lookup build_id db.0) [
  | none ↦ err (Error.sentinel Sentinel.db_no_row)
  | some st ↦ ok st
]

abbrev tables : Stores
tables = record {
  Cache = Table;
  Db = Table × ℕ;
  cache_get = λ k c. (lookup k c, c);
  cache_add = put;
  db_get = db_get;
  db_update = λ st db. (put st.build_id st db.0, db.1);
  db_resolve_log = λ entries db. (db.0, db.1 + 1);
}

abbrev id : String
id = "0123456789abcdef0123456789abcdef01234567"

abbrev empty : World tables
empty = record { cache = []; db = ([], 0) }

abbrev headers : StateHeaders
headers = record { size = 42; file = codes "f"; archive = codes "a"; ima_signature = [] }

-- Only fedora has the build id, and debian answers first.
abbrev answer : Server → Result StateHeaders
answer s = if str_eq s.name "fedora" then ok headers else err not_found

abbrev won_race : Race
won_race = record { probe = answer; order = debian ∷ fedora ∷ []; deadline = none }

abbrev lost_race : Race
lost_race = record { probe = λ _. err not_found; order = debian ∷ fedora ∷ []; deadline = none }

abbrev late_race : Race
late_race = record { probe = answer; order = debian ∷ fedora ∷ []; deadline = some 1 }

abbrev result : ResolveResult
result = record { server = fedora; headers = headers }

program : Unit {0}
unfolding probed first_answer try_all_servers get_state load_state update_state record_result
    resolve bg_find looked_up find_by_build_id apply_source_rules source_rules since in_backoff
    log_entries lookup put db_get fresh_state retry_wait bg_finds
program = tt

wins : try_all_servers won_race ≡ ok result
unfolding program
wins = refl

loses : try_all_servers lost_race ≡ err not_found
unfolding program
loses = refl

-- The deadline of the resolution counts as a failure of the build id.
times_out : try_all_servers late_race ≡ err Error.ctx_done
unfolding program
times_out = refl

try_all_servers_iff_example :
    (try_all_servers won_race ≡ ok result) ↔ Wins answer none (debian ∷ fedora ∷ []) result
try_all_servers_iff_example = try_all_servers_iff won_race result

retry_waits : (retry_wait 1 ≡ 30 * minute) × (retry_wait 5 ≡ 24 * hour)
unfolding retry_wait
retry_waits = (refl, refl)

fresh_asks : ¬ Silent (fresh_state id) (1000 * hour)
unfolding fresh_state retry_wait
fresh_asks (inl h) = omega arith
fresh_asks (inr h) = omega arith

fresh_fails : (fresh_state id).last_success ≡ false
unfolding fresh_state
fresh_fails = refl

resolve_failure_example :
    (state' : BuildIdState) × ((resolve tables default_upstreams lost_race
        (1000 * hour)
        id
        (fresh_state id)
        empty).0
      ≡ err not_found)
    × ((resolve tables default_upstreams lost_race (1000 * hour) id (fresh_state id) empty).1.cache
        ≡ put (fresh_state id).build_id state' [])
    × (state'.last_success ≡ false)
    × (state'.counter ≡ (fresh_state id).counter + 1)
    × (resolve tables default_upstreams won_race (1000 * hour + 29 * minute) id state' empty
        ≡ (err not_found, empty))
resolve_failure_example =
    resolve_failure tables default_upstreams lost_race (1000 * hour) id (fresh_state id) empty
      not_found fresh_fails fresh_asks loses won_race (1000 * hour + 29 * minute) empty
      (unfold fresh_state retry_wait in omega arith)

fresh_own : (fresh_state id).build_id ≡ id
unfolding fresh_state
fresh_own = refl

only_probed :
    (race : Race) → race.order ≡ debian ∷ fedora ∷ [] → OnlyProbed default_upstreams.servers race
unfolding probed
only_probed race e =
    rw e ((inr (inr (inr (inr (inr (inr (inr (inl refl))))))), (inr (inr (inl refl)), tt)))

find_by_build_id-Sound_example :
    Sound
      (find_by_build_id tables default_upstreams won_race (1000 * hour) false id "source" empty).0
find_by_build_id-Sound_example =
    find_by_build_id-Sound tables default_upstreams won_race (only_probed won_race refl)
      (1000 * hour) false id "source" empty

db_get_errors :
    (build_id : String) (db : Table × ℕ) (e : Error)
    → db_get build_id db ≡ err e
    → is Sentinel.debuginfo_not_found e ≡ false
unfolding db_get is
db_get_errors build_id db e h = ground (arith, Option-cases (lookup build_id db.0))

find_by_build_id-NoNotFound_example :
    NoNotFound
      (find_by_build_id tables default_upstreams lost_race (1000 * hour) false id "source" empty).0
find_by_build_id-NoNotFound_example =
    find_by_build_id-NoNotFound tables db_get_errors default_upstreams lost_race (1000 * hour) false
      id empty

default_upstreams-Named : Named default_upstreams.servers
unfolding lookup
default_upstreams-Named = (
  (refl, refl),
  (
    (refl, refl),
    (
      (refl, refl),
      (
        (refl, refl),
        (
          (refl, refl),
          ((refl, refl), ((refl, refl), ((refl, refl), ((refl, refl), ((refl, refl), tt))))),
        ),
      ),
    ),
  ),
)

lookup-put_self : (k : String) (st : BuildIdState) (c : Table) → lookup k (put k st c) ≡ some st
lookup-put_self k st c = ground (arith, lookup-put k k st c, eq_iff k k)

abbrev won_state : BuildIdState
won_state = record (fresh_state id) {
  updated_at = 1000 * hour;
  last_success = true;
  last_host = "fedora";
  response_headers = headers;
}

-- The cache after another build id was added.
abbrev later_cache : Table
later_cache = put "other" (fresh_state "other") (put id won_state [])

still_held :
    lookup id later_cache
    ≡ lookup id
        (record_result tables
          (fresh_state id)
          (1000 * hour)
          (try_all_servers won_race)
          empty).1.cache
unfolding program
still_held = refl

find_again_example :
    let v : World tables = record { cache = later_cache; db = ([], 3) } in
    find_by_build_id tables default_upstreams lost_race (1001 * hour) true id "debuginfo" v
    ≡ (apply_source_rules default_upstreams "debuginfo" (some fedora) none, v)
find_again_example =
    find_again tables default_upstreams won_race (1000 * hour) id (fresh_state id) empty result
      default_upstreams-Named (only_probed won_race refl) wins (lookup-put_self id) fresh_own
      (omega arith) (omega arith) (record { cache = later_cache; db = ([], 3) }) still_held
      lost_race (1001 * hour) true "debuginfo"

get_state-tables :
    (build_id : String) (st : BuildIdState) (w : World tables)
    → st.build_id ≡ build_id
    → (get_state tables build_id (update_state tables st w)).0 ≡ ok st
unfolding update_state
get_state-tables build_id st w own =
    ap (λ p. p.0)
      (get_state_cached tables build_id st (update_state tables st w) (
        subst (λ k. lookup k (put st.build_id st w.cache) ≡ some st) own
          (lookup-put_self st.build_id st w.cache)))

-- A read that misses the cache leaves in it what it returns.
get_state_miss :
    (build_id : String) (w : World tables)
    → lookup build_id w.cache ≡ none
    → (st : BuildIdState) × (get_state tables build_id w
        ≡ (ok st, record w { cache = put build_id st w.cache }))
unfolding get_state load_state db_get is
get_state_miss build_id w miss = elim (Option-cases (lookup build_id w.db.0)) [
  | inl absent ↦ (fresh_state build_id, rw (miss, get_state) (rw (absent, load_state, db_get)))
  | inr (st, found) ↦ (st, rw (miss, get_state) (rw (found, load_state, db_get)))
]

get_state_twice :
    (build_id : String) (w : World tables)
    → (get_state tables build_id (get_state tables build_id w).1).0
      ≡ (get_state tables build_id w).0
get_state_twice build_id w = elim (Option-cases (lookup build_id w.cache)) [
  | inl miss ↦
      let (st, e) = get_state_miss build_id w miss in
      rw e (
        ap (λ p. p.0)
          (get_state_cached tables build_id st (record w { cache = put build_id st w.cache })
            (lookup-put_self build_id st w.cache)))
  | inr (st, hit) ↦
      rw (get_state_cached tables build_id st w hit)
        (ap (λ p. p.0) (get_state_cached tables build_id st w hit))
]

first_read : (get_state tables id empty).0 ≡ ok (fresh_state id)
unfolding program is
first_read = refl

bg_finds-le_example :
    (bg_finds tables default_upstreams id
        ((lost_race, 1000 * hour) ∷ (lost_race, 2000 * hour) ∷ [])
        empty).db.1
      + (fresh_state id).counter
    ≤ 0 + 31
unfolding fresh_state
bg_finds-le_example =
    bg_finds-le tables id (λ db. db.1) (λ entries db. refl) (λ st db. refl) (get_state-tables id)
      (get_state_twice id) default_upstreams
      ((lost_race, 1000 * hour) ∷ (lost_race, 2000 * hour) ∷ []) (fresh_state id) empty first_read
      refl refl (omega arith) ((not_found, loses), ((not_found, loses), tt))

-- The second attempt comes ten minutes behind the first, and asks nobody.
asked_once :
    (bg_finds tables default_upstreams id
      ((lost_race, 1000 * hour) ∷ (won_race, 1000 * hour + 10 * minute) ∷ [])
      empty).db.1
    ≡ 1
unfolding program is
asked_once = refl
