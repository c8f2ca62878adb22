-- ===== src/Proxy/Finder/Memory.antt =====
-- A resolved build id is remembered (cmd/proxy/finder.go).
use Prim.Native.String.{len}
use debuginfod_pwndbg_re.Prelude.{
  subst, sym, ap, ◌∙◌, ℕ, ◌≤◌, Bool, true, false, String, none, some, ◌≡◌, refl, arith, lookup,
}
use debuginfod_pwndbg_re.Proxy.Errors.{ok}
use debuginfod_pwndbg_re.Proxy.Finder.{
  Upstreams, Server, BuildIdState, Race, ResolveResult, Stores, World, try_all_servers,
  apply_source_rules, fast_path, get_state, update_state, record_result, looked_up,
  find_by_build_id,
}
use debuginfod_pwndbg_re.Proxy.Finder.Select.{OnlyProbed, Named, winner-up, winner-lookup}

module _ (u : Upstreams) where
  fast_path_up :
      (s : Server) (endpoint : String)
      → lookup s.name u.servers ≡ some s
      → s.down ≡ false
      → fast_path u s.name endpoint ≡ apply_source_rules u endpoint (some s) none
  unfolding fast_path
  fast_path_up s endpoint found up = rw (found, fast_path) (simp up)

module _ (s : Stores) where
  pub get_state_cached :
      (build_id : String) (st : BuildIdState) (w : World s)
      → (s.cache_get build_id w.cache).0 ≡ some st
      → get_state s build_id w ≡ (ok st, record w { cache = (s.cache_get build_id w.cache).1 })
  unfolding get_state
  get_state_cached build_id st w hit = rw (hit, get_state)

  looked_up_hit :
      (u : Upstreams) (race : Race) (now : ℕ) (gone : Bool) (build_id endpoint : String)
      (st : BuildIdState) (w : World s)
      → (s.cache_get build_id w.cache).0 ≡ some st
      → st.last_success ≡ true
      → looked_up s u race now gone build_id endpoint w
        ≡ (fast_path u st.last_host endpoint, record w { cache = (s.cache_get build_id w.cache).1 })
  unfolding looked_up
  looked_up_hit u race now gone build_id endpoint st w hit won =
      rw (get_state_cached build_id st w hit, looked_up)
        (simp (won, get_state_cached build_id st w hit))

  find-looked_up :
      (u : Upstreams) (race : Race) (now : ℕ) (gone : Bool) (build_id endpoint : String)
      (w : World s)
      → 32 ≤ len build_id
      → len build_id ≤ 64
      → find_by_build_id s u race now gone build_id endpoint w
        ≡ looked_up s u race now gone build_id endpoint w
  unfolding find_by_build_id
  find-looked_up u race now gone build_id endpoint w low high = ground arith

  -- After a race that a server won, and its recording, for a build id of 32 to 64 bytes, if the
  -- race was among servers of the list that are not down, each listed under its name, and if the
  -- cache returns what was just added: at every later moment at which the cache returns for the
  -- build id what it returned right behind the recording, a request for the build
  -- id is answered with that server, under the endpoint's own rules, and without asking any
  -- upstream or the database. The world `v` of that moment is arbitrary else: what other requests
  -- and the time did to the cache and the database, what the upstreams would say now, and whether
  -- or not the client stays.
  pub find_again :
      (u : Upstreams) (race : Race) (now : ℕ) (build_id : String) (st : BuildIdState) (w : World s)
      (r : ResolveResult)
      → Named u.servers
      → OnlyProbed u.servers race
      → try_all_servers race ≡ ok r
      → ((st' : BuildIdState) (c : s.Cache)
          → (s.cache_get build_id (s.cache_add build_id st' c)).0 ≡ some st')
      → st.build_id ≡ build_id
      → 32 ≤ len build_id
      → len build_id ≤ 64
      → (v : World s)
      → (s.cache_get build_id v.cache).0
        ≡ (s.cache_get build_id (record_result s st now (try_all_servers race) w).1.cache).0
      → (race' : Race) (now' : ℕ) (gone : Bool) (endpoint : String)
      → find_by_build_id s u race' now' gone build_id endpoint v ≡ (
        apply_source_rules u endpoint (some r.server) none,
        record v { cache = (s.cache_get build_id v.cache).1 },
      )
  unfolding record_result update_state
  find_again u race now build_id st w r named only won recall own low high v still race' now' gone
        endpoint =
      let st' : BuildIdState = record st {
        updated_at = now;
        last_success = true;
        last_host = r.server.name;
        response_headers = r.headers;
      } in
      let added : (s.cache_get build_id (s.cache_add st.build_id st' w.cache)).0 ≡ some st' =
        subst (λ k. (s.cache_get build_id (s.cache_add k st' w.cache)).0 ≡ some st') (sym own)
          (recall st' w.cache) in
      let held : (s.cache_get build_id v.cache).0 ≡ some st' = rw won at still ∙ added in
      let host =
        fast_path_up u r.server endpoint (winner-lookup u.servers race r named only won)
          (winner-up u.servers race r only won) in
      find-looked_up u race' now' gone build_id endpoint v low high
      ∙ looked_up_hit u race' now' gone build_id endpoint st' v held refl
      ∙ ap (λ o. (o, record v { cache = (s.cache_get build_id v.cache).1 })) host
