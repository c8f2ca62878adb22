-- ===== src/Proxy/Finder/Sources.antt =====
-- The source endpoint: applySourceRules (cmd/proxy/finder.go) and the status that
-- AccessLogMiddleware (cmd/proxy/context.go) gives its errors.
use Prim.Native.String.{len}
use debuginfod_pwndbg_re.Prelude.{
  ℕ, Bool, false, String, Option, none, some, ◌≡◌, ◌≢◌, refl, inl, inr, arith, Bool-cases,
  Option-cases, if_intro, lookup, ltb, ◌==◌,
}
use debuginfod_pwndbg_re.Proxy.Errors.{Error, Sentinel, is, err, not_found, error_status}
use debuginfod_pwndbg_re.Proxy.Finder.{
  Upstreams, Server, Race, Outcome, Stores, World, source_rules, apply_source_rules, fast_path,
  slow_path, load_state, get_state, looked_up, find_by_build_id,
}
use debuginfod_pwndbg_re.Proxy.Finder.Select.{Result-cases}

-- An error that the middleware does not answer with 404.
abbrev pub NoNotFound : Outcome → Type 0
NoNotFound (Outcome.returned s (some e)) = error_status e ≢ 404
NoNotFound (Outcome.returned s none) = Unit
NoNotFound Outcome.panicked = Unit

status_other : (e : Error) → is Sentinel.debuginfo_not_found e ≡ false → error_status e ≢ 404
unfolding error_status
status_other e h = ground arith

status_joined :
    (e : Error) → error_status (Error.join (Error.sentinel Sentinel.source_not_implemented) e) ≢ 404
unfolding error_status
status_joined e = ground arith

source_rules-NoNotFound :
    (u : Upstreams) (o : Option Server) (e : Option Error) → NoNotFound (source_rules u o e)
unfolding source_rules
source_rules-NoNotFound u o (some e) =
    if_intro NoNotFound (is Sentinel.debuginfo_not_found e) (λ _. status_joined e) (status_other e)
source_rules-NoNotFound u none none = tt
source_rules-NoNotFound u (some s) none =
    if_intro NoNotFound (s.source_available == 0)
      (λ _. elim (Option-cases (lookup s.source_via u.delegates)) [
        | inl absent ↦ rw (absent, source_rules) missing
        | inr (via, found) ↦
            rw (found, source_rules) (if_intro NoNotFound via.down (λ _. missing) (λ _. tt))
      ])
      (λ _. tt)
  where
    missing : error_status (Error.sentinel Sentinel.source_not_implemented) ≢ 404
    missing = unfold error_status in ground arith

module _ (u : Upstreams) where
  at_source :
      (o : Option Server) (e : Option Error) → NoNotFound (apply_source_rules u "source" o e)
  unfolding apply_source_rules
  at_source o e = source_rules-NoNotFound u o e

  fast_path-NoNotFound : (host : String) → NoNotFound (fast_path u host "source")
  unfolding fast_path
  fast_path-NoNotFound host = elim (Option-cases (lookup host u.servers)) [
    | inl absent ↦ rw (absent, fast_path) (at_source none (some not_found))
    | inr (s, found) ↦
        rw (found, fast_path)
          (if_intro NoNotFound s.down (λ _. down s.name) (λ _. at_source (some s) none))
  ]
    where
      down :
          (name : String)
          → error_status
              (Error.join (Error.host_is_down name) (Error.sentinel Sentinel.temporary_down))
            ≢ 404
      down name = unfold error_status in ground arith

module _ (s : Stores)
    (db_errors : (build_id : String) (db : s.Db) (e : Error)
      → s.db_get build_id db ≡ err e
      → is Sentinel.debuginfo_not_found e ≡ false) where
  load_state_err :
      (build_id : String) (w : World s) (e : Error)
      → (load_state s build_id w).0 ≡ err e
      → is Sentinel.debuginfo_not_found e ≡ false
  unfolding load_state
  load_state_err build_id w e h = elim (Result-cases (s.db_get build_id w.db)) [
    | inl (st, found) ↦ ground arith
    | inr (e', failed) ↦ ground (arith, db_errors build_id w.db e' failed)
  ]

  get_state_err :
      (build_id : String) (w : World s) (e : Error)
      → (get_state s build_id w).0 ≡ err e
      → is Sentinel.debuginfo_not_found e ≡ false
  unfolding get_state
  get_state_err build_id w e h = elim (Option-cases (s.cache_get build_id w.cache).0) [
    | inl miss ↦ load_state_err build_id _ e (rw (miss, get_state) at h)
    | inr (st, hit) ↦ ground arith
  ]

  looked_up-NoNotFound :
      (u : Upstreams) (race : Race) (now : ℕ) (gone : Bool) (build_id : String) (w : World s)
      → NoNotFound (looked_up s u race now gone build_id "source" w).0
  unfolding looked_up slow_path
  looked_up-NoNotFound u race now gone build_id w = elim (Result-cases (get_state s build_id w).0) [
    | inl (st, found) ↦ elim (Bool-cases st.last_success) [
      | inl hit ↦ rw (found, looked_up) (simp hit (fast_path-NoNotFound u st.last_host))
      | inr miss ↦
          rw (found, looked_up)
            (simp miss (
              if_intro NoNotFound gone (λ _. status_other Error.ctx_done (unfold is in refl))
                (λ _. at_source u _ _)))
    ]
    | inr (e, failed) ↦ rw (failed, looked_up) (status_other e (get_state_err build_id w e failed))
  ]

  -- A source request that the resolution refuses is never answered with 404, which clients and
  -- the CDN would remember as "there are no symbols": a build id that nobody has, or whose host
  -- has no sources and no live delegate, comes back as another status.
  pub find_by_build_id-NoNotFound :
      (u : Upstreams) (race : Race) (now : ℕ) (gone : Bool) (build_id : String) (w : World s)
      → NoNotFound (find_by_build_id s u race now gone build_id "source" w).0
  unfolding find_by_build_id
  find_by_build_id-NoNotFound u race now gone build_id w =
      elim (Bool-cases (ltb 64 (len build_id))) [
        | inl long ↦ simp long (status_other _ (unfold is in refl))
        | inr fits ↦ elim (Bool-cases (ltb (len build_id) 32)) [
          | inl short ↦ simp (fits, short) (status_other _ (unfold is in refl))
          | inr enough ↦ simp (fits, enough) (looked_up-NoNotFound u race now gone build_id w)
        ]
      ]
