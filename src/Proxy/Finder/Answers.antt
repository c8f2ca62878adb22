-- ===== src/Proxy/Finder/Answers.antt =====
-- What FindByBuildID hands to the handlers (cmd/proxy/finder.go).
use Prim.Native.String.{len}
use debuginfod_pwndbg_re.Prelude.{
  ℕ, Bool, false, String, Option, none, some, ◌≡◌, inl, inr, Bool-cases, Option-cases, if_intro,
  lookup, str_eq, ltb, ◌==◌,
}
use debuginfod_pwndbg_re.Proxy.Errors.{Error, Sentinel, is, Result, ok, err, not_found}
use debuginfod_pwndbg_re.Proxy.Finder.{
  Upstreams, Server, BuildIdState, Race, Outcome, Stores, World, try_all_servers, source_rules,
  apply_source_rules, server_of, failure_of, known_host, fast_path, slow_path, get_state,
  record_result, resolve, bg_find, looked_up, find_by_build_id, in_backoff, since,
}
use debuginfod_pwndbg_re.Proxy.Finder.Select.{Result-cases, OnlyProbed, winner-up}

-- The handlers get an error, or a server that is not nil and not down.
abbrev pub Sound : Outcome → Type 0
Sound (Outcome.returned s (some e)) = Unit
Sound (Outcome.returned (some s) none) = s.down ≡ false
Sound (Outcome.returned none none) = ⊥
Sound Outcome.panicked = ⊥

abbrev Up : Result Server → Type 0
Up (ok s) = s.down ≡ false
Up (err e) = Unit

source_rules_up :
    (u : Upstreams) (s : Server) → s.down ≡ false → Sound (source_rules u (some s) none)
unfolding source_rules
source_rules_up u s up =
    if_intro Sound (s.source_available == 0)
      (λ _. elim (Option-cases (lookup s.source_via u.delegates)) [
        | inl absent ↦ rw (absent, source_rules) tt
        | inr (via, found) ↦ rw (found, source_rules) (if_intro Sound via.down (λ _. tt) (λ h. h))
      ])
      (λ _. up)

source_rules_err :
    (u : Upstreams) (o : Option Server) (e : Error) → Sound (source_rules u o (some e))
unfolding source_rules
source_rules_err u o e = if_intro Sound (is Sentinel.debuginfo_not_found e) (λ _. tt) (λ _. tt)

apply_source_rules_err :
    (u : Upstreams) (endpoint : String) (o : Option Server) (e : Error)
    → Sound (apply_source_rules u endpoint o (some e))
unfolding apply_source_rules
apply_source_rules_err u endpoint o e =
    if_intro Sound (str_eq endpoint "source") (λ _. source_rules_err u o e) (λ _. tt)

apply_source_rules_up :
    (u : Upstreams) (endpoint : String) (s : Server)
    → s.down ≡ false
    → Sound (apply_source_rules u endpoint (some s) none)
unfolding apply_source_rules
apply_source_rules_up u endpoint s up =
    if_intro Sound (str_eq endpoint "source") (λ _. source_rules_up u s up) (λ _. up)

apply_source_rules_result :
    (u : Upstreams) (endpoint : String) (r : Result Server)
    → Up r
    → Sound (apply_source_rules u endpoint (server_of r) (failure_of r))
apply_source_rules_result u endpoint (ok s) up = apply_source_rules_up u endpoint s up
apply_source_rules_result u endpoint (err e) _ = apply_source_rules_err u endpoint none e

known_host-Up : (u : Upstreams) (host : String) → Up (known_host u host)
unfolding known_host
known_host-Up u host = elim (Option-cases (lookup host u.servers)) [
  | inl absent ↦ rw (absent, known_host) tt
  | inr (s, found) ↦ rw (found, known_host) (if_intro Up s.down (λ _. tt) (λ h. h))
]

fast_path-Sound : (u : Upstreams) (host endpoint : String) → Sound (fast_path u host endpoint)
unfolding fast_path
fast_path-Sound u host endpoint = elim (Option-cases (lookup host u.servers)) [
  | inl absent ↦ rw (absent, fast_path) (apply_source_rules_err u endpoint none not_found)
  | inr (s, found) ↦
      rw (found, fast_path)
        (if_intro Sound s.down (λ _. tt) (λ h. apply_source_rules_up u endpoint s h))
]

module _ (s : Stores) (u : Upstreams) (race : Race) (only : OnlyProbed u.servers race) where
  record_result-Up :
      (st : BuildIdState) (now : ℕ) (w : World s)
      → Up (record_result s st now (try_all_servers race) w).0
  unfolding record_result
  record_result-Up st now w = elim (Result-cases (try_all_servers race)) [
    | inl (r, won) ↦ rw won (winner-up u.servers race r only won)
    | inr (e, lost) ↦ rw lost tt
  ]

  resolve-Up :
      (now : ℕ) (build_id : String) (st : BuildIdState) (w : World s)
      → Up (resolve s u race now build_id st w).0
  unfolding resolve
  resolve-Up now build_id st w = elim (Bool-cases st.last_success) [
    | inl hit ↦ simp hit (known_host-Up u st.last_host)
    | inr miss ↦ elim (Bool-cases (ltb 30 st.counter)) [
      | inl many ↦ simp (miss, many) tt
      | inr few ↦ elim (Bool-cases (in_backoff st.counter (since now st.updated_at))) [
        | inl wait ↦ simp (miss, few, wait) tt
        | inr free ↦ simp (miss, few, free) (record_result-Up st now _)
      ]
    ]
  ]

  bg_find-Up : (now : ℕ) (build_id : String) (w : World s) → Up (bg_find s u race now build_id w).0
  unfolding bg_find
  bg_find-Up now build_id w = elim (Result-cases (get_state s build_id w).0) [
    | inl (st, found) ↦ rw (found, bg_find) (resolve-Up now build_id st _)
    | inr (e, failed) ↦ rw (failed, bg_find) tt
  ]

  slow_path-Sound :
      (now : ℕ) (gone : Bool) (build_id endpoint : String) (w : World s)
      → Sound (slow_path s u race now gone build_id endpoint w).0
  unfolding slow_path
  slow_path-Sound now gone build_id endpoint w =
      if_intro Sound gone (λ _. tt)
        (λ _.
          apply_source_rules_result u endpoint (bg_find s u race now build_id w).0
            (bg_find-Up now build_id w))

  looked_up-Sound :
      (now : ℕ) (gone : Bool) (build_id endpoint : String) (w : World s)
      → Sound (looked_up s u race now gone build_id endpoint w).0
  unfolding looked_up
  looked_up-Sound now gone build_id endpoint w = elim (Result-cases (get_state s build_id w).0) [
    | inl (st, found) ↦ elim (Bool-cases st.last_success) [
      | inl hit ↦ rw (found, looked_up) (simp hit (fast_path-Sound u st.last_host endpoint))
      | inr miss ↦ rw (found, looked_up) (simp miss (slow_path-Sound now gone build_id endpoint _))
    ]
    | inr (e, failed) ↦ rw (failed, looked_up) tt
  ]

  -- FindByBuildID never dereferences a nil server, and whatever it returns without an error is a
  -- server that is there and is not marked down: on the fast and the slow path, for every
  -- endpoint and every state of the cache and the database.
  pub find_by_build_id-Sound :
      (now : ℕ) (gone : Bool) (build_id endpoint : String) (w : World s)
      → Sound (find_by_build_id s u race now gone build_id endpoint w).0
  unfolding find_by_build_id
  find_by_build_id-Sound now gone build_id endpoint w = elim (Bool-cases (ltb 64 (len build_id))) [
    | inl long ↦ simp long tt
    | inr fits ↦ elim (Bool-cases (ltb (len build_id) 32)) [
      | inl short ↦ simp (fits, short) tt
      | inr enough ↦ simp (fits, enough) (looked_up-Sound now gone build_id endpoint w)
    ]
  ]
