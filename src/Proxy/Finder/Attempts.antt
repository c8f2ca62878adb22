-- ===== src/Proxy/Finder/Attempts.antt =====
-- How often the upstreams are asked for a build id that none of them has (cmd/proxy/finder.go).
use debuginfod_pwndbg_re.Prelude.{
  ℕ, ◌+◌, ◌%◌, ◌^◌, ◌≤◌, false, String, some, List, [], ◌∷◌, All, ◌≡◌, refl, ap, ◌⊎◌, inl, inr,
  arith, Bool-cases, ltb, ◌∙◌,
}
use debuginfod_pwndbg_re.Proxy.Errors.{Error, ok, err}
use debuginfod_pwndbg_re.Proxy.Finder.{
  Upstreams, BuildIdState, Race, ResolveLogEntry, Stores, World, since, in_backoff, log_entries,
  try_all_servers, load_state, get_state, update_state, record_result, resolve, bg_find,
}
use debuginfod_pwndbg_re.Proxy.Finder.Backoff.{
  Silent, in_backoff_iff, resolve-Silent, resolve-probe_all,
}

abbrev pub Loses : Race × ℕ → Type 0
Loses a = (e : Error) × (try_all_servers a.0 ≡ err e)

Silent-cases :
    (st : BuildIdState) (now : ℕ) → Silent st now ⊎ ((¬ Silent st now) × (st.counter ≤ 30))
Silent-cases st now =
    let waits = in_backoff_iff st.counter now st.updated_at in
    elim (Bool-cases (ltb 30 st.counter)) [
      | inl h ↦ inl (inl (ground arith))
      | inr h ↦ elim (Bool-cases (in_backoff st.counter (since now st.updated_at))) [
        | inl k ↦ inl (inr (waits.0 k))
        | inr k ↦ inr (
          (λ silent. elim silent [ inl many ↦ ground arith | inr young ↦ cc (waits.1 young) ]),
          ground arith,
        )
      ]
    ]

module _ (s : Stores) where
  bg_find-resolve :
      (u : Upstreams) (race : Race) (now : ℕ) (build_id : String) (st : BuildIdState) (w : World s)
      → (get_state s build_id w).0 ≡ ok st
      → bg_find s u race now build_id w
        ≡ resolve s u race now build_id st (get_state s build_id w).1
  unfolding bg_find
  bg_find-resolve u race now build_id st w found = rw (found, bg_find)

  get_state-db : (build_id : String) (w : World s) → (get_state s build_id w).1.db ≡ w.db
  unfolding get_state load_state
  get_state-db build_id w = ground arith

  -- Attempts to resolve a build id, each with its race and its time, one behind the other.
  unfoldable pub bg_finds : Upstreams → String → List (Race × ℕ) → World s → World s
  bg_finds u build_id [] w = w
  bg_finds u build_id ((race, now) ∷ rest) w =
      bg_finds u build_id rest (bg_find s u race now build_id w).1

  -- `rounds` counts the batches of the resolve log: the servers are asked by tryAllServers alone,
  -- and each of its calls writes one batch.
  module _ (build_id : String) (rounds : s.Db → ℕ)
      (batch : (entries : List ResolveLogEntry) (db : s.Db)
        → rounds (s.db_resolve_log entries db) ≡ rounds db + 1)
      (no_batch : (st : BuildIdState) (db : s.Db) → rounds (s.db_update st db) ≡ rounds db)
      (written : (st : BuildIdState) (w : World s)
        → st.build_id ≡ build_id
        → (get_state s build_id (update_state s st w)).0 ≡ ok st)
      (kept : (w : World s)
        → (get_state s build_id (get_state s build_id w).1).0 ≡ (get_state s build_id w).0) where
    -- The state that the next resolution reads, after one that lost.
    after_loss :
        (u : Upstreams) (race : Race) (now : ℕ) (st : BuildIdState) (w : World s) (e : Error)
        → (get_state s build_id w).0 ≡ ok st
        → st.build_id ≡ build_id
        → st.last_success ≡ false
        → st.counter ≤ 31
        → try_all_servers race ≡ err e
        → (st' : BuildIdState) × ((get_state s build_id (bg_find s u race now build_id w).1).0
            ≡ ok st')
          × (st'.build_id ≡ build_id)
          × (st'.last_success ≡ false)
          × (rounds (bg_find s u race now build_id w).1.db + st.counter ≡ rounds w.db + st'.counter)
          × (st'.counter ≤ 31)
    unfolding record_result
    after_loss u race now st w e found own fresh low lost =
        let w' = (get_state s build_id w).1 in
        elim (Silent-cases st now) [
          | inl silent ↦
              let same =
                bg_find-resolve u race now build_id st w found
                ∙ resolve-Silent s u race now build_id st w' fresh silent in
              (
                st,
                rw same (kept w ∙ found),
                own,
                fresh,
                rw (same, get_state-db build_id w) refl,
                low,
              )
          | inr (loud, young) ↦
              let st' : BuildIdState = record st {
                updated_at = now;
                last_success = false;
                last_error = some e;
                counter = (st.counter + 1) % 2 ^ 32;
              } in
              let same =
                bg_find-resolve u race now build_id st w found
                ∙ resolve-probe_all s u race now build_id st w' fresh loud in
              let log = log_entries build_id race.probe race.order in
              let more : rounds (s.db_update st' (s.db_resolve_log log w'.db)) ≡ rounds w.db + 1 =
                no_batch st' (s.db_resolve_log log w'.db)
                ∙ batch log w'.db
                ∙ ap (λ d. rounds d + 1) (get_state-db build_id w) in
              (
                st',
                rw (same, lost) (written st' _ own),
                own,
                refl,
                rw (same, lost) (unfold update_state in omega (arith, more)),
                omega arith,
              )
        ]

    -- The servers are asked for a build id that none of them has in at most 31 rounds, counting
    -- the failures already recorded, however often and whenever clients ask for it, if at first no
    -- success and at most 31 failures are recorded, and if the stores return what was written last,
    -- and the same when they are read twice. A round is counted by the batch of entries
    -- that tryAllServers hands to the resolve log of the database, once in each call.
    pub bg_finds-le :
        (u : Upstreams) (attempts : List (Race × ℕ)) (st : BuildIdState) (w : World s)
        → (get_state s build_id w).0 ≡ ok st
        → st.build_id ≡ build_id
        → st.last_success ≡ false
        → st.counter ≤ 31
        → All Loses attempts
        → rounds (bg_finds u build_id attempts w).db + st.counter ≤ rounds w.db + 31
    unfolding bg_finds
    bg_finds-le u [] st w found own fresh low _ = omega arith
    bg_finds-le u ((race, now) ∷ rest) st w found own fresh low ((e, lost), losses) =
        let (st', found', own', fresh', counted, low') =
          after_loss u race now st w e found own fresh low lost in
        let later =
          bg_finds-le u rest st' (bg_find s u race now build_id w).1 found' own' fresh' low'
            losses in
        omega (arith, counted, later)
