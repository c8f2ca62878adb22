-- ===== src/Proxy/Finder/Backoff.antt =====
-- How long bgFindByBuildID leaves a build id alone after a failure (cmd/proxy/finder.go).
use debuginfod_pwndbg_re.Prelude.{
  ℕ, zero, suc, ◌+◌, ◌-◌, ◌*◌, ◌^◌, ◌%◌, ◌≤◌, ◌<◌, true, false, String, some, ◌≡◌, refl, ◌⊎◌, inl,
  inr, arith, Bool-cases, ltb, ◌↔◌,
}
use debuginfod_pwndbg_re.Proxy.Errors.{Error, Result, err, not_found}
use debuginfod_pwndbg_re.Proxy.Finder.{
  Upstreams, BuildIdState, Race, Stores, World, Server, hour, minute, since, in_backoff,
  log_entries, try_all_servers, update_state, record_result, resolve,
}

-- The schedule of waits: half an hour, one hour, two hours, then a day each time.
unfoldable pub retry_wait : ℕ → ℕ
retry_wait (suc zero) = 30 * minute
retry_wait (suc (suc zero)) = hour
retry_wait (suc (suc (suc zero))) = 2 * hour
retry_wait _ = 24 * hour

in_backoff-retry_wait : (c elapsed : ℕ) → in_backoff c elapsed ≡ ltb elapsed (retry_wait c)
unfolding in_backoff retry_wait
in_backoff-retry_wait zero e = refl
in_backoff-retry_wait (suc zero) e = refl
in_backoff-retry_wait (suc (suc zero)) e = refl
in_backoff-retry_wait (suc (suc (suc zero))) e = refl
in_backoff-retry_wait (suc (suc (suc (suc c)))) e = ground arith

-- A state under which nobody is asked: given up, or waiting.
abbrev pub Silent : BuildIdState → ℕ → Type 0
Silent state now = (30 < state.counter) ⊎ (now - state.updated_at < retry_wait state.counter)

retry_wait-le : (c : ℕ) → retry_wait c ≤ 24 * hour
unfolding retry_wait
retry_wait-le zero = omega arith
retry_wait-le (suc zero) = omega arith
retry_wait-le (suc (suc zero)) = omega arith
retry_wait-le (suc (suc (suc zero))) = omega arith
retry_wait-le (suc (suc (suc (suc c)))) = omega arith

retry_wait-pos : (c : ℕ) → 0 < retry_wait c
unfolding retry_wait
retry_wait-pos zero = omega arith
retry_wait-pos (suc zero) = omega arith
retry_wait-pos (suc (suc zero)) = omega arith
retry_wait-pos (suc (suc (suc zero))) = omega arith
retry_wait-pos (suc (suc (suc (suc c)))) = omega arith

pub in_backoff_iff : (c now t : ℕ) → (in_backoff c (since now t) ≡ true) ↔ (now - t < retry_wait c)
unfolding since
in_backoff_iff c now t = (
  λ h. ground (arith, in_backoff-retry_wait c (since now t), retry_wait-le c),
  λ h. ground (arith, in_backoff-retry_wait c (since now t), retry_wait-le c),
)

module _ (s : Stores) where
  -- While a build id is given up or waits, a resolution asks nobody, whatever the upstreams would
  -- answer: it reports "not found", and neither the cache nor the database changes.
  pub resolve-Silent :
      (u : Upstreams) (race : Race) (now : ℕ) (build_id : String) (state : BuildIdState)
      (w : World s)
      → state.last_success ≡ false
      → Silent state now
      → resolve s u race now build_id state w ≡ (err not_found, w)
  unfolding resolve
  resolve-Silent u race now build_id state w fresh (inl given_up) = rw fresh (ground arith)
  resolve-Silent u race now build_id state w fresh (inr waiting) =
      rw (fresh, (in_backoff_iff state.counter now state.updated_at).1 waiting) (ground arith)

  abbrev pub probe_all : Race → ℕ → String → BuildIdState → World s → Result Server × World s
  probe_all race now build_id state w =
      record_result s state now (try_all_servers race)
        (record w { db = s.db_resolve_log (log_entries build_id race.probe race.order) w.db })

  -- Otherwise every server of the race is asked, and the outcome is recorded.
  pub resolve-probe_all :
      (u : Upstreams) (race : Race) (now : ℕ) (build_id : String) (state : BuildIdState)
      (w : World s)
      → state.last_success ≡ false
      → ¬ Silent state now
      → resolve s u race now build_id state w ≡ probe_all race now build_id state w
  unfolding resolve
  resolve-probe_all u race now build_id state w fresh asks =
      let young : state.counter ≤ 30 = elim (Bool-cases (ltb 30 state.counter)) [
        | inl h ↦ absurd (asks (inl (ground arith)))
        | inr h ↦ ground arith
      ] in
      let free : in_backoff state.counter (since now state.updated_at) ≡ false =
        elim (Bool-cases (in_backoff state.counter (since now state.updated_at))) [
          | inl h ↦ absurd (asks (inr ((in_backoff_iff state.counter now state.updated_at).0 h)))
          | inr h ↦ h
        ] in
      simp (fresh, free) (ground arith)

  -- A resolution of a build id that is neither found before, nor given up, nor waiting, and that
  -- fails, by a "not found" of all servers or by its own deadline alike, is counted and stored in
  -- the cache; and until the wait of the new count has passed (half an hour,
  -- one hour, two hours, then a day each time) every resolution that reads the stored state asks
  -- nobody, whatever the upstreams would answer: it reports "not found", and changes neither the
  -- cache nor the database.
  pub resolve_failure :
      (u : Upstreams) (race : Race) (now : ℕ) (build_id : String) (state : BuildIdState)
      (w : World s) (e : Error)
      → state.last_success ≡ false
      → ¬ Silent state now
      → try_all_servers race ≡ err e
      → (race' : Race) (later : ℕ) (w' : World s) → later < now + retry_wait (state.counter + 1)
      → (state' : BuildIdState) × ((resolve s u race now build_id state w).0 ≡ err e)
        × ((resolve s u race now build_id state w).1.cache
            ≡ s.cache_add state.build_id state' w.cache)
        × (state'.last_success ≡ false)
        × (state'.counter ≡ state.counter + 1)
        × (resolve s u race' later build_id state' w' ≡ (err not_found, w'))
  unfolding record_result update_state
  resolve_failure u race now build_id state w e fresh asks lost race' later w' soon =
      let young : state.counter ≤ 30 = elim (Bool-cases (ltb 30 state.counter)) [
        | inl h ↦ absurd (asks (inl (ground arith)))
        | inr h ↦ ground arith
      ] in
      let state' : BuildIdState = record state {
        updated_at = now;
        last_success = false;
        last_error = some e;
        counter = (state.counter + 1) % 2 ^ 32;
      } in
      let counted : state'.counter ≡ state.counter + 1 = omega arith in
      let waits : later - now < retry_wait state'.counter =
        rw counted (omega (arith, retry_wait-pos (state.counter + 1))) in
      (
        state',
        rw (resolve-probe_all u race now build_id state w fresh asks, lost),
        rw (resolve-probe_all u race now build_id state w fresh asks, lost),
        refl,
        counted,
        resolve-Silent u race' later build_id state' w' refl (inr waits),
      )
