-- ===== src/Proxy/Stream/Follow.antt =====
-- A client that follows a download (cmd/proxy/filecache.go) stays within what the leader promised.
use debuginfod_pwndbg_re.Prelude.{
  ℕ, zero, suc, ◌-◌, ◌≤◌, min, Bool, true, false, Option, none, some, take, drop, length-take,
  take-append, ◌≡◌, refl, subst, sym, ◌∙◌, inl, inr, arith, Option-cases, ltb, if_intro, take-add,
}
use debuginfod_pwndbg_re.Proxy.Errors.{Error}
use debuginfod_pwndbg_re.Proxy.Stream.{
  Writer, Phase, Input, Leader, advance, leader_step, Status, Follower, read_bytes, read_end,
  stale_status, read_stale, follower_read,
}
use debuginfod_pwndbg_re.Proxy.Stream.Codec.{IsCodec}
use debuginfod_pwndbg_re.Proxy.Stream.Invariant.{PhaseOk, IsSound}
use debuginfod_pwndbg_re.Proxy.Stream.Growth.{advance-Grows}

module _ (wr : Writer) (codec : IsCodec wr) where
  pub finished-over :
      (p : Phase) (l : Leader wr) → PhaseOk wr codec p l → l.entry.finished ≡ true → p ≡ Phase.over
  finished-over Phase.starting l (p, o) h = cc (p.running.unfinished)
  finished-over Phase.streaming l (p, o, r) h = cc (p.running.unfinished)
  finished-over (Phase.wrote e) l (p, o, r) h = cc (p.running.unfinished)
  finished-over Phase.ending l (p, o, r) h = cc (p.running.unfinished)
  finished-over Phase.closing l (p, o, r) h = cc (p.running.unfinished)
  finished-over Phase.persisting l (p, o, r) h = cc (p.unfinished)
  finished-over Phase.over l _ h = refl

  -- Behind its deferred function the leader does nothing more.
  leader_step-over :
      (input : Input) (l : Leader wr)
      → IsSound wr codec l
      → l.entry.finished ≡ true
      → leader_step wr input l ≡ l
  unfolding advance
  leader_step-over input l s h =
      subst (λ p. advance wr p input l ≡ l) (sym (finished-over l.phase l s.in_phase h)) refl

  abbrev pub AtEnd : Status → Leader wr → Follower → Type 0
  AtEnd Status.reading l f = Unit
  AtEnd (Status.failed e) l f = Unit
  AtEnd Status.got_eof l f =
      (l.entry.finished ≡ true) × (l.entry.error ≡ none) × (l.entry.size ≤ f.offset)

  -- The follower holds the first bytes of the file, within what was promised.
  pub record IsFollowing (l : Leader wr) (f : Follower) : Type 0 where
    pub within : f.offset ≤ l.entry.size
    pub prefix : f.received ≡ take f.offset l.disk
    pub at_end : AtEnd f.status l f

  AtEnd-kept :
      (st : Status) (l : Leader wr) (f : Follower) (input : Input)
      → IsSound wr codec l
      → AtEnd st l f
      → AtEnd st (leader_step wr input l) f
  AtEnd-kept Status.reading l f input s h = tt
  AtEnd-kept (Status.failed e) l f input s h = tt
  AtEnd-kept Status.got_eof l f input s (done, clean, all) =
      subst (λ l'. AtEnd Status.got_eof l' f) (sym (leader_step-over input l s done))
        (done, clean, all)

  pub lead-IsFollowing :
      (input : Input) (l : Leader wr) (f : Follower)
      → IsSound wr codec l
      → IsFollowing l f
      → IsFollowing (leader_step wr input l) f
  lead-IsFollowing input l f s h =
      let g = advance-Grows wr l.phase input l s.published in
      record {
        within = omega (arith, g.size_le, h.within);
        prefix = rw g.disk_eq (
            h.prefix
            ∙ sym (take-append f.offset l.disk g.out (omega (arith, h.within, s.published))));
        at_end = AtEnd-kept f.status l f input s h.at_end;
      }

  read_bytes-IsFollowing :
      (k : ℕ) (l : Leader wr) (f : Follower)
      → IsSound wr codec l
      → f.status ≡ Status.reading
      → IsFollowing l f
      → IsFollowing l (read_bytes wr k l f)
  unfolding read_bytes
  read_bytes-IsFollowing k l f s st h =
      let n = min k (l.entry.size - f.offset) in
      record {
        within = omega (arith, length-take n (drop f.offset l.disk), h.within);
        prefix = rw h.prefix (take-add f.offset n l.disk);
        at_end = subst (λ q. AtEnd q l (read_bytes wr k l f)) (sym st) tt;
      }

  read_end-IsFollowing :
      (l : Leader wr) (f : Follower)
      → f.status ≡ Status.reading
      → l.entry.size ≤ f.offset
      → IsFollowing l f
      → IsFollowing l (read_end wr l f)
  unfolding read_end
  read_end-IsFollowing l f st low h =
      if_intro (IsFollowing l) l.entry.finished
        (λ done. elim (Option-cases l.entry.error) [
          | inl clean ↦
              simp clean
                (record { within = h.within; prefix = h.prefix; at_end = (done, clean, low) })
          | inr (e, bad) ↦ simp bad (record { within = h.within; prefix = h.prefix; at_end = tt })
        ])
        (λ _. h)

  stale_status-AtEnd :
      (e : Option Error) (done : Bool) (x : Error) (st : Status) (l : Leader wr) (f : Follower)
      → AtEnd st l f
      → AtEnd (stale_status e done x st) l f
  unfolding stale_status
  stale_status-AtEnd (some e) done x st l f h = tt
  stale_status-AtEnd none true x st l f h = tt
  stale_status-AtEnd none false x st l f h = h

  pub read_stale-IsFollowing :
      (x : Error) (l : Leader wr) (f : Follower)
      → IsFollowing l f
      → IsFollowing l (read_stale wr x l f)
  unfolding read_stale
  read_stale-IsFollowing x l f h = record {
    within = h.within;
    prefix = h.prefix;
    at_end =
        stale_status-AtEnd l.entry.error l.entry.finished x f.status l (read_stale wr x l f)
          (at_end_of f.status h.at_end);
  }
    where
      at_end_of : (st : Status) → AtEnd st l f → AtEnd st l (read_stale wr x l f)
      at_end_of Status.reading a = tt
      at_end_of (Status.failed e) a = tt
      at_end_of Status.got_eof a = a

  pub follower_read-IsFollowing :
      (k : ℕ) (l : Leader wr) (f : Follower)
      → IsSound wr codec l
      → f.status ≡ Status.reading
      → IsFollowing l f
      → IsFollowing l (follower_read wr k l f)
  unfolding follower_read
  follower_read-IsFollowing zero l f s st h = h
  follower_read-IsFollowing (suc k) l f s st h =
      if_intro (IsFollowing l) (ltb f.offset l.entry.size)
        (λ _. read_bytes-IsFollowing (suc k) l f s st h)
        (λ low. read_end-IsFollowing l f st (ground arith) h)
