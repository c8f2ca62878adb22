-- ===== src/Proxy/Stream/Delivery.antt =====
-- What a client that follows a download receives (cmd/proxy/filecache.go).
use debuginfod_pwndbg_re.Prelude.{
  suc, ◌-◌, ◌≤◌, min, true, none, some, length, take, drop, length-take, length-drop, ◌≡◌, refl,
  subst, ◌∙◌, arith, take_of_length-le,
}
use debuginfod_pwndbg_re.Proxy.Stream.{
  Writer, Leader, Status, read_bytes, read_end, follower_read, System, Step, Reach,
}
use debuginfod_pwndbg_re.Proxy.Stream.Codec.{IsCodec}
use debuginfod_pwndbg_re.Proxy.Stream.Invariant.{Finished, PhaseOk, IsSound}
use debuginfod_pwndbg_re.Proxy.Stream.Steps.{leader_step-IsSound, new_leader-IsSound}
use debuginfod_pwndbg_re.Proxy.Stream.Follow.{
  finished-over, AtEnd, IsFollowing, lead-IsFollowing, read_stale-IsFollowing,
  follower_read-IsFollowing,
}

module _ (wr : Writer) (codec : IsCodec wr) where
  record IsConsistent (s : System wr) : Type 0 where
    leader_ok : IsSound wr codec s.leader
    follower_ok : IsFollowing wr codec s.leader s.follower

  Step-IsConsistent : {s t : System wr} → Step wr s t → IsConsistent s → IsConsistent t
  Step-IsConsistent (Step.lead input s) c = record {
    leader_ok = leader_step-IsSound wr codec input s.leader c.leader_ok;
    follower_ok = lead-IsFollowing wr codec input s.leader s.follower c.leader_ok c.follower_ok;
  }
  Step-IsConsistent (Step.pull k s st) c = record {
    leader_ok = c.leader_ok;
    follower_ok =
        follower_read-IsFollowing wr codec k s.leader s.follower c.leader_ok st c.follower_ok;
  }
  Step-IsConsistent (Step.stall x s st low) c = record {
    leader_ok = c.leader_ok;
    follower_ok = read_stale-IsFollowing wr codec x s.leader s.follower c.follower_ok;
  }
  Step-IsConsistent (Step.leave e s st) c = record {
    leader_ok = c.leader_ok;
    follower_ok = record {
      within = c.follower_ok.within;
      prefix = c.follower_ok.prefix;
      at_end = tt;
    };
  }

  Reach-IsConsistent : {s : System wr} → Reach wr s → IsConsistent s
  Reach-IsConsistent Reach.start = record {
    leader_ok = new_leader-IsSound wr codec;
    follower_ok = record { within = omega arith; prefix = refl; at_end = tt };
  }
  Reach-IsConsistent (Reach.next r st) = Step-IsConsistent st (Reach-IsConsistent r)

  -- What a client has received is at every moment the beginning of the file, and never more than
  -- the leader has announced, nor is more announced than the file holds: in every interleaving of
  -- the download and the client.
  pub Reach-prefix :
      {s : System wr}
      → Reach wr s
      → (s.follower.received ≡ take s.follower.offset s.leader.disk)
        × (s.follower.offset ≤ s.leader.entry.size)
        × (s.leader.entry.size ≤ length s.leader.disk)
  Reach-prefix r =
      let c = Reach-IsConsistent r in
      (c.follower_ok.prefix, c.follower_ok.within, c.leader_ok.published)

  finished-PhaseOk :
      (l : Leader wr) → IsSound wr codec l → l.entry.finished ≡ true → Finished wr codec l
  finished-PhaseOk l s h =
      subst (λ p. PhaseOk wr codec p l) (finished-over wr codec l.phase l s.in_phase h) s.in_phase

  -- A client that sees the end of the response without an error has received the whole artifact:
  -- its bytes decode to all that the upstream sent, and the upstream's body had arrived in full. A
  -- download that breaks off never looks like a complete one, in any interleaving.
  pub Reach-got_eof :
      {s : System wr}
      → Reach wr s
      → s.follower.status ≡ Status.got_eof
      → (codec.decode s.follower.received ≡ some s.leader.sent) × (s.leader.body_complete ≡ true)
  Reach-got_eof {s} r h =
      let c = Reach-IsConsistent r in
      let (done, clean, all) =
        subst (λ q. AtEnd wr codec q s.leader s.follower) h c.follower_ok.at_end in
      let whole = ((finished-PhaseOk s.leader c.leader_ok done).clean clean).0 in
      let received : s.follower.received ≡ s.leader.disk =
        c.follower_ok.prefix
        ∙ take_of_length-le s.follower.offset s.leader.disk (omega (arith, whole.size_eq)) in
      (rw received whole.decodes, whole.complete)

  -- A client that is still reading when the download has ended well needs no more than one read
  -- of what is left and one more to see the end.
  pub Reach-drains :
      {s : System wr}
      → Reach wr s
      → s.follower.status ≡ Status.reading
      → s.leader.entry.finished ≡ true
      → s.leader.entry.error ≡ none
      → (follower_read wr 1 s.leader
          (follower_read wr (suc s.leader.entry.size) s.leader s.follower)).status
        ≡ Status.got_eof
  unfolding follower_read read_end read_bytes
  Reach-drains {s} r st done clean =
      let c = Reach-IsConsistent r in
      let left = s.leader.entry.size - s.follower.offset in
      ground (
        arith,
        length-take (min (suc s.leader.entry.size) left) (drop s.follower.offset s.leader.disk),
        length-drop s.follower.offset s.leader.disk,
        c.leader_ok.published,
        c.follower_ok.within,
      )
