-- ===== src/Proxy/Stream/Tests.antt =====
-- A download of two bytes with a client that follows it, and the theorems at that run.
use debuginfod_pwndbg_re.Prelude.{
  suc, ◌≤◌, true, List, [], ◌∷◌, none, some, codes, take, length, ◌≡◌, refl,
}
use debuginfod_pwndbg_re.Proxy.Errors.{Error}
use debuginfod_pwndbg_re.Proxy.Stream.{
  End, Input, Status, new_cache_entry, new_leader, new_follower, teardown, publish_size, after_read,
  store, start_streaming, close_writer, complete_body, advance, leader_step, read_bytes, read_end,
  read_stale, stale_status, follower_read, System, Step, Reach,
}
use debuginfod_pwndbg_re.Proxy.Stream.Codec.{verbatim, verbatim-IsCodec}
use debuginfod_pwndbg_re.Proxy.Stream.Delivery.{Reach-prefix, Reach-got_eof, Reach-drains}

program : Unit {0}
unfolding new_cache_entry teardown publish_size after_read store start_streaming close_writer
    complete_body advance read_bytes read_end read_stale stale_status follower_read
program = tt

play : List Input → System verbatim → System verbatim
play [] s = s
play (i ∷ rest) s = play rest (record s { leader = leader_step verbatim i s.leader })

play-Reach :
    (inputs : List Input) (s : System verbatim) → Reach verbatim s → Reach verbatim (play inputs s)
unfolding play
play-Reach [] s r = r
play-Reach (i ∷ rest) s r = play-Reach rest _ (Reach.next r (Step.lead i s))

abbrev inputs : List Input
inputs =
    Input.setup none
    ∷ Input.read (codes "AB") End.more none
    ∷ Input.publish none
    ∷ Input.read [] End.eof none
    ∷ Input.close none
    ∷ Input.publish none
    ∷ Input.persist (some (Error.other "disk full"))
    ∷ []

abbrev first : System verbatim
first = record { leader = new_leader verbatim; follower = new_follower }

abbrev ended : System verbatim
ended = play inputs first

abbrev drained : System verbatim
drained = record ended { follower = follower_read verbatim 10 ended.leader ended.follower }

abbrev at_eof : System verbatim
at_eof = record drained { follower = follower_read verbatim 10 drained.leader drained.follower }

ended-Reach : Reach verbatim ended
ended-Reach = play-Reach inputs first Reach.start

drained-Reach : Reach verbatim drained
unfolding program play
drained-Reach = Reach.next ended-Reach (Step.pull 10 ended refl)

at_eof-Reach : Reach verbatim at_eof
unfolding program play
at_eof-Reach = Reach.next drained-Reach (Step.pull 10 drained refl)

eof_seen : at_eof.follower.status ≡ Status.got_eof
unfolding program play
eof_seen = refl

-- An upstream that breaks off: the client gets the error, not an end.
broken_off :
    (play
      (Input.setup none
        ∷ Input.read (codes "A") (End.broken (Error.other "reset")) none
        ∷ Input.publish none
        ∷ [])
      first).leader.entry.error
    ≡ some (Error.other "reset")
unfolding program play
broken_off = refl

Reach-prefix_example :
    (drained.follower.received ≡ take drained.follower.offset drained.leader.disk)
    × (drained.follower.offset ≤ drained.leader.entry.size)
    × (drained.leader.entry.size ≤ length drained.leader.disk)
Reach-prefix_example = Reach-prefix verbatim verbatim-IsCodec drained-Reach

Reach-got_eof_example :
    (some at_eof.follower.received ≡ some at_eof.leader.sent) × (at_eof.leader.body_complete ≡ true)
Reach-got_eof_example = Reach-got_eof verbatim verbatim-IsCodec at_eof-Reach eof_seen

ended_well :
    (ended.follower.status ≡ Status.reading)
    × (ended.leader.entry.finished ≡ true)
    × (ended.leader.entry.error ≡ none)
unfolding program play
ended_well = (refl, refl, refl)

Reach-drains_example :
    (follower_read verbatim 1 ended.leader
      (follower_read verbatim (suc ended.leader.entry.size) ended.leader ended.follower)).status
    ≡ Status.got_eof
Reach-drains_example =
    Reach-drains verbatim verbatim-IsCodec ended-Reach ended_well.0 ended_well.1 ended_well.2
