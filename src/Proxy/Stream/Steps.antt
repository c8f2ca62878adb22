-- ===== src/Proxy/Stream/Steps.antt =====
-- Each step of a download (cmd/proxy/filecache.go) keeps its invariant.
use debuginfod_pwndbg_re.Prelude.{
  ◌≤◌, true, [], ◌∷◌, ◌++◌, Option, none, some, Bytes, length, length-append, ◌≡◌, refl, subst, sym,
  arith,
}
use debuginfod_pwndbg_re.Proxy.Errors.{Error}
use debuginfod_pwndbg_re.Proxy.Stream.{
  Writer, End, Phase, Input, Leader, new_leader, new_cache_entry, teardown, publish_size,
  after_read, store, start_streaming, close_writer, complete_body, advance, leader_step,
}
use debuginfod_pwndbg_re.Proxy.Stream.Codec.{IsCodec}
use debuginfod_pwndbg_re.Proxy.Stream.Invariant.{
  Running, Partial, Whole, PhaseOk, IsSound, teardown_err, failed,
}

module _ (wr : Writer) (codec : IsCodec wr) where
  after_read-sound :
      (end : End) (l : Leader wr)
      → l.entry.size ≤ length l.disk
      → Partial wr codec l
      → codec.Open l.sent l.writer l.disk
      → l.entry.headers_ready ≡ true
      → IsSound wr codec (after_read wr end l)
  unfolding after_read
  after_read-sound End.more l h p o r = record {
    published = h;
    in_phase = (
      record {
        running = record { error_none = p.running.error_none; unfinished = p.running.unfinished };
        incomplete = p.incomplete;
      },
      o,
      r,
    );
  }
  after_read-sound End.eof l h p o r = record {
    published = h;
    in_phase = (
      record {
        running = record { error_none = p.running.error_none; unfinished = p.running.unfinished };
        incomplete = p.incomplete;
      },
      o,
      r,
    );
  }
  after_read-sound (End.broken e) l h p o r = failed wr codec e l h p

  publish_size-sound :
      (end : End) (l : Leader wr)
      → Partial wr codec l
      → codec.Open l.sent l.writer l.disk
      → l.entry.headers_ready ≡ true
      → IsSound wr codec (after_read wr end (publish_size wr l))
  unfolding publish_size
  publish_size-sound end l p o r =
      after_read-sound end (publish_size wr l) (omega arith)
        (record {
          running = record { error_none = p.running.error_none; unfinished = p.running.unfinished };
          incomplete = p.incomplete;
        })
        (codec.open_flush l.sent l.disk l.writer o) r

  store-sound :
      (bytes : Bytes) (end : End) (fault : Option (Bytes × Error)) (l : Leader wr)
      → l.entry.size ≤ length l.disk
      → Partial wr codec l
      → codec.Open l.sent l.writer l.disk
      → l.entry.headers_ready ≡ true
      → IsSound wr codec (store wr bytes end fault l)
  unfolding store
  store-sound bytes end none l h p o r = record {
    published = omega (arith, length-append l.disk (wr.write bytes l.writer).0);
    in_phase = (
      record {
        running = record { error_none = p.running.error_none; unfinished = p.running.unfinished };
        incomplete = p.incomplete;
      },
      codec.open_write l.sent l.disk bytes l.writer o,
      r,
    );
  }
  store-sound bytes end (some (part, e)) l h p o r =
      teardown_err wr codec e (record l { disk = l.disk ++ part })
        (omega (arith, length-append l.disk part)) p.running.error_none p.incomplete

  persist-sound :
      (final_err : Option Error) (l : Leader wr)
      → Running wr codec l
      → Whole wr codec l
      → l.entry.headers_ready ≡ true
      → IsSound wr codec (teardown wr final_err l)
  unfolding teardown
  persist-sound final_err l p w r = record {
    published = omega (arith, w.size_eq);
    in_phase = record {
      finished = refl;
      file_taken = refl;
      clean = λ c. (record { complete = w.complete; decodes = w.decodes; size_eq = w.size_eq }, r);
    };
  }

  close_writer-sound :
      (l : Leader wr)
      → l.entry.size ≤ length l.disk
      → Partial wr codec l
      → codec.Open l.sent l.writer l.disk
      → l.entry.headers_ready ≡ true
      → IsSound wr codec (close_writer wr l)
  unfolding close_writer
  close_writer-sound l h p o r = record {
    published = omega (arith, length-append l.disk (wr.close l.writer).0);
    in_phase = (
      record {
        running = record { error_none = p.running.error_none; unfinished = p.running.unfinished };
        incomplete = p.incomplete;
      },
      codec.closed_close l.sent l.disk l.writer o,
      r,
    );
  }

  complete_body-sound :
      (l : Leader wr)
      → Partial wr codec l
      → codec.Closed l.sent l.writer l.disk
      → l.entry.headers_ready ≡ true
      → IsSound wr codec (complete_body wr (publish_size wr l))
  unfolding complete_body publish_size
  complete_body-sound l p c r = record {
    published = omega arith;
    in_phase = (
      record { error_none = p.running.error_none; unfinished = p.running.unfinished },
      record {
        complete = refl;
        decodes = codec.closed_flush l.sent l.disk l.writer c;
        size_eq = refl;
      },
      r,
    );
  }

  start_streaming-sound :
      (l : Leader wr)
      → l.entry.size ≤ length l.disk
      → Partial wr codec l
      → codec.Open l.sent l.writer l.disk
      → IsSound wr codec (start_streaming wr l)
  unfolding start_streaming
  start_streaming-sound l h p o = record {
    published = h;
    in_phase = (
      record {
        running = record { error_none = p.running.error_none; unfinished = p.running.unfinished };
        incomplete = p.incomplete;
      },
      o,
      refl,
    );
  }

  advance-IsSound :
      (p : Phase) (input : Input) (l : Leader wr)
      → l.phase ≡ p
      → l.entry.size ≤ length l.disk
      → PhaseOk wr codec p l
      → IsSound wr codec (advance wr p input l)
  unfolding advance
  advance-IsSound Phase.starting (Input.setup none) l e h (p, o) = start_streaming-sound l h p o
  advance-IsSound Phase.starting (Input.setup (some x)) l e h (p, o) = failed wr codec x l h p
  advance-IsSound Phase.streaming (Input.read [] end _) l e h (p, o, r) =
      after_read-sound end l h p o r
  advance-IsSound Phase.streaming (Input.read (b ∷ bytes) end fault) l e h (p, o, r) =
      store-sound (b ∷ bytes) end fault l h p o r
  advance-IsSound (Phase.wrote end) (Input.publish none) l e h (p, o, r) =
      publish_size-sound end l p o r
  advance-IsSound (Phase.wrote end) (Input.publish (some x)) l e h (p, o, r) =
      failed wr codec x l h p
  advance-IsSound Phase.ending (Input.close none) l e h (p, o, r) = close_writer-sound l h p o r
  advance-IsSound Phase.ending (Input.close (some x)) l e h (p, o, r) = failed wr codec x l h p
  advance-IsSound Phase.closing (Input.publish none) l e h (p, c, r) = complete_body-sound l p c r
  advance-IsSound Phase.closing (Input.publish (some x)) l e h (p, c, r) = failed wr codec x l h p
  advance-IsSound Phase.persisting (Input.persist final_err) l e h (p, w, r) =
      persist-sound final_err l p w r
  advance-IsSound p _ l e h ok = record {
    published = h;
    in_phase = subst (λ q. PhaseOk wr codec q l) (sym e) ok;
  }

  pub leader_step-IsSound :
      (input : Input) (l : Leader wr)
      → IsSound wr codec l
      → IsSound wr codec (leader_step wr input l)
  leader_step-IsSound input l s = advance-IsSound l.phase input l refl s.published s.in_phase

  pub new_leader-IsSound : IsSound wr codec (new_leader wr)
  unfolding new_cache_entry
  new_leader-IsSound = record {
    published = omega arith;
    in_phase = (
      record { running = record { error_none = refl; unfinished = refl }; incomplete = refl },
      codec.open_start,
    );
  }
