-- ===== src/Proxy/Stream/Growth.antt =====
-- The leader of a download (cmd/proxy/filecache.go) only appends to the file.
use debuginfod_pwndbg_re.Prelude.{
  ◌≤◌, [], ◌∷◌, ◌++◌, Option, none, some, Bytes, length, length-append, ◌≡◌, refl, sym, ◌∙◌, arith,
  append-nil, append_assoc,
}
use debuginfod_pwndbg_re.Proxy.Errors.{Error}
use debuginfod_pwndbg_re.Proxy.Stream.{
  Writer, End, Phase, Input, Leader, teardown, publish_size, after_read, store, start_streaming,
  close_writer, complete_body, advance,
}

module _ (wr : Writer) where
  -- A step of the leader only appends to the file and only raises the promise.
  pub record Grows (l l' : Leader wr) : Type 0 where
    pub out : Bytes
    pub disk_eq : l'.disk ≡ l.disk ++ out
    pub size_le : l.entry.size ≤ l'.entry.size

  Grows-refl : (l : Leader wr) → Grows l l
  Grows-refl l = record { out = []; disk_eq = sym (append-nil l.disk); size_le = omega arith }

  teardown-Grows : (e : Option Error) (l : Leader wr) → Grows l (teardown wr e l)
  unfolding teardown
  teardown-Grows e l = record { out = []; disk_eq = sym (append-nil l.disk); size_le = omega arith }

  after_read-Grows : (end : End) (l : Leader wr) → Grows l (after_read wr end l)
  unfolding after_read
  after_read-Grows End.more l = record {
    out = [];
    disk_eq = sym (append-nil l.disk);
    size_le = omega arith;
  }
  after_read-Grows End.eof l = record {
    out = [];
    disk_eq = sym (append-nil l.disk);
    size_le = omega arith;
  }
  after_read-Grows (End.broken e) l = teardown-Grows (some e) l

  publish_size-Grows :
      (end : End) (l : Leader wr)
      → l.entry.size ≤ length l.disk
      → Grows l (after_read wr end (publish_size wr l))
  unfolding publish_size
  publish_size-Grows end l h =
      let g = after_read-Grows end (publish_size wr l) in
      record {
        out = (wr.flush l.writer).0 ++ g.out;
        disk_eq = g.disk_eq ∙ append_assoc l.disk (wr.flush l.writer).0 g.out;
        size_le = omega (arith, g.size_le, length-append l.disk (wr.flush l.writer).0);
      }

  store-Grows :
      (bytes : Bytes) (end : End) (fault : Option (Bytes × Error)) (l : Leader wr)
      → Grows l (store wr bytes end fault l)
  unfolding store teardown
  store-Grows bytes end none l = record {
    out = (wr.write bytes l.writer).0;
    disk_eq = refl;
    size_le = omega arith;
  }
  store-Grows bytes end (some (part, e)) l = record {
    out = part;
    disk_eq = refl;
    size_le = omega arith;
  }

  pub advance-Grows :
      (p : Phase) (input : Input) (l : Leader wr)
      → l.entry.size ≤ length l.disk
      → Grows l (advance wr p input l)
  unfolding advance start_streaming close_writer complete_body publish_size
  advance-Grows Phase.starting (Input.setup none) l h = record {
    out = [];
    disk_eq = sym (append-nil l.disk);
    size_le = omega arith;
  }
  advance-Grows Phase.starting (Input.setup (some x)) l h = teardown-Grows (some x) l
  advance-Grows Phase.streaming (Input.read [] end _) l h = after_read-Grows end l
  advance-Grows Phase.streaming (Input.read (b ∷ bytes) end fault) l h =
      store-Grows (b ∷ bytes) end fault l
  advance-Grows (Phase.wrote end) (Input.publish none) l h = publish_size-Grows end l h
  advance-Grows (Phase.wrote end) (Input.publish (some x)) l h = teardown-Grows (some x) l
  advance-Grows Phase.ending (Input.close none) l h = record {
    out = (wr.close l.writer).0;
    disk_eq = refl;
    size_le = omega arith;
  }
  advance-Grows Phase.ending (Input.close (some x)) l h = teardown-Grows (some x) l
  advance-Grows Phase.closing (Input.publish none) l h = record {
    out = (wr.flush l.writer).0;
    disk_eq = refl;
    size_le = omega (arith, length-append l.disk (wr.flush l.writer).0);
  }
  advance-Grows Phase.closing (Input.publish (some x)) l h = teardown-Grows (some x) l
  advance-Grows Phase.persisting (Input.persist final_err) l h = teardown-Grows final_err l
  advance-Grows p _ l h = Grows-refl l
