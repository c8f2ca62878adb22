-- ===== src/Proxy/Stream/Invariant.antt =====
-- What holds of a download (cmd/proxy/filecache.go) after each of its steps.
use debuginfod_pwndbg_re.Prelude.{◌≤◌, true, false, none, some, length, ◌≡◌, refl, arith}
use debuginfod_pwndbg_re.Proxy.Errors.{Error}
use debuginfod_pwndbg_re.Proxy.Stream.{Writer, Phase, Leader, teardown}
use debuginfod_pwndbg_re.Proxy.Stream.Codec.{IsCodec}

module _ (wr : Writer) (codec : IsCodec wr) where
  -- A download that is still running.
  pub record Running (l : Leader wr) : Type 0 where
    pub error_none : l.entry.error ≡ none
    pub unfinished : l.entry.finished ≡ false

  -- One whose body has not arrived in full.
  pub record Partial (l : Leader wr) : Type 0 where
    pub running : Running l
    pub incomplete : l.body_complete ≡ false

  -- The file is the complete stream of what the upstream sent, and all of it is published.
  pub record Whole (l : Leader wr) : Type 0 where
    pub complete : l.body_complete ≡ true
    pub decodes : codec.decode l.disk ≡ some l.sent
    pub size_eq : l.entry.size ≡ length l.disk

  pub record Finished (l : Leader wr) : Type 0 where
    pub finished : l.entry.finished ≡ true
    pub file_taken : l.entry.open_file ≡ false
    pub clean : l.entry.error ≡ none → Whole l × (l.entry.headers_ready ≡ true)

  abbrev pub PhaseOk : Phase → Leader wr → Type 0
  PhaseOk Phase.starting l = Partial l × codec.Open l.sent l.writer l.disk
  PhaseOk Phase.streaming l =
      Partial l × codec.Open l.sent l.writer l.disk × (l.entry.headers_ready ≡ true)
  PhaseOk (Phase.wrote _) l =
      Partial l × codec.Open l.sent l.writer l.disk × (l.entry.headers_ready ≡ true)
  PhaseOk Phase.ending l =
      Partial l × codec.Open l.sent l.writer l.disk × (l.entry.headers_ready ≡ true)
  PhaseOk Phase.closing l =
      Partial l × codec.Closed l.sent l.writer l.disk × (l.entry.headers_ready ≡ true)
  PhaseOk Phase.persisting l = Running l × Whole l × (l.entry.headers_ready ≡ true)
  PhaseOk Phase.over l = Finished l

  -- No more is promised to the followers than the file holds.
  pub record IsSound (l : Leader wr) : Type 0 where
    pub published : l.entry.size ≤ length l.disk
    pub in_phase : PhaseOk l.phase l

  pub teardown_err :
      (e : Error) (l : Leader wr)
      → l.entry.size ≤ length l.disk
      → l.entry.error ≡ none
      → l.body_complete ≡ false
      → IsSound (teardown wr (some e) l)
  unfolding teardown
  teardown_err e l h none_yet partial = record {
    published = h;
    in_phase = record { finished = refl; file_taken = refl; clean = λ c. absurd (ground arith) };
  }

  pub failed :
      (e : Error) (l : Leader wr)
      → l.entry.size ≤ length l.disk
      → Partial l
      → IsSound (teardown wr (some e) l)
  failed e l h p = teardown_err e l h p.running.error_none p.incomplete
