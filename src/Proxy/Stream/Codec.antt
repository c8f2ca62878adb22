-- ===== src/Proxy/Stream/Codec.antt =====
-- What `download` (cmd/proxy/filecache.go) relies on of the writers in front of the file, and the
-- path without compression, which has none.
use debuginfod_pwndbg_re.Prelude.{
  [], ◌++◌, Option, some, Bytes, ◌≡◌, refl, append-nil, ap, ◌∙◌, sym,
}
use debuginfod_pwndbg_re.Proxy.Stream.{Writer}

-- The documented behaviour of a compressor: after any writes and flushes, Close and the flush of
-- the buffer below it leave a complete stream, which decodes to what was written. `Open` and
-- `Closed` relate the bytes written, the state and the bytes let through.
pub record IsCodec (wr : Writer) : Type 1 where
  pub decode : Bytes → Option Bytes
  pub Open : Bytes → wr.State → Bytes → Type 0
  pub Closed : Bytes → wr.State → Bytes → Type 0
  pub open_start : Open [] wr.start []
  pub open_write :
      (i o b : Bytes) (s : wr.State)
      → Open i s o
      → Open (i ++ b) (wr.write b s).1 (o ++ (wr.write b s).0)
  pub open_flush :
      (i o : Bytes) (s : wr.State) → Open i s o → Open i (wr.flush s).1 (o ++ (wr.flush s).0)
  pub closed_close :
      (i o : Bytes) (s : wr.State) → Open i s o → Closed i (wr.close s).1 (o ++ (wr.close s).0)
  pub closed_flush :
      (i o : Bytes) (s : wr.State) → Closed i s o → decode (o ++ (wr.flush s).0) ≡ some i

-- `var dst io.Writer = cw`: what the upstream sent in gzip is stored as it is.
abbrev pub verbatim : Writer
verbatim = record {
  State = Unit {0};
  start = tt;
  write = λ b s. (b, s);
  flush = λ s. ([], s);
  close = λ s. ([], s);
}

abbrev pub verbatim-IsCodec : IsCodec verbatim
verbatim-IsCodec = record {
  decode = some;
  Open = λ i s o. i ≡ o;
  Closed = λ i s o. i ≡ o;
  open_start = refl;
  open_write = λ i o b s e. ap (λ x. x ++ b) e;
  open_flush = λ i o s e. e ∙ sym (append-nil o);
  closed_close = λ i o s e. e ∙ sym (append-nil o);
  closed_flush = λ i o s e. ap some (append-nil o ∙ sym e);
}
