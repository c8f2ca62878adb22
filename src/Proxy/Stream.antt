-- ===== src/Proxy/Stream.antt =====
-- cmd/proxy/filecache.go: a download in progress (cacheEntry, download) and a client that follows
-- it (entryReader.Read, the start of follow). What the leader does under one hold of `e.mu` is one
-- step; the upstream, the disk and the context answer through the inputs.
use debuginfod_pwndbg_re.Prelude.{
  ℕ, zero, suc, ◌<◌, ◌+◌, ◌-◌, min, Bool, true, false, List, [], ◌∷◌, ◌++◌, Option, none, some,
  Bytes, take, drop, length, ltb, ◌==◌, if◌then◌else◌, ◌≡◌,
}
use debuginfod_pwndbg_re.Proxy.Errors.{Error}
pub mod Codec
pub mod Invariant
pub mod Steps
pub mod Growth
pub mod Follow
pub mod Delivery
mod Tests

-- The writers between the body and the file: what each call lets through to the file.
pub record Writer : Type 1 where
  pub State : Type 0
  pub start : State
  pub write : Bytes → State → Bytes × State
  pub flush : State → Bytes × State
  pub close : State → Bytes × State

-- cacheEntry; `open` says that tmpFile is not nil.
pub record Entry : Type 0 where
  pub open_file : Bool
  pub headers_ready : Bool
  pub size : ℕ
  pub finished : Bool
  pub error : Option Error

unfoldable pub new_cache_entry : Entry
new_cache_entry = record {
  open_file = false;
  headers_ready = false;
  size = 0;
  finished = false;
  error = none;
}

-- How a Read of the body ends.
pub data End : Type 0 where
  more eof : End
  broken : Error → End

-- Where `download` stands.
pub data Phase : Type 0 where
  -- before the headers are published
  starting : Phase
  -- before a Read
  streaming : Phase
  -- bytes were written, publishSize comes next
  wrote : End → Phase
  -- behind the loop, before zw.Close
  ending : Phase
  -- behind zw.Close, before the last publishSize
  closing : Phase
  -- bodyComplete, before the entry is stored under its name
  persisting : Phase
  -- behind the deferred function
  over : Phase

-- What the world answers to the leader's next call.
pub data Input : Type 0 where
  -- fetch, MkdirAll and CreateTemp
  setup : Option Error → Input
  -- the bytes of a Read and its end; a failing Write with the bytes that reached the file
  read : Bytes → End → Option (Bytes × Error) → Input
  publish : Option Error → Input
  close : Option Error → Input
  -- Marshal, Rename and writeFileAtomic
  persist : Option Error → Input

-- The client's side of the response.
pub data Status : Type 0 where
  reading : Status
  got_eof : Status
  failed : Error → Status

-- entryReader with the bytes that it has returned.
pub record Follower : Type 0 where
  pub offset : ℕ
  pub received : Bytes
  pub status : Status

abbrev pub new_follower : Follower
new_follower = record { offset = 0; received = []; status = reading }

unfoldable pub stale_status : Option Error → Bool → Error → Status → Status
stale_status (some e) finished unexpected_eof status = failed e
stale_status none true unexpected_eof status = failed unexpected_eof
stale_status none false unexpected_eof status = status

module _ (wr : Writer) where
  -- The leader with its entry: `disk` is what the file holds, `sent` what the upstream delivered.
  pub record Leader : Type 0 where
    pub entry : Entry
    pub phase : Phase
    pub writer : wr.State
    pub disk : Bytes
    pub sent : Bytes
    pub body_complete : Bool

  abbrev pub new_leader : Leader
  new_leader = record {
    entry = new_cache_entry;
    phase = starting;
    writer = wr.start;
    disk = [];
    sent = [];
    body_complete = false;
  }

  -- The deferred function of `download`.
  unfoldable pub teardown : Option Error → Leader → Leader
  teardown final_err l = record l {
    phase = over;
    entry = record (l.entry) {
      open_file = false;
      finished = true;
      error = elim l.entry.error [
        | none ↦ if l.body_complete then none else final_err
        | some e ↦ some e
      ];
    };
  }

  -- publishSize.
  unfoldable pub publish_size : Leader → Leader
  publish_size l =
      let (out, writer') = wr.flush l.writer in
      record l {
        writer = writer';
        disk = l.disk ++ out;
        entry = record (l.entry) { size = length (l.disk ++ out) };
      }

  -- What follows a Read whose bytes, if any, are published.
  unfoldable pub after_read : End → Leader → Leader
  after_read more l = record l { phase = streaming }
  after_read eof l = record l { phase = ending }
  after_read (broken e) l = teardown (some e) l

  unfoldable pub store : Bytes → End → Option (Bytes × Error) → Leader → Leader
  store bytes end none l =
      let (out, writer') = wr.write bytes l.writer in
      record l { writer = writer'; disk = l.disk ++ out; sent = l.sent ++ bytes; phase = wrote end }
  store bytes end (some (partial, e)) l = teardown (some e) (record l { disk = l.disk ++ partial })

  unfoldable pub start_streaming : Leader → Leader
  start_streaming l = record l {
    phase = streaming;
    entry = record (l.entry) { open_file = true; headers_ready = true };
  }

  unfoldable pub close_writer : Leader → Leader
  close_writer l =
      let (out, writer') = wr.close l.writer in
      record l { writer = writer'; disk = l.disk ++ out; phase = closing }

  unfoldable pub complete_body : Leader → Leader
  complete_body l = record l { phase = persisting; body_complete = true }

  -- One step of `download` by the answer that its next call gets.
  unfoldable pub advance : Phase → Input → Leader → Leader
  advance Phase.starting (Input.setup none) l = start_streaming l
  advance Phase.starting (Input.setup (some e)) l = teardown (some e) l
  advance Phase.streaming (Input.read [] end _) l = after_read end l
  advance Phase.streaming (Input.read (b ∷ bytes) end fault) l = store (b ∷ bytes) end fault l
  advance (Phase.wrote end) (Input.publish none) l = after_read end (publish_size l)
  advance (Phase.wrote end) (Input.publish (some e)) l = teardown (some e) l
  advance Phase.ending (Input.close none) l = close_writer l
  advance Phase.ending (Input.close (some e)) l = teardown (some e) l
  advance Phase.closing (Input.publish none) l = complete_body (publish_size l)
  advance Phase.closing (Input.publish (some e)) l = teardown (some e) l
  advance Phase.persisting (Input.persist final_err) l = teardown final_err l
  advance _ _ l = l

  abbrev pub leader_step : Input → Leader → Leader
  leader_step input l = advance l.phase input l

  -- One round of the loop in entryReader.Read with a buffer of `k` bytes. `stale` is a ReadAt that
  -- returns nothing, `gone` the end of the client's context.
  unfoldable pub read_bytes : ℕ → Leader → Follower → Follower
  read_bytes k l f =
      let chunk = take (min k (l.entry.size - f.offset)) (drop f.offset l.disk) in
      record f { offset = f.offset + length chunk; received = f.received ++ chunk }

  -- Caught up with the leader: wait, or end as the download did.
  unfoldable pub read_end : Leader → Follower → Follower
  read_end l f =
      let ended : Follower = elim l.entry.error [
        | none ↦ record f { status = got_eof }
        | some e ↦ record f { status = failed e }
      ] in
      if l.entry.finished then ended else f

  -- A ReadAt that returns nothing although more is announced: try again, unless all is over.
  unfoldable pub read_stale : Error → Leader → Follower → Follower
  unfolding stale_status
  read_stale unexpected_eof l f = record f {
    status = stale_status l.entry.error l.entry.finished unexpected_eof f.status;
  }

  unfoldable pub follower_read : ℕ → Leader → Follower → Follower
  follower_read zero l f = f
  follower_read (suc k) l f =
      if ltb f.offset l.entry.size then read_bytes (suc k) l f else read_end l f

  pub record System : Type 0 where
    pub leader : Leader
    pub follower : Follower

  -- The interleavings of a leader and a follower.
  pub data Step : System → System → Type 0 where
    lead : (input : Input) (s : System) → Step s (record s { leader = leader_step input s.leader })
    pull :
        (k : ℕ) (s : System)
        → s.follower.status ≡ reading
        → Step s (record s { follower = follower_read k s.leader s.follower })
    stall :
        (unexpected_eof : Error) (s : System)
        → s.follower.status ≡ reading
        → s.follower.offset < s.leader.entry.size
        → Step s (record s { follower = read_stale unexpected_eof s.leader s.follower })
    leave :
        (e : Error) (s : System)
        → s.follower.status ≡ reading
        → Step s (record s { follower = record (s.follower) { status = failed e } })

  pub data Reach : System → Type 0 where
    start : Reach (record { leader = new_leader; follower = new_follower })
    next : {s t : System} → Reach s → Step s t → Reach t
