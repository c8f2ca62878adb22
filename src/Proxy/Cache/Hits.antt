-- ===== src/Proxy/Cache/Hits.antt =====
-- openCached (cmd/proxy/filecache.go) against what `download` stores.
use debuginfod_pwndbg_re.Prelude.{
  ℕ, ◌≤◌, Bool, true, Option, none, some, Bytes, length, ◌≡◌, refl, ap, arith, Bool-cases, pos,
  negsuc, ℤ, ◌⊎◌, inl, inr,
}
use debuginfod_pwndbg_re.Proxy.Errors.{Result, ok, err}
use debuginfod_pwndbg_re.Proxy.Cache.{
  CacheMeta, MetaFile, BlobFile, Slot, is_size, is_status, open_blob, open_decoded, open_meta,
  open_cached, with_size, Persist, write_meta_file, rename_blob, persist_marshalled, persist,
}

is_size_lem : (z : ℤ) (n : ℕ) → is_size z n ≡ true → z ≡ pos n
is_size_lem (pos m) n h = ground arith
is_size_lem (negsuc m) n h = cc

is_status_lem : (z : ℤ) → is_status z ≡ true → (n : ℕ) × (z ≡ pos n) × (100 ≤ n) × (n ≤ 999)
is_status_lem (pos n) h = (n, refl, ground arith, ground arith)
is_status_lem (negsuc n) h = cc

open_blob_hit :
    (removes touches : Bool) (now : ℕ) (m : CacheMeta) (b : BlobFile) (s s' : Slot)
    → (meta : CacheMeta) (content : Bytes)
    → open_blob removes touches now m b s ≡ (some (meta, content), s')
    → (m ≡ meta)
      × (b ≡ BlobFile.blob_file content)
      × (is_size m.size (length content) ≡ true)
      × (s'.meta ≡ s.meta)
      × (s'.blob ≡ s.blob)
unfolding open_blob
open_blob_hit removes touches now m BlobFile.blob_missing s s' meta content h = cc
open_blob_hit removes touches now m BlobFile.blob_unreadable s s' meta content h = cc
open_blob_hit removes touches now m BlobFile.stat_failed s s' meta content h = cc
open_blob_hit removes touches now m (BlobFile.blob_file c) s s' meta content h = ground arith

open_decoded_hit :
    (removes touches : Bool) (now : ℕ) (decoded : Option CacheMeta) (s s' : Slot)
    → (meta : CacheMeta) (content : Bytes)
    → open_decoded removes touches now decoded s ≡ (some (meta, content), s')
    → (decoded ≡ some meta)
      × (s.blob ≡ BlobFile.blob_file content)
      × (is_size meta.size (length content) ≡ true)
      × (is_status meta.status ≡ true)
      × (s'.meta ≡ s.meta)
      × (s'.blob ≡ s.blob)
unfolding open_decoded
open_decoded_hit removes touches now none s s' meta content h = cc
open_decoded_hit removes touches now (some m) s s' meta content h =
    elim (Bool-cases (is_status m.status)) [
      | inl good ↦
          let (e, blob, size, km, kb) =
            open_blob_hit removes touches now m s.blob s s' meta content (rw good at h) in
          (ap some e, blob, cc, cc, km, kb)
      | inr bad ↦ absurd (ground (arith, h))
    ]

module _ (json_unmarshal : Bytes → Option CacheMeta) where
  -- What a hit promises.
  pub record IsServable (s s' : Slot) (meta : CacheMeta) (content : Bytes) : Type 0 where
    pub raw : Bytes
    pub meta_eq : s.meta ≡ MetaFile.meta_file raw
    pub decoded : json_unmarshal raw ≡ some meta
    pub blob_eq : s.blob ≡ BlobFile.blob_file content
    pub size_eq : meta.size ≡ pos (length content)
    pub n : ℕ
    pub status_eq : meta.status ≡ pos n
    pub status_low : 100 ≤ n
    pub status_high : n ≤ 999
    pub kept_meta : s'.meta ≡ s.meta
    pub kept_blob : s'.blob ≡ s.blob

  open_meta-IsServable :
      (removes touches : Bool) (now : ℕ) (mf : MetaFile) (s s' : Slot)
      → (meta : CacheMeta) (content : Bytes) → s.meta ≡ mf
      → open_meta json_unmarshal removes touches now mf s ≡ (some (meta, content), s')
      → IsServable s s' meta content
  unfolding open_meta
  open_meta-IsServable removes touches now MetaFile.meta_missing s s' meta content e h = absurd (cc)
  open_meta-IsServable removes touches now MetaFile.meta_unreadable s s' meta content e h =
      absurd (cc)
  open_meta-IsServable removes touches now (MetaFile.meta_file raw) s s' meta content e h =
      let (de, be, size, st, km, kb) =
        open_decoded_hit removes touches now (json_unmarshal raw) s s' meta content h in
      let (n, se, low, high) = is_status_lem meta.status st in
      record {
        raw = raw;
        meta_eq = e;
        decoded = de;
        blob_eq = be;
        size_eq = is_size_lem meta.size _ size;
        n = n;
        status_eq = se;
        status_low = low;
        status_high = high;
        kept_meta = km;
        kept_blob = kb;
      }

  -- Every entry that is served is whole: the bytes are those of the blob, as many as its .meta says,
  -- under a status that net/http accepts, whatever stands on the disk and whatever json.Unmarshal
  -- makes of it. Serving deletes nothing.
  pub open_cached-IsServable :
      (removes touches : Bool) (now : ℕ) (s s' : Slot) (meta : CacheMeta) (content : Bytes)
      → open_cached json_unmarshal removes touches now s ≡ (some (meta, content), s')
      → IsServable s s' meta content
  unfolding open_cached
  open_cached-IsServable removes touches now s s' meta content h =
      open_meta-IsServable removes touches now s.meta s s' meta content refl h

  -- A miss leaves the blob and its age alone, so that a broken entry is the first to be evicted; the
  -- only thing that it may delete is a .meta whose blob is gone.
  open_cached_miss :
      (removes touches : Bool) (now : ℕ) (s s' : Slot)
      → open_cached json_unmarshal removes touches now s ≡ (none, s')
      → (s'.blob ≡ s.blob)
        × (s'.mod_time ≡ s.mod_time)
        × ((s'.meta ≡ s.meta)
            ⊎ ((s'.meta ≡ MetaFile.meta_missing) × (s.blob ≡ BlobFile.blob_missing)))
  unfolding open_cached open_meta open_decoded open_blob
  open_cached_miss removes touches now s s' h = ground arith

  -- A download that stored its entry is a hit from then on: the next request gets the very bytes
  -- that were written, the headers of the download and its status, whatever was there before, if
  -- this status is one that net/http accepts and if json.Unmarshal reads from what json.Marshal
  -- wrote for this entry the entry itself, as it does where the headers are valid UTF-8.
  pub open_cached-persist :
      (json_marshal : CacheMeta → Result Bytes) (p : Persist) (now later n : ℕ) (meta : CacheMeta)
      (content : Bytes) (s s' : Slot)
      → (removes touches : Bool) → meta.status ≡ pos n
      → 100 ≤ n
      → n ≤ 999
      → ((raw : Bytes)
          → json_marshal (with_size meta content) ≡ ok raw
          → json_unmarshal raw ≡ some (with_size meta content))
      → persist json_marshal p now meta content s ≡ (none, s')
      → (open_cached json_unmarshal removes touches later s').0
        ≡ some (with_size meta content, content)
  unfolding persist open_cached
  open_cached-persist json_marshal p now later n meta content s s' removes touches st low high back
        h =
      go (json_marshal (with_size meta content)) back h
    where
      go :
          (marshalled : Result Bytes)
          → ((raw : Bytes)
              → marshalled ≡ ok raw
              → json_unmarshal raw ≡ some (with_size meta content))
          → persist_marshalled marshalled p now content s ≡ (none, s')
          → (open_meta json_unmarshal removes touches later s'.meta s').0
            ≡ some (with_size meta content, content)
      go (err e) back h = unfold persist_marshalled in (cc)
      go (ok raw) back h =
          let decoded = back raw refl in
          unfold persist_marshalled rename_blob write_meta_file open_meta open_decoded open_blob in
          ground (arith, decoded)
