-- ===== src/Proxy/Cache.antt =====
-- cmd/proxy/filecache.go: the finished entries on disk. The key and the path of a blob, what
-- `download` stores at its end, and what `openCached` makes of the two files that it finds.
-- sha256.Sum256 is the argument `sum`, json.Marshal and json.Unmarshal are `json_marshal` and
-- `json_unmarshal`; the file system answers through arguments.
use debuginfod_pwndbg_re.Prelude.{
  ℕ, ◌+◌, ◌-◌, ◌/◌, ◌%◌, Bool, true, false, ◌&&◌, ◌||◌, not, List, [], ◌∷◌, ◌++◌, Option, none,
  some, Bytes, codes, length, take, drop, ltb, leb, ◌==◌, if◌then◌else◌, ℤ, pos, negsuc,
}
use debuginfod_pwndbg_re.Proxy.Errors.{Error, Result, ok, err}
use debuginfod_pwndbg_re.Proxy.Headers.{Headers, proxy_headers, set, del, copy_headers, format_int}
pub mod Keys
pub mod Hits
mod Tests

-- The fields of a key stand apart by NUL.
unfoldable pub cache_key : Bytes → Bytes → Bytes → Bytes
cache_key endpoint_name build_id extra_path = endpoint_name ++ 0 ∷ (build_id ++ 0 ∷ extra_path)

unfoldable pub hex_digit : ℕ → ℕ
hex_digit d = if ltb d 10 then b'0' + d else b'a' + (d - 10)

-- hex.EncodeToString
unfoldable pub hex : Bytes → Bytes
hex [] = []
hex (b ∷ s) = hex_digit (b / 16) ∷ hex_digit (b % 16) ∷ hex s

-- `filepath.Join(c.dir, h[0:2], h[2:4], h)`, where `dir` is clean and not the root.
unfoldable pub blob_path : (Bytes → Bytes) → Bytes → Bytes → Bytes
blob_path sum dir key =
    let h = hex (sum key) in dir ++ b'/' ∷ (take 2 h ++ b'/' ∷ (take 2 (drop 2 h) ++ b'/' ∷ h))

pub record CacheMeta : Type 0 where
  pub status : ℤ
  pub headers : Headers
  pub size : ℤ
  pub host : Bytes

-- What reading `<blob>.meta` gives.
pub data MetaFile : Type 0 where
  meta_missing meta_unreadable : MetaFile
  meta_file : Bytes → MetaFile

-- What opening the blob and its Stat give.
pub data BlobFile : Type 0 where
  blob_missing blob_unreadable stat_failed : BlobFile
  blob_file : Bytes → BlobFile

-- The two files of a key, with the blob's mtime.
pub record Slot : Type 0 where
  pub meta : MetaFile
  pub blob : BlobFile
  pub mod_time : ℕ

abbrev pub is_status : ℤ → Bool
is_status (pos n) = leb 100 n && leb n 999
is_status (negsuc _) = false

abbrev pub is_size : ℤ → ℕ → Bool
is_size (pos n) m = n == m
is_size (negsuc _) m = false

abbrev pub Opened : Type 0
Opened = Option (CacheMeta × Bytes) × Slot

-- Behind the check of the status; `removes` is whether os.Remove of an orphaned .meta succeeds
-- and `touches` whether os.Chtimes does.
unfoldable pub open_blob : Bool → Bool → ℕ → CacheMeta → BlobFile → Slot → Opened
open_blob removes touches now meta blob_missing s =
    (none, if removes then record s { meta = meta_missing } else s)
open_blob removes touches now meta blob_unreadable s = (none, s)
open_blob removes touches now meta stat_failed s = (none, s)
open_blob removes touches now meta (blob_file content) s =
    if is_size meta.size (length content)
    then (some (meta, content), if touches then record s { mod_time = now } else s)
    else (none, s)

-- Behind json.Unmarshal, whose failure is `none`.
unfoldable pub open_decoded : Bool → Bool → ℕ → Option CacheMeta → Slot → Opened
open_decoded removes touches now none s = (none, s)
open_decoded removes touches now (some meta) s =
    if is_status meta.status then open_blob removes touches now meta s.blob s else (none, s)

module _ (json_unmarshal : Bytes → Option CacheMeta) where
  unfoldable pub open_meta : Bool → Bool → ℕ → MetaFile → Slot → Opened
  open_meta removes touches now meta_missing s = (none, s)
  open_meta removes touches now meta_unreadable s = (none, s)
  open_meta removes touches now (meta_file raw) s =
      open_decoded removes touches now (json_unmarshal raw) s

  -- openCached
  unfoldable pub open_cached : Bool → Bool → ℕ → Slot → Opened
  open_cached removes touches now s = open_meta removes touches now s.meta s

-- The outcomes of what `download` calls behind a complete body: Rename, writeFileAtomic, and the
-- Remove of the blob if that failed.
pub record Persist : Type 0 where
  pub rename : Option Error
  pub write_meta : Option Error
  pub removes : Bool

unfoldable pub write_meta_file : Option Error → Bool → Bytes → Slot → Option Error × Slot
write_meta_file none removes raw s = (none, record s { meta = meta_file raw })
write_meta_file (some e) removes raw s =
    (some e, if removes then record s { blob = blob_missing } else s)

unfoldable pub rename_blob : Option Error → Persist → ℕ → Bytes → Bytes → Slot → Option Error × Slot
rename_blob (some e) p now raw content s = (some e, s)
rename_blob none p now raw content s =
    write_meta_file p.write_meta p.removes raw
      (record s { blob = blob_file content; mod_time = now })

unfoldable pub persist_marshalled : Result Bytes → Persist → ℕ → Bytes → Slot → Option Error × Slot
persist_marshalled (err e) p now content s = (some e, s)
persist_marshalled (ok raw) p now content s = rename_blob p.rename p now raw content s

-- The meta with the size that was written.
abbrev pub with_size : CacheMeta → Bytes → CacheMeta
with_size meta content = record meta { size = pos (length content) }

-- The end of `download`, from `written := cw.n` on.
unfoldable pub persist :
    (CacheMeta → Result Bytes) → Persist → ℕ → CacheMeta → Bytes → Slot → Option Error × Slot
persist json_marshal p now meta content s =
    persist_marshalled (json_marshal (with_size meta content)) p now content s

-- strconv.FormatInt(meta.Size, 10)
abbrev pub size_text : ℤ → Bytes
size_text (pos n) = format_int n
size_text (negsuc n) = b'-' ∷ format_int (n + 1)

-- writeCachedHeaders
unfoldable pub write_cached_headers : CacheMeta → Bytes → Bytes → Bool → Headers → Headers
write_cached_headers meta host_name cache_status streaming h =
    let copied = copy_headers proxy_headers meta.headers h in
    let sized : Headers =
      if streaming
      then del "content-length" copied
      else set "content-length" (size_text meta.size) copied in
    let server : Bytes = elim meta.host [ [] ↦ host_name | c ∷ s ↦ c ∷ s ] in
    set "x-cache" cache_status (set "x-server" server sized)
