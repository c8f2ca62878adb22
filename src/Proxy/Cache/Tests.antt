-- ===== src/Proxy/Cache/Tests.antt =====
-- Entries of the cache, whole and broken.
use debuginfod_pwndbg_re.Prelude.{
  ℕ, zero, suc, true, false, [], ◌∷◌, Option, none, some, Bytes, codes, bytes_eq, bytes_eq_refl,
  if◌then◌else◌, ◌≡◌, refl, arith, pos,
}
use debuginfod_pwndbg_re.Proxy.Errors.{Result, ok}
use debuginfod_pwndbg_re.Proxy.Headers.{no_header, set, del, copy_headers, digits, format_int}
use debuginfod_pwndbg_re.Proxy.Cache.{
  cache_key, hex_digit, hex, blob_path, CacheMeta, MetaFile, BlobFile, Slot, open_blob,
  open_decoded, open_meta, open_cached, Persist, write_meta_file, rename_blob, persist_marshalled,
  persist, write_cached_headers,
}
use debuginfod_pwndbg_re.Proxy.Cache.Hits.{IsServable, open_cached-IsServable, open_cached-persist}

program : Unit {0}
unfolding cache_key hex_digit hex blob_path bytes_eq open_blob open_decoded open_meta open_cached
    write_meta_file rename_blob persist_marshalled persist write_cached_headers set del copy_headers
    digits format_int
program = tt

abbrev meta : CacheMeta
meta = record {
  status = pos 200;
  headers = set "content-encoding" (codes "gzip") no_header;
  size = pos 0;
  host = codes "fedora";
}

abbrev content : Bytes
content = codes "elf"

abbrev empty_slot : Slot
empty_slot = record { meta = MetaFile.meta_missing; blob = BlobFile.blob_missing; mod_time = 0 }

abbrev all_well : Persist
all_well = record { rename = none; write_meta = none; removes = true }

-- A codec that knows one entry.
abbrev json_marshal : CacheMeta → Result Bytes
json_marshal m = ok (codes "{}")

json_unmarshal : Bytes → Option CacheMeta
json_unmarshal raw = if bytes_eq raw (codes "{}") then some (record meta { size = pos 3 }) else none

abbrev stored : Slot
stored = record {
  meta = MetaFile.meta_file (codes "{}");
  blob = BlobFile.blob_file content;
  mod_time = 7;
}

abbrev torn : Slot
torn = record stored { blob = BlobFile.blob_file (codes "el") }

stores : persist json_marshal all_well 7 meta content empty_slot ≡ (none, stored)
unfolding program
stores = refl

serves :
    open_cached json_unmarshal true true 9 stored
    ≡ (some (record meta { size = pos 3 }, content), record stored { mod_time = 9 })
unfolding program json_unmarshal
serves = refl

skips_torn : open_cached json_unmarshal true true 9 torn ≡ (none, torn)
unfolding program json_unmarshal
skips_torn = refl

length_header :
    write_cached_headers
      (record meta { size = pos 3 })
      (codes "x")
      (codes "HIT")
      false
      no_header
      "content-length"
    ≡ codes "3"
unfolding program
length_header = refl

producer :
    write_cached_headers meta (codes "x") (codes "HIT") true no_header "x-server" ≡ codes "fedora"
unfolding program
producer = refl

zeros : ℕ → Bytes
zeros zero = []
zeros (suc n) = 0 ∷ zeros n

open_cached-IsServable_example :
    IsServable json_unmarshal stored
      (record stored { mod_time = 9 })
      (record meta { size = pos 3 })
      content
open_cached-IsServable_example =
    open_cached-IsServable json_unmarshal true true 9 stored _ _ _ serves

round_trip :
    (raw : Bytes)
    → json_marshal (record meta { size = pos 3 }) ≡ ok raw
    → json_unmarshal raw ≡ some (record meta { size = pos 3 })
unfolding json_unmarshal
round_trip raw h = ground (arith, bytes_eq_refl (codes "{}"))

open_cached-persist_example :
    (open_cached json_unmarshal true true 9 stored).0 ≡ some (record meta { size = pos 3 }, content)
open_cached-persist_example =
    open_cached-persist json_unmarshal json_marshal all_well 7 9 200 meta content empty_slot stored
      true true refl (omega arith) (omega arith) round_trip stores
